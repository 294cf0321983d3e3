-- ===== src/Message/Wire.antt =====
-- A message from the sender's object to the receiver's.
use y_rpc.Common.{
  list_laws, ℕ, ◌+◌, ◌-◌, ◌%◌, ◌^◌, ◌<◌, ◌≡◌, refl, ap, sym, ◌∙◌, true, List, [], ◌∷◌, ◌++◌,
  append-nil, length, drop, drop-append, some, pos, done, fault, ◌==◌, if◌then◌else◌, arith,
}
use y_rpc.Head
use y_rpc.Head.{MessageHead, IsMessageHead}
use y_rpc.Head.Codec.{serialize_message_head}
use y_rpc.Head.RoundTrip.{
  received, deserialize-serialize_message_head as read_head, length-serialize_message_head,
}
use y_rpc.Body
use y_rpc.Body.{BodyHead, serialize_body_head, deserialize_body_head, read_bytes}
use y_rpc.Body.RoundTrip.{
  IsBodyHead, read_bytes-append, appended, deserialize-serialize_body_head as read_body,
}
use y_rpc.Body.Size.{length-serialize_body_head}
use y_rpc.Message.{
  Message, UserData, null, block, freed, new_message, get_message_size, get_body_head_size,
  update_body_size, copy_user_data, serialize_message, release_body_data, user_len,
  get_message_head_from_data, get_body_head, malloc_body_data, analyse_message,
}

-- The pointer to a copy of these bytes, as mallocBodyData leaves it.
abbrev pub holding : List ℕ → UserData
holding [] = null
holding (c ∷ cs) = block (c ∷ cs)

-- A message that can be sent: fields that fit, and user data that is held.
pub record IsMessage (m : Message) (bytes : List ℕ) : Type 0 where
  pub head_fits : IsMessageHead m.message_head
  pub names_fit : IsBodyHead m.body_head
  pub held : m.user_data ≡ holding bytes
  pub measured : m.user_data_len ≡ length bytes

-- The bytes on the wire.
pub wire : Message → List ℕ → List ℕ
wire m bytes = serialize_message_head m.message_head ++ (serialize_body_head m.body_head ++ bytes)

read_bytes_all : (bytes : List ℕ) → read_bytes (length bytes) bytes ≡ done bytes
read_bytes_all bytes =
    ap (read_bytes (length bytes)) (sym (append-nil bytes)) ∙ read_bytes-append bytes []

copy_user_data-holding :
    (bytes : List ℕ) → copy_user_data (holding bytes) (length bytes) ≡ done bytes
unfolding copy_user_data
copy_user_data-holding [] = refl
copy_user_data-holding (c ∷ cs) = read_bytes_all (c ∷ cs)

pub malloc_body_data-holding :
    (bytes : List ℕ) (m : Message)
    → malloc_body_data true bytes (length bytes) m
      ≡ done (pos 0, record m { user_data = holding bytes; user_data_len = length bytes })
unfolding malloc_body_data
malloc_body_data-holding [] m = refl
malloc_body_data-holding (c ∷ cs) m = rw (read_bytes_all (c ∷ cs))

pub serialize_message-wire :
    (m : Message) (bytes : List ℕ)
    → IsMessage m bytes
    → serialize_message true m ≡ done (pos 0, some (wire m bytes))
unfolding serialize_message wire
serialize_message-wire m bytes h = rw (h.held, h.measured, copy_user_data-holding bytes)

pub length-wire :
    (m : Message) (bytes : List ℕ)
    → length (wire m bytes) ≡ 32 + Body.size m.body_head + length bytes
unfolding wire
length-wire m bytes =
    simp (list_laws, length-serialize_body_head, length-serialize_message_head) (omega arith)

-- The object that the receiver makes: handler unset, the sender's names, the head as it is read
-- back, and as user data every byte behind the body head.
unfoldable pub analysed : Message → List ℕ → Message
analysed m bytes = record {
  handler = 0;
  user_data = holding bytes;
  user_data_len = length bytes;
  body_head = m.body_head;
  message_head = received m.message_head Head.init;
}

-- The object after the head, and after the body head.
headed : Message → Message
headed m = record new_message { message_head = received m.message_head Head.init }

named : Message → Message
named m = record (headed m) { body_head = m.body_head }

read_head-wire :
    (m : Message) (bytes : List ℕ)
    → IsMessageHead m.message_head
    → get_message_head_from_data (wire m bytes) new_message ≡ done (headed m)
unfolding get_message_head_from_data wire headed new_message
read_head-wire m bytes fits = rw (read_head m.message_head Head.init _ fits)

skip_head-wire :
    (m : Message) (bytes : List ℕ)
    → drop 32 (wire m bytes) ≡ serialize_body_head m.body_head ++ bytes
unfolding wire serialize_message_head
skip_head-wire m bytes = refl

read_body-wire :
    (m : Message) (bytes : List ℕ)
    → IsBodyHead m.body_head
    → get_body_head (serialize_body_head m.body_head ++ bytes) (headed m) ≡ done (named m)
unfolding get_body_head headed named new_message Body.clear appended
read_body-wire m bytes fits = rw (read_body (headed m).body_head m.body_head bytes fits)

skip_body-wire :
    (m : Message) (bytes : List ℕ)
    → drop (get_body_head_size (named m)) (serialize_body_head m.body_head ++ bytes) ≡ bytes
unfolding get_body_head_size named
skip_body-wire m bytes =
    rw (← length-serialize_body_head m.body_head)
      (drop-append (serialize_body_head m.body_head) bytes)

user_len-wire :
    (m : Message) (bytes : List ℕ)
    → length (wire m bytes) < 2 ^ 64
    → user_len (length (wire m bytes)) (get_body_head_size (named m)) ≡ length bytes
unfolding get_body_head_size named
user_len-wire m bytes short = omega (arith, length-wire m bytes)

-- A buffer that holds a sendable message and nothing else gives the receiver the sender's names and
-- user data, and the head as it is read back.
pub analyse_message-wire :
    (m : Message) (bytes : List ℕ)
    → IsMessageHead m.message_head
    → IsBodyHead m.body_head
    → length (wire m bytes) < 2 ^ 64
    → analyse_message true (wire m bytes) (length (wire m bytes)) ≡ done (pos 0, analysed m bytes)
unfolding analyse_message
analyse_message-wire m bytes head_fits names_fit short =
    rw
      (
        read_head-wire m bytes head_fits,
        skip_head-wire m bytes,
        read_body-wire m bytes names_fit,
        skip_body-wire m bytes,
        user_len-wire m bytes short,
        malloc_body_data-holding bytes (named m),
      )
      (unfold named headed new_message analysed in refl)

wire-append : (m : Message) (bytes more : List ℕ) → wire m bytes ++ more ≡ wire m (bytes ++ more)
unfolding wire
wire-append m bytes more = simp list_laws

-- A message that can be sent, and that together with the bytes behind it is shorter than 2 ^ 64, is
-- written without a fault, and the receiver's object has the head as
-- it is read back, the sender's four names, and as user data the sender's followed by all the
-- bytes that arrived behind the message in the same read: the body size is not looked at.
pub analyse-serialize :
    (m : Message) (bytes more : List ℕ)
    → IsMessage m bytes
    → length (wire m (bytes ++ more)) < 2 ^ 64
    → (buffer : List ℕ) × (serialize_message true m ≡ done (pos 0, some buffer))
      × (analyse_message true (buffer ++ more) (length (buffer ++ more))
          ≡ done (pos 0, analysed m (bytes ++ more)))
analyse-serialize m bytes more h short = (
  wire m bytes,
  serialize_message-wire m bytes h,
  rw (wire-append m bytes more)
      (analyse_message-wire m (bytes ++ more) h.head_fits h.names_fit short),
)

-- After `updateBodySize` a sendable message fills a buffer of `getMessageSize` bytes, and its head
-- tells how many of them follow the head, modulo 2 ^ 32.
pub serialize-update_body_size :
    (m : Message) (bytes : List ℕ)
    → IsMessage m bytes
    → (buffer : List ℕ) × (serialize_message true (update_body_size m) ≡ done (pos 0, some buffer))
      × (length buffer ≡ get_message_size m)
      × ((update_body_size m).message_head.body_size ≡ (length buffer - 32) % 2 ^ 32)
unfolding update_body_size get_message_size get_body_head_size
serialize-update_body_size m bytes h =
    let n = update_body_size m in
    (
      wire n bytes,
      serialize_message-wire n bytes (record {
        head_fits = omega (arith, h.head_fits);
        names_fit = h.names_fit;
        held = h.held;
        measured = h.measured;
      }),
      omega (arith, length-wire n bytes, h.measured),
      omega (arith, length-wire n bytes, h.measured),
    )

-- A message whose user data was released still serialises, without its user data and without a
-- look at the freed block; a second release is a fault exactly if there was a block to free.
pub release-serialize :
    (m : Message) (bytes : List ℕ)
    → IsMessage m bytes
    → (gone : Message) × (release_body_data m ≡ done gone)
      × (serialize_message true gone ≡ done (pos 0, some (wire m [])))
      × (release_body_data gone ≡ (if length bytes == 0 then done gone else fault))
unfolding release_body_data serialize_message copy_user_data wire
release-serialize m [] h =
    (record m { user_data = null; user_data_len = 0 }, ground arith, refl, refl)
release-serialize m (c ∷ cs) h =
    (record m { user_data = freed; user_data_len = 0 }, rw h.held, refl, ground arith)
