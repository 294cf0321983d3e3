-- ===== src/Head/RoundTrip.antt =====
-- What a receiver reads from a head that was written.
use y_rpc.Common.{
  ℕ, ◌+◌, ◌*◌, ◌/◌, ◌%◌, ◌^◌, ◌<◌, ◌≡◌, refl, Bool, true, false, List, ◌++◌, length, bit_or,
  bit_or_disjoint, ◌∙◌, ◌==◌, if◌then◌else◌, done, arith,
}
use y_rpc.Head.{MessageHead, IsMessageHead}
use y_rpc.Head.Codec.{bit, serialize_message_head, deserialize_message_head}

-- The head takes MESSAGE_HEAD_SIZE bytes, whatever it holds.
pub length-serialize_message_head : (m : MessageHead) → length (serialize_message_head m) ≡ 32
unfolding serialize_message_head
length-serialize_message_head m = refl

short_join : (x : ℕ) → x < 2 ^ 16 → bit_or (x / 2 ^ 8 % 2 ^ 8 * 2 ^ 8) (x % 2 ^ 8) ≡ x
short_join x h = omega (arith, bit_or_disjoint 8 (x / 2 ^ 8 % 2 ^ 8) (x % 2 ^ 8) (omega arith))

join_bytes :
    (a b c d : ℕ)
    → b < 2 ^ 8
    → c < 2 ^ 8
    → d < 2 ^ 8
    → bit_or (a * 2 ^ 24) (bit_or (b * 2 ^ 16) (bit_or (c * 2 ^ 8) d))
      ≡ a * 2 ^ 24 + (b * 2 ^ 16 + (c * 2 ^ 8 + d))
join_bytes a b c d hb hc hd =
    rw (bit_or_disjoint 8 c d hd, bit_or_disjoint 16 b (c * 2 ^ 8 + d) (omega arith))
      (bit_or_disjoint 24 a (b * 2 ^ 16 + (c * 2 ^ 8 + d)) (omega arith))

-- The four bytes of an `unsigned int`, joined again.
int_join :
    (x : ℕ)
    → x < 2 ^ 32
    → bit_or
        (x / 2 ^ 24 % 2 ^ 8 * 2 ^ 24)
        (bit_or (x / 2 ^ 16 % 2 ^ 8 * 2 ^ 16) (bit_or (x / 2 ^ 8 % 2 ^ 8 * 2 ^ 8) (x % 2 ^ 8)))
      ≡ x
int_join x h =
    join_bytes (x / 2 ^ 24 % 2 ^ 8) (x / 2 ^ 16 % 2 ^ 8) (x / 2 ^ 8 % 2 ^ 8) (x % 2 ^ 8)
      (omega arith) (omega arith) (omega arith)
    ∙ omega arith

-- The two types and their byte.
type_high : (a b : ℕ) → a < 2 ^ 4 → b < 2 ^ 4 → bit_or (a * 2 ^ 4) b / 2 ^ 4 % 2 ^ 4 ≡ a
type_high a b ha hb = rw (bit_or_disjoint 4 a b hb) (omega arith)

type_low : (a b : ℕ) → b < 2 ^ 4 → bit_or (a * 2 ^ 4) b % 2 ^ 4 ≡ b
type_low a b hb = rw (bit_or_disjoint 4 a b hb) (omega arith)

-- The two flags and their byte.
flag_high :
    (a b : Bool)
    → (if bit_or (bit a * 2 ^ 7) (bit b * 2 ^ 6) / 2 ^ 7 % 2 == 0 then false else true) ≡ a
flag_high true true = refl
flag_high true false = refl
flag_high false true = refl
flag_high false false = refl

flag_low :
    (a b : Bool)
    → (if bit_or (bit a * 2 ^ 7) (bit b * 2 ^ 6) / 2 ^ 6 % 2 == 0 then false else true) ≡ b
flag_low true true = refl
flag_low true false = refl
flag_low false true = refl
flag_low false false = refl

-- The three bytes of a timeout keep twelve bits of the seconds and twelve of the microseconds.
seconds_join :
    (s u : ℕ)
    → bit_or
        (s / 2 ^ 4 % 2 ^ 8 * 2 ^ 4)
        (bit_or (s % 2 ^ 4 * 2 ^ 4) (u / 2 ^ 8 % 2 ^ 4) / 2 ^ 4 % 2 ^ 4)
      ≡ s % 2 ^ 12
seconds_join s u = rw (bit_or_disjoint 4 (s % 2 ^ 4) (u / 2 ^ 8 % 2 ^ 4) (omega arith)) (
    bit_or_disjoint 4 (s / 2 ^ 4 % 2 ^ 8) ((s % 2 ^ 4 * 2 ^ 4 + u / 2 ^ 8 % 2 ^ 4) / 2 ^ 4 % 2 ^ 4)
      (omega arith)
    ∙ omega arith)

microseconds_join :
    (s u : ℕ)
    → bit_or (bit_or (s % 2 ^ 4 * 2 ^ 4) (u / 2 ^ 8 % 2 ^ 4) % 2 ^ 4 * 2 ^ 8) (u % 2 ^ 8)
      ≡ u % 2 ^ 12
microseconds_join s u = rw (bit_or_disjoint 4 (s % 2 ^ 4) (u / 2 ^ 8 % 2 ^ 4) (omega arith)) (
    bit_or_disjoint 8 ((s % 2 ^ 4 * 2 ^ 4 + u / 2 ^ 8 % 2 ^ 4) % 2 ^ 4) (u % 2 ^ 8) (omega arith)
    ∙ omega arith)

-- What the receiver's object `old` holds after it read a head that was written from `m`.
unfoldable pub received : MessageHead → MessageHead → MessageHead
received m old = record m {
  timevl = record { tv_sec = m.timevl.tv_sec % 2 ^ 12; tv_usec = m.timevl.tv_usec % 2 ^ 12 };
  reserved_bit = old.reserved_bit;
  reserved_byte = old.reserved_byte;
}

-- A receiver reads back every field of a head whose fields fit their widths, whatever follows it
-- in the buffer: but of the timeout it gets the seconds and the microseconds modulo 4096, and its
-- reserved fields stay as they were.
pub deserialize-serialize_message_head :
    (m old : MessageHead) (rest : List ℕ)
    → IsMessageHead m
    → deserialize_message_head (serialize_message_head m ++ rest) old ≡ done (received m old)
unfolding serialize_message_head deserialize_message_head received
deserialize-serialize_message_head m old rest fits = λ i. done (record m {
  magic = short_join m.magic fits.magic_fits i;
  head_size = short_join m.head_size fits.head_size_fits i;
  version = (let e : m.version % 2 ^ 8 ≡ m.version = omega (arith, fits.version_fits) in e) i;
  message_type =
      type_high m.message_type m.serialize_type fits.message_type_fits fits.serialize_type_fits i;
  serialize_type = type_low m.message_type m.serialize_type fits.serialize_type_fits i;
  one_way = flag_high m.one_way m.response i;
  response = flag_low m.one_way m.response i;
  reserved_bit = old.reserved_bit;
  timevl = record {
    tv_sec = seconds_join m.timevl.tv_sec m.timevl.tv_usec i;
    tv_usec = microseconds_join m.timevl.tv_sec m.timevl.tv_usec i;
  };
  status_code = short_join m.status_code fits.status_code_fits i;
  message_id = int_join m.message_id fits.message_id_fits i;
  reserved_byte = old.reserved_byte;
  body_size = int_join m.body_size fits.body_size_fits i;
})
