-- ===== src/Examples/Wire.antt =====
-- A call from the process "pa" to the process "pb" on the wire.
use y_rpc.Common.{
  ℕ, ◌-◌, ◌%◌, ◌^◌, ◌≡◌, ◌≢◌, refl, true, false, List, [], ◌∷◌, ◌++◌, length, some, pos, done,
  out_of_fuel, bytes_of, arith,
}
use y_rpc.Head
use y_rpc.Head.{TimeVal, MessageHead, IsMessageHead}
use y_rpc.Head.Codec.{serialize_message_head, deserialize_message_head}
use y_rpc.Head.RoundTrip.{received, deserialize-serialize_message_head}
use y_rpc.Head.Kinds.{Announces, sent_head, apply_request, receive-sent_head}
use y_rpc.Body
use y_rpc.Body.{BodyHead, serialize_body_head, deserialize_body_head}
use y_rpc.Body.Parse.{deserialize_body_head_ends}
use y_rpc.Body.RoundTrip.{IsBodyHead, appended, deserialize-serialize_body_head}
use y_rpc.Message.{
  Message, block, get_message_size, update_body_size, serialize_message, analyse_message,
}
use y_rpc.Message.Wire.{
  IsMessage, wire, length-wire, analysed, analyse-serialize, serialize-update_body_size,
}

-- The default timeout of the configuration, 5 s and 100 ms
abbrev default_tv : TimeVal
default_tv = record { tv_sec = 5; tv_usec = 100000 }

abbrev call_head : MessageHead
call_head = record {
  magic = 0xF55F;
  head_size = 32;
  version = 1;
  message_type = 3;
  serialize_type = 1;
  one_way = false;
  response = false;
  reserved_bit = 0;
  timevl = default_tv;
  status_code = 0;
  message_id = 7;
  reserved_byte = [];
  body_size = 31;
}

abbrev call_body : BodyHead
call_body = record {
  sender = bytes_of "pa";
  recver = bytes_of "pb";
  module_name = bytes_of "m";
  function = bytes_of "add";
}

abbrev pub user_bytes : List ℕ
user_bytes = 1 ∷ 2 ∷ 3 ∷ []

abbrev pub call_message : Message
call_message = record {
  handler = 0;
  user_data = block user_bytes;
  user_data_len = 3;
  body_head = call_body;
  message_head = call_head;
}

call_head-IsMessageHead : IsMessageHead call_head
call_head-IsMessageHead = omega arith

call_body-IsBodyHead : IsBodyHead call_body
call_body-IsBodyHead = omega arith

pub call_message-IsMessage : IsMessage call_message user_bytes
call_message-IsMessage = record {
  head_fits = call_head-IsMessageHead;
  names_fit = call_body-IsBodyHead;
  held = refl;
  measured = refl;
}

-- 100 ms become 1696 microseconds.
lost_timeout : (received call_head Head.init).timevl ≡ record { tv_sec = 5; tv_usec = 1696 }
unfolding received
lost_timeout = refl

deserialize-serialize_message_head_example :
    deserialize_message_head (serialize_message_head call_head ++ user_bytes) Head.init
    ≡ done (received call_head Head.init)
deserialize-serialize_message_head_example =
    deserialize-serialize_message_head call_head Head.init user_bytes call_head-IsMessageHead

receive-sent_head_example :
    (m : MessageHead) × (deserialize_message_head
        (serialize_message_head (sent_head apply_request default_tv 7 0 31) ++ user_bytes)
        Head.init
      ≡ done m)
    × Announces apply_request 7 0 m
    × (m.body_size ≡ 31)
receive-sent_head_example =
    receive-sent_head apply_request default_tv 7 0 31 Head.init user_bytes (omega arith)
      (omega arith) (omega arith)

deserialize_body_head_ends_example :
    deserialize_body_head (0x59 ∷ 0x5a ∷ 0x53 ∷ 0x44 ∷ 9 ∷ []) Body.clear ≢ out_of_fuel
deserialize_body_head_ends_example =
    deserialize_body_head_ends (0x59 ∷ 0x5a ∷ 0x53 ∷ 0x44 ∷ 9 ∷ []) Body.clear

deserialize-serialize_body_head_example :
    deserialize_body_head (serialize_body_head call_body ++ user_bytes) call_body
    ≡ done (appended call_body call_body)
deserialize-serialize_body_head_example =
    deserialize-serialize_body_head call_body call_body user_bytes call_body-IsBodyHead

pub length-wire_call : length (wire call_message (user_bytes ++ user_bytes)) ≡ 62
unfolding Body.size
length-wire_call = length-wire call_message (user_bytes ++ user_bytes)

analyse-serialize_example :
    (buffer : List ℕ) × (serialize_message true call_message ≡ done (pos 0, some buffer))
    × (analyse_message true (buffer ++ user_bytes) (length (buffer ++ user_bytes))
        ≡ done (pos 0, analysed call_message (user_bytes ++ user_bytes)))
analyse-serialize_example =
    analyse-serialize call_message user_bytes user_bytes call_message-IsMessage
      (omega (arith, length-wire_call))

serialize-update_body_size_example :
    (buffer : List ℕ) × (serialize_message true (update_body_size call_message)
      ≡ done (pos 0, some buffer))
    × (length buffer ≡ get_message_size call_message)
    × ((update_body_size call_message).message_head.body_size ≡ (length buffer - 32) % 2 ^ 32)
serialize-update_body_size_example =
    serialize-update_body_size call_message user_bytes call_message-IsMessage
