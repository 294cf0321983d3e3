-- ===== src/Head/Codec.antt =====
-- The wire format of the head: SerializeMessageHead and DeserializeMessageHead of
-- message/message_head.cpp. A buffer is the list of the bytes from the pointer on; a read behind
-- its end is a fault. `hi << k | lo` is `bit_or (hi * 2 ^ k) lo`, and `& 0xFF` is `% 2 ^ 8`.
use y_rpc.Common.{
  ℕ, ◌*◌, ◌/◌, ◌%◌, ◌^◌, Bool, true, false, List, [], ◌∷◌, ◌++◌, drop, replicate, ◌==◌, bit_or, Run,
  done, fault, ◌>>=◌, if◌then◌else◌,
}
use y_rpc.Head.{TimeVal, MessageHead, reserved_byte_num}

-- setUnsignedIntData
abbrev pub set_unsigned_int_data : ℕ → List ℕ
set_unsigned_int_data x =
    (x / 2 ^ 24 % 2 ^ 8) ∷ (x / 2 ^ 16 % 2 ^ 8) ∷ (x / 2 ^ 8 % 2 ^ 8) ∷ (x % 2 ^ 8) ∷ []

-- setUnsignedShortData
abbrev pub set_unsigned_short_data : ℕ → List ℕ
set_unsigned_short_data x = (x / 2 ^ 8 % 2 ^ 8) ∷ (x % 2 ^ 8) ∷ []

abbrev pub bit : Bool → ℕ
bit true = 1
bit false = 0

-- setMSGSERIALTYPETOSTR
abbrev pub set_msg_serial_type : MessageHead → List ℕ
set_msg_serial_type m = bit_or (m.message_type * 2 ^ 4) m.serialize_type ∷ []

-- setMSGFLAGTOSTR; the mask is applied to the value of the assignment, not to the byte
abbrev pub set_msg_flag : MessageHead → List ℕ
set_msg_flag m = bit_or (bit m.one_way * 2 ^ 7) (bit m.response * 2 ^ 6) ∷ []

-- setTIMEOUTTOSTR: `x << 4 & 0xF0` is `x % 2 ^ 4 * 2 ^ 4`
abbrev pub set_timeout : TimeVal → List ℕ
set_timeout t =
    (t.tv_sec / 2 ^ 4 % 2 ^ 8)
    ∷ bit_or (t.tv_sec % 2 ^ 4 * 2 ^ 4) (t.tv_usec / 2 ^ 8 % 2 ^ 4)
    ∷ (t.tv_usec % 2 ^ 8)
    ∷ []

-- The bytes that SerializeMessageHead writes, in the order of the writes.
unfoldable pub serialize_message_head : MessageHead → List ℕ
serialize_message_head m =
    set_unsigned_short_data m.magic
    ++ (set_unsigned_short_data m.head_size
        ++ ((m.version ∷ [])
            ++ (set_msg_serial_type m
                ++ (set_msg_flag m
                    ++ (set_timeout m.timevl
                        ++ (set_unsigned_short_data m.status_code
                            ++ (set_unsigned_int_data m.message_id
                                ++ (replicate reserved_byte_num 0
                                    ++ set_unsigned_int_data m.body_size))))))))

-- getUnsignedIntData
abbrev pub get_unsigned_int_data : List ℕ → Run ℕ
get_unsigned_int_data (a ∷ b ∷ c ∷ d ∷ rest) =
    done (bit_or (a * 2 ^ 24) (bit_or (b * 2 ^ 16) (bit_or (c * 2 ^ 8) d)))
get_unsigned_int_data short = fault

-- getUnsignedShortData
abbrev pub get_unsigned_short_data : List ℕ → Run ℕ
get_unsigned_short_data (a ∷ b ∷ rest) = done (bit_or (a * 2 ^ 8) b)
get_unsigned_short_data short = fault

-- `ptr[0]`
abbrev pub get_byte : List ℕ → Run ℕ
get_byte [] = fault
get_byte (a ∷ rest) = done a

-- getTIMESPECFROMSTR: `(x & 0xF0) >> 4` is `x / 2 ^ 4 % 2 ^ 4`, and `x & 0xF` is `x % 2 ^ 4`
abbrev pub get_timespec : List ℕ → Run TimeVal
get_timespec (a ∷ b ∷ c ∷ rest) = done (record {
  tv_sec = bit_or (a * 2 ^ 4) (b / 2 ^ 4 % 2 ^ 4);
  tv_usec = bit_or (b % 2 ^ 4 * 2 ^ 8) c;
})
get_timespec short = fault

-- DeserializeMessageHead into the object `m`; `x & 0x80` is the bit `x / 2 ^ 7 % 2`
unfoldable pub deserialize_message_head : List ℕ → MessageHead → Run MessageHead
deserialize_message_head ptr m = do
  magic ← get_unsigned_short_data ptr
  let ptr₁ = drop 2 ptr
  head_size ← get_unsigned_short_data ptr₁
  let ptr₂ = drop 2 ptr₁
  version ← get_byte ptr₂
  let ptr₃ = drop 1 ptr₂
  types ← get_byte ptr₃
  let ptr₄ = drop 1 ptr₃
  flags ← get_byte ptr₄
  let ptr₅ = drop 1 ptr₄
  timevl ← get_timespec ptr₅
  let ptr₆ = drop 3 ptr₅
  status_code ← get_unsigned_short_data ptr₆
  let ptr₇ = drop 2 ptr₆
  message_id ← get_unsigned_int_data ptr₇
  let ptr₈ = drop 4 ptr₇
  let ptr₉ = drop reserved_byte_num ptr₈
  body_size ← get_unsigned_int_data ptr₉
  done (record m {
    magic = magic;
    head_size = head_size;
    version = version % 2 ^ 8;
    message_type = types / 2 ^ 4 % 2 ^ 4;
    serialize_type = types % 2 ^ 4;
    one_way = if flags / 2 ^ 7 % 2 == 0 then false else true;
    response = if flags / 2 ^ 6 % 2 == 0 then false else true;
    timevl = timevl;
    status_code = status_code;
    message_id = message_id;
    body_size = body_size;
  })
