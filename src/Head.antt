-- ===== src/Head.antt =====
-- message/message_head.h and message/message_head.cpp: the fixed head of every message, its fields,
-- setters, initialisers and checks. Head/Codec.antt is the wire format. A `struct timeval` holds
-- two signed longs; the program fills it with numbers that are not negative.
pub mod Codec
pub mod RoundTrip
pub mod Kinds
use y_rpc.Common.{
  ℕ, ◌+◌, ◌*◌, ◌/◌, ◌%◌, ◌^◌, ◌<◌, Bool, true, false, ◌||◌, ◌&&◌, not, List, length, replicate, leb,
  ◌==◌, ◌≡◌, bit_or, if◌then◌else◌,
}

abbrev pub message_magic_num : ℕ
message_magic_num = 0xF55F

abbrev pub message_major_version : ℕ
message_major_version = 0

abbrev pub message_minor_version : ℕ
message_minor_version = 1

abbrev pub message_head_size : ℕ
message_head_size = 32

abbrev pub reserved_byte_num : ℕ
reserved_byte_num = 12

-- `enum MESSAGE_TYPE` and `enum SERIALIZE_TYPE`: the fields are bit fields of four bits that a
-- received byte fills, so they may hold numbers that are no enumerators.
abbrev pub mt_min_pk : ℕ
mt_min_pk = 0

abbrev pub mt_link_pk : ℕ
mt_link_pk = 1

abbrev pub mt_beat_pk : ℕ
mt_beat_pk = 2

abbrev pub mt_apply_pk : ℕ
mt_apply_pk = 3

abbrev pub mt_obser_pk : ℕ
mt_obser_pk = 4

abbrev pub mt_max_pk : ℕ
mt_max_pk = 5

abbrev pub st_min_bd : ℕ
st_min_bd = 0

abbrev pub st_xml_bd : ℕ
st_xml_bd = 1

abbrev pub st_bin_bd : ℕ
st_bin_bd = 2

abbrev pub st_json_bd : ℕ
st_json_bd = 3

abbrev pub st_user_bd : ℕ
st_user_bd = 4

abbrev pub st_max_bd : ℕ
st_max_bd = 5

-- `struct timeval`
pub record TimeVal : Type 0 where
  pub tv_sec : ℕ
  pub tv_usec : ℕ

-- `MessageHeadStr`
pub record MessageHead : Type 0 where
  pub magic : ℕ
  pub head_size : ℕ
  pub version : ℕ
  pub message_type : ℕ
  pub serialize_type : ℕ
  pub one_way : Bool
  pub response : Bool
  pub reserved_bit : ℕ
  pub timevl : TimeVal
  pub status_code : ℕ
  pub message_id : ℕ
  pub reserved_byte : List ℕ
  pub body_size : ℕ

-- The widths of the bit fields and integers that the setters do not cut down themselves.
pub record IsMessageHead (m : MessageHead) : Type 0 where
  pub magic_fits : m.magic < 2 ^ 16
  pub head_size_fits : m.head_size < 2 ^ 16
  pub version_fits : m.version < 2 ^ 8
  pub message_type_fits : m.message_type < 2 ^ 4
  pub serialize_type_fits : m.serialize_type < 2 ^ 4
  pub status_code_fits : m.status_code < 2 ^ 16
  pub message_id_fits : m.message_id < 2 ^ 32
  pub body_size_fits : m.body_size < 2 ^ 32

abbrev pub zero_timeval : TimeVal
zero_timeval = record { tv_sec = 0; tv_usec = 0 }

-- `init`: every field is written, so the object's former contents do not matter
unfoldable pub init : MessageHead
init = record {
  magic = message_magic_num;
  head_size = message_head_size;
  version = bit_or (message_major_version * 2 ^ 4) message_minor_version;
  message_type = mt_link_pk;
  serialize_type = st_bin_bd;
  one_way = false;
  response = false;
  reserved_bit = 0;
  timevl = zero_timeval;
  status_code = 0;
  message_id = 0;
  reserved_byte = replicate reserved_byte_num 0;
  body_size = 0;
}

unfoldable pub set_message_type : ℕ → MessageHead → MessageHead
set_message_type v m = record m { message_type = v % 2 ^ 4 }

unfoldable pub set_serialize_type : ℕ → MessageHead → MessageHead
set_serialize_type v m = record m { serialize_type = v % 2 ^ 4 }

unfoldable pub set_oneway_status : Bool → MessageHead → MessageHead
set_oneway_status v m = record m { one_way = v }

unfoldable pub set_response_status : Bool → MessageHead → MessageHead
set_response_status v m = record m { response = v }

unfoldable pub set_timeout_tv : TimeVal → MessageHead → MessageHead
set_timeout_tv v m = record m { timevl = v }

unfoldable pub set_status_code : ℕ → MessageHead → MessageHead
set_status_code v m = record m { status_code = v % 2 ^ 16 }

unfoldable pub set_message_id : ℕ → MessageHead → MessageHead
set_message_id v m = record m { message_id = v % 2 ^ 32 }

unfoldable pub set_body_size : ℕ → MessageHead → MessageHead
set_body_size v m = record m { body_size = v % 2 ^ 32 }

unfoldable pub init_link_request_msg : TimeVal → ℕ → ℕ → MessageHead → MessageHead
unfolding set_message_type set_serialize_type set_oneway_status set_response_status set_timeout_tv
    set_status_code set_message_id
init_link_request_msg tv msg_id status m =
    let m₁ = set_message_type mt_link_pk m in
    let m₂ = set_serialize_type st_bin_bd m₁ in
    let m₃ = set_oneway_status false m₂ in
    let m₄ = set_response_status false m₃ in
    let m₅ = set_timeout_tv tv m₄ in let m₆ = set_status_code status m₅ in set_message_id msg_id m₆

unfoldable pub init_link_response_msg : TimeVal → ℕ → ℕ → MessageHead → MessageHead
unfolding set_message_type set_serialize_type set_oneway_status set_response_status set_timeout_tv
    set_status_code set_message_id
init_link_response_msg tv msg_id status m =
    let m₁ = set_message_type mt_link_pk m in
    let m₂ = set_serialize_type st_bin_bd m₁ in
    let m₃ = set_oneway_status true m₂ in
    let m₄ = set_response_status true m₃ in
    let m₅ = set_timeout_tv tv m₄ in let m₆ = set_status_code status m₅ in set_message_id msg_id m₆

unfoldable pub init_beat_request_msg : TimeVal → ℕ → ℕ → MessageHead → MessageHead
unfolding set_message_type set_serialize_type set_oneway_status set_response_status set_timeout_tv
    set_status_code set_message_id
init_beat_request_msg tv msg_id status m =
    let m₁ = set_message_type mt_beat_pk m in
    let m₂ = set_serialize_type st_bin_bd m₁ in
    let m₃ = set_oneway_status false m₂ in
    let m₄ = set_response_status false m₃ in
    let m₅ = set_timeout_tv tv m₄ in let m₆ = set_status_code status m₅ in set_message_id msg_id m₆

unfoldable pub init_beat_response_msg : TimeVal → ℕ → ℕ → MessageHead → MessageHead
unfolding set_message_type set_serialize_type set_oneway_status set_response_status set_timeout_tv
    set_status_code set_message_id
init_beat_response_msg tv msg_id status m =
    let m₁ = set_message_type mt_beat_pk m in
    let m₂ = set_serialize_type st_bin_bd m₁ in
    let m₃ = set_oneway_status true m₂ in
    let m₄ = set_response_status true m₃ in
    let m₅ = set_timeout_tv tv m₄ in let m₆ = set_status_code status m₅ in set_message_id msg_id m₆

unfoldable pub init_apply_request_msg : TimeVal → ℕ → ℕ → MessageHead → MessageHead
unfolding set_message_type set_serialize_type set_oneway_status set_response_status set_timeout_tv
    set_status_code set_message_id
init_apply_request_msg tv msg_id status m =
    let m₁ = set_message_type mt_apply_pk m in
    let m₂ = set_serialize_type st_bin_bd m₁ in
    let m₃ = set_oneway_status false m₂ in
    let m₄ = set_response_status false m₃ in
    let m₅ = set_timeout_tv tv m₄ in let m₆ = set_status_code status m₅ in set_message_id msg_id m₆

unfoldable pub init_apply_response_msg : TimeVal → ℕ → ℕ → MessageHead → MessageHead
unfolding set_message_type set_serialize_type set_oneway_status set_response_status set_timeout_tv
    set_status_code set_message_id
init_apply_response_msg tv msg_id status m =
    let m₁ = set_message_type mt_apply_pk m in
    let m₂ = set_serialize_type st_bin_bd m₁ in
    let m₃ = set_oneway_status true m₂ in
    let m₄ = set_response_status true m₃ in
    let m₅ = set_timeout_tv tv m₄ in let m₆ = set_status_code status m₅ in set_message_id msg_id m₆

unfoldable pub init_observer_request_msg : TimeVal → ℕ → ℕ → MessageHead → MessageHead
unfolding set_message_type set_serialize_type set_oneway_status set_response_status set_timeout_tv
    set_status_code set_message_id
init_observer_request_msg tv msg_id status m =
    let m₁ = set_message_type mt_obser_pk m in
    let m₂ = set_serialize_type st_bin_bd m₁ in
    let m₃ = set_oneway_status false m₂ in
    let m₄ = set_response_status false m₃ in
    let m₅ = set_timeout_tv tv m₄ in let m₆ = set_status_code status m₅ in set_message_id msg_id m₆

unfoldable pub init_observer_response_msg : TimeVal → ℕ → ℕ → MessageHead → MessageHead
unfolding set_message_type set_serialize_type set_oneway_status set_response_status set_timeout_tv
    set_status_code set_message_id
init_observer_response_msg tv msg_id status m =
    let m₁ = set_message_type mt_obser_pk m in
    let m₂ = set_serialize_type st_bin_bd m₁ in
    let m₃ = set_oneway_status true m₂ in
    let m₄ = set_response_status true m₃ in
    let m₅ = set_timeout_tv tv m₄ in let m₆ = set_status_code status m₅ in set_message_id msg_id m₆

unfoldable pub init_observer_invoke_msg : TimeVal → ℕ → ℕ → MessageHead → MessageHead
unfolding set_message_type set_serialize_type set_oneway_status set_response_status set_timeout_tv
    set_status_code set_message_id
init_observer_invoke_msg tv msg_id status m =
    let m₁ = set_message_type mt_obser_pk m in
    let m₂ = set_serialize_type st_bin_bd m₁ in
    let m₃ = set_oneway_status true m₂ in
    let m₄ = set_response_status false m₃ in
    let m₅ = set_timeout_tv tv m₄ in let m₆ = set_status_code status m₅ in set_message_id msg_id m₆

unfoldable pub check_magic_num : MessageHead → Bool
check_magic_num m = if not (message_magic_num == m.magic) then false else true

unfoldable pub check_version : MessageHead → Bool
check_version m =
    if not (message_major_version == m.version / 2 ^ 4 % 2 ^ 4)
      || not (message_minor_version == m.version % 2 ^ 4)
    then false
    else true

unfoldable pub check_head_size : MessageHead → Bool
check_head_size m = if not (message_head_size == m.head_size) then false else true

unfoldable pub check_message_type : MessageHead → Bool
check_message_type m =
    if leb m.message_type mt_min_pk || leb mt_max_pk m.message_type then false else true

unfoldable pub check_serialize_type : MessageHead → Bool
check_serialize_type m =
    if leb m.serialize_type st_min_bd || leb st_max_bd m.serialize_type then false else true
