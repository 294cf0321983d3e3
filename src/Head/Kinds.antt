-- ===== src/Head/Kinds.antt =====
-- The nine initialisers of message/message_head.cpp against one table, and what a receiver sees of
-- a head that one of them made.
use y_rpc.Common.{ℕ, ◌^◌, ◌<◌, ◌≡◌, Bool, true, false, List, ◌++◌, done, arith}
use y_rpc.Head
use y_rpc.Head.{
  TimeVal, MessageHead, IsMessageHead, init, set_body_size, mt_link_pk, mt_beat_pk, mt_apply_pk,
  mt_obser_pk, st_bin_bd, check_magic_num, check_version, check_head_size, check_message_type,
  check_serialize_type,
}
use y_rpc.Head.Codec.{serialize_message_head, deserialize_message_head}
use y_rpc.Head.RoundTrip.{received, deserialize-serialize_message_head}

-- The kinds of message that the program sends.
pub data Kind : Type 0 where
  link_request link_response beat_request beat_response apply_request apply_response : Kind
  observer_request observer_response observer_invoke : Kind

-- The initialiser of each kind.
unfoldable pub init_msg : Kind → TimeVal → ℕ → ℕ → MessageHead → MessageHead
init_msg link_request = Head.init_link_request_msg
init_msg link_response = Head.init_link_response_msg
init_msg beat_request = Head.init_beat_request_msg
init_msg beat_response = Head.init_beat_response_msg
init_msg apply_request = Head.init_apply_request_msg
init_msg apply_response = Head.init_apply_response_msg
init_msg observer_request = Head.init_observer_request_msg
init_msg observer_response = Head.init_observer_response_msg
init_msg observer_invoke = Head.init_observer_invoke_msg

abbrev pub type_of : Kind → ℕ
type_of link_request = mt_link_pk
type_of link_response = mt_link_pk
type_of beat_request = mt_beat_pk
type_of beat_response = mt_beat_pk
type_of apply_request = mt_apply_pk
type_of apply_response = mt_apply_pk
type_of observer_request = mt_obser_pk
type_of observer_response = mt_obser_pk
type_of observer_invoke = mt_obser_pk

abbrev pub is_response : Kind → Bool
is_response link_response = true
is_response beat_response = true
is_response apply_response = true
is_response observer_response = true
is_response request = false

-- No answer is expected to a response or to an invocation of observers.
abbrev pub is_one_way : Kind → Bool
is_one_way observer_invoke = true
is_one_way kind = is_response kind

-- A head that says what the kind of the message asks for, and that passes the five checks.
pub record Announces (k : Kind) (id status : ℕ) (m : MessageHead) : Type 0 where
  pub typed : m.message_type ≡ type_of k
  pub responds : m.response ≡ is_response k
  pub one_way : m.one_way ≡ is_one_way k
  pub identified : m.message_id ≡ id
  pub coded : m.status_code ≡ status
  pub magic_checked : check_magic_num m ≡ true
  pub version_checked : check_version m ≡ true
  pub size_checked : check_head_size m ≡ true
  pub type_checked : check_message_type m ≡ true
  pub serialize_checked : check_serialize_type m ≡ true

-- The head as a sender fills it: constructor, initialiser, size of the body.
pub sent_head : Kind → TimeVal → ℕ → ℕ → ℕ → MessageHead
sent_head k tv id status n = set_body_size n (init_msg k tv id status init)

sent_head-IsMessageHead :
    (k : Kind) (tv : TimeVal) (id status n : ℕ) → IsMessageHead (sent_head k tv id status n)
unfolding sent_head init_msg init set_body_size Head.init_link_request_msg
    Head.init_link_response_msg Head.init_beat_request_msg Head.init_beat_response_msg
    Head.init_apply_request_msg Head.init_apply_response_msg Head.init_observer_request_msg
    Head.init_observer_response_msg Head.init_observer_invoke_msg
sent_head-IsMessageHead link_request tv id status n = omega arith
sent_head-IsMessageHead kind tv id status n = omega arith

module _ (tv : TimeVal) (id status n : ℕ) (id_fits : id < 2 ^ 32)
    (status_fits : status < 2 ^ 16) where
  sent_head-Announces : (k : Kind) → Announces k id status (sent_head k tv id status n)
  unfolding sent_head init_msg init set_body_size Head.init_link_request_msg
      Head.init_link_response_msg Head.init_beat_request_msg Head.init_beat_response_msg
      Head.init_apply_request_msg Head.init_apply_response_msg Head.init_observer_request_msg
      Head.init_observer_response_msg Head.init_observer_invoke_msg check_magic_num check_version
      check_head_size check_message_type check_serialize_type
  sent_head-Announces link_request = ground arith
  sent_head-Announces kind = ground arith

received-Announces :
    (k : Kind) (id status : ℕ) (m old : MessageHead)
    → Announces k id status m
    → Announces k id status (received m old)
unfolding received check_magic_num check_version check_head_size check_message_type
    check_serialize_type
received-Announces k id status m old a = ground arith

-- Whatever kind of message is sent, with an ID, a status code and a body size that fit their
-- fields, the receiver reads a head that names this kind, the ID and the code, passes all five
-- checks and has the size of the body.
pub receive-sent_head :
    (k : Kind) (tv : TimeVal) (id status n : ℕ) (old : MessageHead) (rest : List ℕ)
    → id < 2 ^ 32
    → status < 2 ^ 16
    → n < 2 ^ 32
    → (m : MessageHead) × (deserialize_message_head
          (serialize_message_head (sent_head k tv id status n) ++ rest)
          old
        ≡ done m)
      × Announces k id status m
      × (m.body_size ≡ n)
receive-sent_head k tv id status n old rest id_fits status_fits n_fits =
    let m = sent_head k tv id status n in
    (
      received m old,
      deserialize-serialize_message_head m old rest (sent_head-IsMessageHead k tv id status n),
      received-Announces k id status m old
          (sent_head-Announces tv id status n id_fits status_fits k),
      unfold received sent_head set_body_size in omega arith,
    )
