-- ===== src/Message.antt =====
-- message/message.h and message/message.cpp: a message object, the buffer that it is sent as, and
-- the first half of analyseReceiveData (rpc_core.cpp), which makes an object of a received buffer.
-- `malloc` is an argument: the block that it returns, or none.
pub mod Wire
use y_rpc.Common.{
  ℕ, zero, suc, ◌+◌, ◌-◌, ◌%◌, ◌^◌, ◌<◌, ◌≡◌, Bool, true, false, List, [], ◌∷◌, ◌++◌, length, drop,
  take, ◌==◌, ltb, Option, none, some, ℤ, pos, negsuc, Run, done, fault, ◌>>=◌, if◌then◌else◌,
}
use y_rpc.Head
use y_rpc.Head.{TimeVal, MessageHead, message_head_size}
use y_rpc.Head.Codec.{serialize_message_head, deserialize_message_head}
use y_rpc.Body
use y_rpc.Body.{BodyHead, serialize_body_head, deserialize_body_head, read_bytes}

-- What `m_user_data` points to: nothing, a block of this contents, or a block that was freed.
-- releaseBodyData frees the block and leaves the pointer as it is.
pub data UserData : Type 0 where
  null : UserData
  block : List ℕ → UserData
  freed : UserData

-- `m_handler` is an address, 0 for NULL.
pub record Message : Type 0 where
  pub handler : ℕ
  pub user_data : UserData
  pub user_data_len : ℕ
  pub body_head : BodyHead
  pub message_head : MessageHead

-- The constructor
unfoldable pub new_message : Message
new_message = record {
  handler = 0;
  user_data = null;
  user_data_len = 0;
  body_head = Body.clear;
  message_head = Head.init;
}

unfoldable pub init_link_request_message : TimeVal → ℕ → ℕ → Message → Message
unfolding Head.init_link_request_msg
init_link_request_message tv msg_id status m = record m {
  message_head = Head.init_link_request_msg tv msg_id status m.message_head;
}

unfoldable pub init_link_response_message : TimeVal → ℕ → ℕ → Message → Message
unfolding Head.init_link_response_msg
init_link_response_message tv msg_id status m = record m {
  message_head = Head.init_link_response_msg tv msg_id status m.message_head;
}

unfoldable pub init_beat_request_message : TimeVal → ℕ → ℕ → Message → Message
unfolding Head.init_beat_request_msg
init_beat_request_message tv msg_id status m = record m {
  message_head = Head.init_beat_request_msg tv msg_id status m.message_head;
}

unfoldable pub init_beat_response_message : TimeVal → ℕ → ℕ → Message → Message
unfolding Head.init_beat_response_msg
init_beat_response_message tv msg_id status m = record m {
  message_head = Head.init_beat_response_msg tv msg_id status m.message_head;
}

unfoldable pub init_apply_request_message : TimeVal → ℕ → ℕ → Message → Message
unfolding Head.init_apply_request_msg
init_apply_request_message tv msg_id status m = record m {
  message_head = Head.init_apply_request_msg tv msg_id status m.message_head;
}

unfoldable pub init_apply_response_message : TimeVal → ℕ → ℕ → Message → Message
unfolding Head.init_apply_response_msg
init_apply_response_message tv msg_id status m = record m {
  message_head = Head.init_apply_response_msg tv msg_id status m.message_head;
}

unfoldable pub init_observer_request_message : TimeVal → ℕ → ℕ → Message → Message
unfolding Head.init_observer_request_msg
init_observer_request_message tv msg_id status m = record m {
  message_head = Head.init_observer_request_msg tv msg_id status m.message_head;
}

unfoldable pub init_observer_response_message : TimeVal → ℕ → ℕ → Message → Message
unfolding Head.init_observer_response_msg
init_observer_response_message tv msg_id status m = record m {
  message_head = Head.init_observer_response_msg tv msg_id status m.message_head;
}

unfoldable pub init_observer_invoke_message : TimeVal → ℕ → ℕ → Message → Message
unfolding Head.init_observer_invoke_msg
init_observer_invoke_message tv msg_id status m = record m {
  message_head = Head.init_observer_invoke_msg tv msg_id status m.message_head;
}

unfoldable pub get_message_head_from_data : List ℕ → Message → Run Message
get_message_head_from_data ptr m = do
  head ← deserialize_message_head ptr m.message_head
  done (record m { message_head = head })

unfoldable pub change_oneway_status : Bool → Message → Message
unfolding Head.set_oneway_status
change_oneway_status oneway m = record m {
  message_head = Head.set_oneway_status oneway m.message_head;
}

unfoldable pub change_response_status : Bool → Message → Message
unfolding Head.set_response_status
change_response_status response m = record m {
  message_head = Head.set_response_status response m.message_head;
}

unfoldable pub set_user_data : UserData → ℕ → Message → Message
set_user_data p len m = record m { user_data = p; user_data_len = len }

unfoldable pub get_body_head : List ℕ → Message → Run Message
get_body_head ptr m = do
  body ← deserialize_body_head ptr m.body_head
  done (record m { body_head = body })

unfoldable pub set_sender : List ℕ → Message → Message
unfolding Body.set_sender
set_sender name m = record m { body_head = Body.set_sender name m.body_head }

unfoldable pub set_recver : List ℕ → Message → Message
unfolding Body.set_recver
set_recver name m = record m { body_head = Body.set_recver name m.body_head }

unfoldable pub set_module : List ℕ → Message → Message
unfolding Body.set_module
set_module name m = record m { body_head = Body.set_module name m.body_head }

unfoldable pub set_function : List ℕ → Message → Message
unfolding Body.set_function
set_function name m = record m { body_head = Body.set_function name m.body_head }

unfoldable pub set_body_head : List ℕ → List ℕ → List ℕ → List ℕ → Message → Message
unfolding Body.set_sender Body.set_recver Body.set_module Body.set_function
set_body_head sender recver module_name function m = record m {
  body_head =
      Body.set_function function
        (Body.set_module module_name (Body.set_recver recver (Body.set_sender sender m.body_head)));
}

unfoldable pub set_handler : ℕ → Message → Message
set_handler handler m = record m { handler = handler }

-- mallocBodyData(user_len): the block is not initialised, `raw` is what malloc returned
unfoldable pub malloc_body_block : Option (List ℕ) → ℕ → Message → ℤ × Message
malloc_body_block raw zero m = (pos 0, m)
malloc_body_block none (suc n) m = (negsuc 0, record m { user_data = null })
malloc_body_block (some bytes) (suc n) m =
    (pos 0, record m { user_data = block bytes; user_data_len = suc n })

-- mallocBodyData(user_data, user_len), with `memcpy` from the buffer `bytes`; `granted` tells
-- whether malloc returned a block
unfoldable pub malloc_body_data : Bool → List ℕ → ℕ → Message → Run (ℤ × Message)
malloc_body_data granted bytes zero m =
    done (pos 0, record m { user_data = null; user_data_len = 0 })
malloc_body_data false bytes (suc n) m = done (negsuc 0, record m { user_data = null })
malloc_body_data true bytes (suc n) m = do
  copy ← read_bytes (suc n) bytes
  done (pos 0, record m { user_data = block copy; user_data_len = suc n })

-- releaseBodyData: a second `free` of one block is a fault
unfoldable pub release_body_data : Message → Run Message
release_body_data m = elim m.user_data [
  | null ↦ done (record m { user_data_len = 0 })
  | block bytes ↦ done (record m { user_data = freed; user_data_len = 0 })
  | freed ↦ fault
]

unfoldable pub get_body_head_size : Message → ℕ
get_body_head_size m = Body.size m.body_head

-- updateBodySize: the sum is a `size_t`, the field an `unsigned int`
unfoldable pub update_body_size : Message → Message
unfolding Head.set_body_size
update_body_size m = record m {
  message_head = Head.set_body_size (get_body_head_size m + m.user_data_len) m.message_head;
}

unfoldable pub get_message_size : Message → ℕ
get_message_size m = message_head_size + get_body_head_size m + m.user_data_len

-- `memcpy(ptr, m_user_data, m_user_data_len)` under its test
unfoldable pub copy_user_data : UserData → ℕ → Run (List ℕ)
copy_user_data p zero = done []
copy_user_data null (suc n) = fault
copy_user_data (block bytes) (suc n) = read_bytes (suc n) bytes
copy_user_data freed (suc n) = fault

-- serializeMessage: the result code, and the buffer if there is one
unfoldable pub serialize_message : Bool → Message → Run (ℤ × Option (List ℕ))
serialize_message false m = done (negsuc 0, none)
serialize_message true m = do
  user_data ← copy_user_data m.user_data m.user_data_len
  done (
    pos 0,
    some (serialize_message_head m.message_head ++ (serialize_body_head m.body_head ++ user_data)),
  )

-- `len - MESSAGE_HEAD_SIZE - getBodyHeadSize()`, of type `size_t`
abbrev pub user_len : ℕ → ℕ → ℕ
user_len len body_head_size = (len + 2 ^ 64 + 2 ^ 64 - message_head_size - body_head_size) % 2 ^ 64

-- The first half of analyseReceiveData: a new message from the `len` bytes at `data`. The pointer
-- moves by `getBodyHeadSize` of the object, not by what the parser has read.
unfoldable pub analyse_message : Bool → List ℕ → ℕ → Run (ℤ × Message)
analyse_message granted data_ptr len = do
  message₁ ← get_message_head_from_data data_ptr new_message
  let ptr₁ = drop message_head_size data_ptr
  message₂ ← get_body_head ptr₁ message₁
  let ptr₂ = drop (get_body_head_size message₂) ptr₁
  malloc_body_data granted ptr₂ (user_len len (get_body_head_size message₂)) message₂
