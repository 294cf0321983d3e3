-- ===== src/Core/Queue.antt =====
-- rpc_core.cpp: getFrameID, insertSenderNode, wakeupOneThread, releaseRPCMessage, and the way that
-- RPCCoreThread takes a message off the send list. Each holds its mutex over its accesses.
pub mod Laws
use y_rpc.Common.{
  ℕ, ◌+◌, ◌%◌, ◌^◌, Bool, true, false, List, [], ◌∷◌, ◌==◌, Option, none, some, ℤ, pos, negsuc, Run,
  done, fault, ◌>>=◌, if◌then◌else◌,
}
use y_rpc.Container.Order.{uint_key}
use y_rpc.Head.{MessageHead}
use y_rpc.Message.{Message, release_body_data}
use y_rpc.Hash
use y_rpc.Core.{SendList, Core, Env, Effect, released, delivered, queued, note}

-- The old value of `m_frame_id`, an `unsigned int`
unfoldable pub get_frame_id : {Head : Type 0} → Core Head → ℕ × Core Head
get_frame_id st = (st.frame_id, record st { frame_id = (st.frame_id + 1) % 2 ^ 32 })

-- NULL is none.
unfoldable pub release_rpc_message : {Head : Type 0} → Option Message → Core Head → Run (Core Head)
release_rpc_message none st = done st
release_rpc_message (some m) st = do _ ← release_body_data m; done (note (released m) st)

unfoldable pub insert_sender_node :
    {Head : Type 0} → SendList Head → Env → Message → Core Head → ℤ × Core Head
insert_sender_node q env m st =
    if env.malloc_node
    then (pos 0, note (queued m) (record st { send_head = q.list_insert_head m st.send_head }))
    else (negsuc 0, st)

-- The head of the loop in RPCCoreThread: the message that is to be sent next, if there is one
unfoldable pub take_sender_node :
    {Head : Type 0} → SendList Head → Core Head → Option Message × Core Head
take_sender_node q st = elim (q.list_first st.send_head) [
  | none ↦ (none, st)
  | some m ↦ (some m, record st { send_head = q.list_remove_first st.send_head })
]

abbrev pub set_response_of : ℕ → Message → (ℕ → Option Message) → ℕ → Option Message
set_response_of p m responses a = if a == p then some m else responses a

-- The constructor RPCProxy() of a local `proxy_impl`: no response yet
unfoldable pub new_proxy : {Head : Type 0} → ℕ → Core Head → Core Head
new_proxy p st = record st { responses = λ a. if a == p then none else st.responses a }

-- The proxy of the request with the response's ID gets the response.
unfoldable pub wakeup_one_thread : {Head : Type 0} → Message → Core Head → ℤ × Core Head
wakeup_one_thread m st =
    let proxy_impl = Hash.find m.message_head.message_id st.proxy_hash in
    if proxy_impl == 0 then (negsuc 0, st) else (
      pos 0,
      note (delivered proxy_impl m)
          (record st { responses = set_response_of proxy_impl m st.responses }),
    )
