-- ===== src/Core/Reply.antt =====
-- rpc_core.cpp: setResponse and responseErrorCodeACK, which answer a request.
pub mod Reach
use y_rpc.Common.{
  ℕ, zero, suc, Bool, true, false, List, [], ◌∷◌, length, Option, none, some, ℤ, pos, negsuc, Run,
  done, fault, ◌>>=◌, string_eq, if◌then◌else◌,
}
use y_rpc.Head.{MessageHead, TimeVal}
use y_rpc.Body.{BodyHead}
use y_rpc.Message
use y_rpc.Message.{Message, new_message, malloc_body_data, update_body_size}
use y_rpc.Core.{SendList, Core, Env, Effect, made, released, note, rpcsuccess}
use y_rpc.Core.Queue.{release_rpc_message, insert_sender_node, wakeup_one_thread}

-- `delete (message)`: the object goes, and the block of its body if there is one does not.
unfoldable pub delete_message : {Head : Type 0} → Message → Core Head → Core Head
delete_message m st = note (released m) st

-- A step failed: the message is released and the result is handed on.
unfoldable pub release_with : {Head : Type 0} → ℤ → Message → Core Head → Run (ℤ × Core Head)
release_with result m st = do st' ← release_rpc_message (some m) st; done (result, st')

-- `if(0 != result) { releaseRPCMessage(message); return result; } return 0;`
unfoldable pub handed_on : {Head : Type 0} → Message → ℤ × Core Head → Run (ℤ × Core Head)
unfolding release_with
handed_on m (pos zero, st) = done (pos 0, st)
handed_on m (result, st) = release_with result m st

-- The answer to a request, without its user data: initApplyResponseMessage and setBodyHead
unfoldable pub answer : {Head : Type 0} → ℕ → Message → Core Head → Message
answer status request st =
    Message.set_body_head st.process_name request.body_head.sender request.body_head.module_name
      request.body_head.function
      (Message.init_apply_response_message request.message_head.timevl
        request.message_head.message_id status new_message)

-- The end of setResponse: a caller in this process is woken up, any other one gets a message.
unfoldable pub send_response :
    {Head : Type 0} → SendList Head → Env → Message → Core Head → Run (ℤ × Core Head)
send_response q env response st =
    if string_eq st.process_name response.body_head.recver
    then handed_on response (wakeup_one_thread response st)
    else handed_on response (insert_sender_node q env response st)

-- The rest of setResponse, behind mallocBodyData
unfoldable pub filled_response :
    {Head : Type 0} → SendList Head → Env → ℤ × Message → Core Head → Run (ℤ × Core Head)
unfolding delete_message
filled_response q env (pos zero, response) st = send_response q env (update_body_size response) st
filled_response q env (result, response) st = done (negsuc 0, delete_message response st)

-- setResponse; the user data are the `length` bytes of a list, or a pointer that holds fewer
unfoldable pub set_response :
    {Head : Type 0}
    → SendList Head
    → Env
    → Option Message
    → List ℕ
    → ℕ
    → Core Head
    → Run (ℤ × Core Head)
set_response q env none bytes len st = done (negsuc 0, st)
set_response q env (some request) bytes len st =
    if st.run_state
    then (if request.message_head.one_way
        then done (negsuc 0, st)
        else (malloc_body_data env.malloc_body bytes len (answer rpcsuccess request st)
            >>= λ response. filled_response q env response (note made st)))
    else done (negsuc 1, st)

-- responseErrorCodeACK; the body is empty, so its malloc cannot fail
unfoldable pub response_error_code_ack :
    {Head : Type 0} → SendList Head → Env → Message → ℕ → Core Head → Run (ℤ × Core Head)
response_error_code_ack q env request error_code st = do
  (_, response) ← malloc_body_data env.malloc_body [] 0 (answer error_code request st)
  handed_on (update_body_size response)
      (insert_sender_node q env (update_body_size response) (note made st))
