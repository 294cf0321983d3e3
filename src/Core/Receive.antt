-- ===== src/Core/Receive.antt =====
-- rpc_core.cpp: analyseReceiveData, the handler of received data, with registerObserverHandler. The
-- handlers that run in the thread pool are the program's users' and are not modelled; addWork
-- hands them the message.
pub mod Ledger
pub mod Fate
pub mod Fates
pub mod Balance
pub mod Owners
use y_rpc.Common.{
  ℕ, zero, suc, Bool, true, false, not, List, [], ◌∷◌, ◌++◌, length, ◌==◌, Option, none, some, ℤ,
  pos, negsuc, is_zero, Run, done, fault, ◌>>=◌, string_eq, if◌then◌else◌,
}
use y_rpc.Head.{MessageHead, TimeVal, mt_link_pk, mt_beat_pk, mt_apply_pk, mt_obser_pk}
use y_rpc.Body.{BodyHead}
use y_rpc.Message
use y_rpc.Message.{Message, new_message, malloc_body_data, update_body_size, analyse_message}
use y_rpc.StringHash
use y_rpc.Observer
use y_rpc.Core.{
  SendList, Core, Env, Effect, made, released, added_work, note, rpcsuccess, rpcnospecifyservice,
  rpcnoobserverobject, observerappendstring, invokeobserverfunc, registerobserverfunc,
  unregisterobserverfunc,
}
use y_rpc.Core.Queue.{release_rpc_message, insert_sender_node, wakeup_one_thread}
use y_rpc.Core.Reply.{delete_message, release_with, handed_on, response_error_code_ack}
use y_rpc.Core.Link.{response_link}

-- `m_threadpool->addWork(...)` and, if it fails, the release of the message and the result -1
unfoldable pub add_work : {Head : Type 0} → Env → Message → Core Head → Run (ℤ × Core Head)
add_work env m st =
    if is_zero env.add_work
    then done (pos 0, note (added_work m) st)
    else release_with (negsuc 0) m st

-- The success of registerObserverHandler: the table is changed and the response is queued.
unfoldable pub observer_registered :
    {Head : Type 0} → SendList Head → Env → ℕ → Message → Bool → Core Head → Run (ℤ × Core Head)
observer_registered q env fdp request flag st = do
  let key = request.body_head.module_name
  let table =
      (if flag
        then (Observer.insert_fd key fdp st.observer_connect_hash).1
        else Observer.remove_fd key fdp st.observer_connect_hash)
  let response =
      Message.set_body_head st.process_name request.body_head.sender key request.body_head.function
        (Message.init_observer_response_message request.message_head.timevl
          request.message_head.message_id rpcsuccess new_message)
  (_, filled) ← malloc_body_data env.malloc_body [] 0 response
  handed_on (update_body_size filled) (
      insert_sender_node q env (update_body_size filled)
        (record st { observer_connect_hash = table }))

-- registerObserverHandler: on an unknown object an error is answered, and the new response object
-- is neither used nor deleted.
unfoldable pub register_observer_handler :
    {Head : Type 0} → SendList Head → Env → ℕ → Message → Bool → Core Head → Run (ℤ × Core Head)
unfolding observer_registered
register_observer_handler q env fdp request flag st =
    elim (Observer.find request.body_head.module_name st.observer_connect_hash) [
      | none ↦
          response_error_code_ack q env request rpcnoobserverobject (note made st) >>= λ answered.
          done (negsuc 0, answered.1)
      | some fds ↦ observer_registered q env fdp request flag (note made st)
    ]

-- MT_LINK_PK
unfoldable pub receive_link : {Head : Type 0} → Env → ℕ → Message → Core Head → Run (ℤ × Core Head)
receive_link env fdp m st =
    if m.message_head.response
    then handed_on (Message.set_handler fdp m) (wakeup_one_thread (Message.set_handler fdp m) st)
    else response_link env fdp m st

-- MT_APPLY_PK
unfoldable pub receive_apply :
    {Head : Type 0} → SendList Head → Env → Message → Core Head → Run (ℤ × Core Head)
unfolding add_work
receive_apply q env m st =
    let func_handler = StringHash.find m.body_head.function st.service_func_hash in
    if m.message_head.response
    then handed_on m (wakeup_one_thread m st)
    else (if func_handler == 0
        then (response_error_code_ack q env m rpcnospecifyservice st >>= λ answered.
            release_with (negsuc 0) m answered.1)
        else add_work env (Message.set_handler func_handler m) st)

-- MT_OBSER_PK: an invocation of observers
unfoldable pub receive_invoke : {Head : Type 0} → Env → Message → Core Head → Run (ℤ × Core Head)
unfolding add_work
receive_invoke env m st =
    let func_handler =
      StringHash.find (m.body_head.module_name ++ observerappendstring) st.observer_func_hash in
    if func_handler == 0
    then release_with (negsuc 0) m st
    else add_work env (Message.set_handler func_handler m) st

-- MT_OBSER_PK: a request to register or to unregister, after which 0 is returned
unfoldable pub receive_register :
    {Head : Type 0} → SendList Head → Env → ℕ → Message → Bool → Core Head → Run (ℤ × Core Head)
unfolding register_observer_handler
receive_register q env fdp m flag st = do
  (_, st') ← register_observer_handler q env fdp m flag st
  release_with (pos 0) m st'

-- MT_OBSER_PK; a request with another function name is neither used nor released.
unfoldable pub receive_observer :
    {Head : Type 0} → SendList Head → Env → ℕ → Message → Core Head → Run (ℤ × Core Head)
unfolding receive_invoke receive_register
receive_observer q env fdp m st =
    if m.message_head.response
    then handed_on m (wakeup_one_thread m st)
    else (if string_eq invokeobserverfunc m.body_head.function
        then receive_invoke env m st
        else (if string_eq registerobserverfunc m.body_head.function
            then receive_register q env fdp m true st
            else (if string_eq unregisterobserverfunc m.body_head.function
                then receive_register q env fdp m false st
                else done (pos 0, st))))

-- The `switch` over the message type
unfoldable pub dispatch :
    {Head : Type 0} → SendList Head → Env → ℕ → Message → Core Head → Run (ℤ × Core Head)
unfolding receive_link receive_apply receive_observer
dispatch q env fdp m st =
    if m.message_head.message_type == mt_link_pk
    then receive_link env fdp m st
    else (if m.message_head.message_type == mt_beat_pk
        then release_with (pos 0) m st
        else (if m.message_head.message_type == mt_apply_pk
            then receive_apply q env m st
            else (if m.message_head.message_type == mt_obser_pk
                then receive_observer q env fdp m st
                else release_with (pos 0) m st)))

-- Behind the analysis of the buffer
unfoldable pub received_message :
    {Head : Type 0} → SendList Head → Env → ℕ → ℤ × Message → Core Head → Run (ℤ × Core Head)
unfolding dispatch
received_message q env fdp (pos zero, m) st = dispatch q env fdp m st
received_message q env fdp (result, m) st = done (negsuc 0, delete_message m st)

unfoldable pub analyse_receive_data :
    {Head : Type 0} → SendList Head → Env → ℕ → List ℕ → ℕ → Core Head → Run (ℤ × Core Head)
unfolding received_message
analyse_receive_data q env fdp data_ptr len st = do
  message ← analyse_message env.malloc_body data_ptr len
  received_message q env fdp message (note made st)
