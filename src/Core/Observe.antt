-- ===== src/Core/Observe.antt =====
-- rpc_core.cpp: invokeObserver, and registerObserver and unregisterObserver by
-- registerObserverRequest. That one waits for the response in its middle, so it is two steps here:
-- up to `proxy_impl.wait`, and from the result of the wait on. What the configuration answers to
-- getProcessFromModule and getProcessNetConfig is an argument.
pub mod Owners
pub mod Fate
pub mod Sending
pub mod Reach
pub mod Register
use y_rpc.Common.{
  ℕ, zero, suc, Bool, true, false, ◌&&◌, List, [], ◌∷◌, ◌++◌, ◌==◌, Option, none, some, ℤ, pos,
  negsuc, is_zero, Run, done, ◌>>=◌, string_eq, if◌then◌else◌,
}
use y_rpc.Container.Order.{uint_key}
use y_rpc.Head.{TimeVal}
use y_rpc.Message
use y_rpc.Message.{Message, new_message, malloc_body_data, update_body_size}
use y_rpc.Hash
use y_rpc.StringHash
use y_rpc.Observer
use y_rpc.Core.{
  SendList, Core, Env, Effect, made, added_work, note, rpcsuccess, observerappendstring,
  invokeobserverfunc, registerobserverfunc, unregisterobserverfunc,
}
use y_rpc.Core.Queue.{get_frame_id, new_proxy, release_rpc_message, insert_sender_node}
use y_rpc.Core.Reply.{delete_message, release_with, handed_on}
use y_rpc.Core.Call.{CallWait, returned, awaits, call_timeout}

unfoldable pub invoke_request : {L : Type 0} → ℕ → List ℕ → Core L → Message
invoke_request frame observed st =
    Message.set_body_head st.process_name observed observed invokeobserverfunc (
      Message.init_observer_invoke_message (record { tv_sec = 0; tv_usec = 0 }) frame rpcsuccess
        new_message)

-- A new message with the data of the invocation: the result of mallocBodyData, and the message
unfoldable pub make_invocation :
    {L : Type 0} → Env → List ℕ → List ℕ → ℕ → Core L → Run ((ℤ × Message) × Core L)
unfolding invoke_request
make_invocation env observed bytes len st =
    let numbered = get_frame_id (note made st) in
    malloc_body_data env.malloc_body bytes len (invoke_request numbered.0 observed st) >>= λ filled.
    done (filled, numbered.1)

-- `m_threadpool->addWork(...)`, whose result is not looked at
unfoldable pub add_local_work : {L : Type 0} → Env → Message → Core L → Core L
add_local_work env m st = if is_zero env.add_work then note (added_work m) st else st

unfoldable pub queue_invocation :
    {L : Type 0} → SendList L → Env → (ℤ × Message) × Core L → Run (ℤ × Core L)
queue_invocation q env ((pos zero, filled), st) =
    handed_on (update_body_size filled) (insert_sender_node q env (update_body_size filled) st)
queue_invocation q env ((result, filled), st) = done (negsuc 0, delete_message filled st)

-- invokeObserver behind the first mallocBodyData: `copy` is what the surroundings answer for the
-- second message, which is made when an observer of this process takes the first one.
unfoldable pub invoke_made :
    {L : Type 0}
    → SendList L
    → Env
    → Env
    → List ℕ
    → List ℕ
    → ℕ
    → (ℤ × Message) × Core L
    → Run (ℤ × Core L)
unfolding make_invocation queue_invocation add_local_work
invoke_made q env copy observed bytes len ((pos zero, filled), st) =
    let request = update_body_size filled in
    let func_handler = StringHash.find (observed ++ observerappendstring) st.observer_func_hash in
    let st' = add_local_work env (Message.set_handler func_handler request) st in
    if func_handler == 0
    then (if Observer.empty_of observed st.observer_connect_hash
        then release_with (pos 0) request st
        else handed_on request (insert_sender_node q env request st))
    else (if Observer.empty_of observed st'.observer_connect_hash
        then done (pos 0, st')
        else make_invocation copy observed bytes len st' >>= queue_invocation q copy)
invoke_made q env copy observed bytes len ((result, filled), st) =
    done (negsuc 0, delete_message filled st)

unfoldable pub invoke_observer :
    {L : Type 0} → SendList L → Env → Env → List ℕ → List ℕ → ℕ → Core L → Run (ℤ × Core L)
unfolding invoke_made make_invocation
invoke_observer q env copy observed bytes len st =
    if st.run_state
    then (elim (Observer.find observed st.observer_connect_hash) [
      | none ↦ done (negsuc 0, st)
      | some fds ↦
          make_invocation env observed bytes len st >>= invoke_made q env copy observed bytes len
    ])
    else done (negsuc 1, st)

-- The table of the observers of this process, after a registration or its end
unfoldable pub change_observer : {L : Type 0} → List ℕ → ℕ → Bool → Core L → Core L
change_observer observed func flag st = record st {
  observer_func_hash =
      if flag
      then (StringHash.insert (observed ++ observerappendstring) func st.observer_func_hash).1
      else StringHash.remove (observed ++ observerappendstring) st.observer_func_hash;
}

unfoldable pub observer_request :
    {L : Type 0} → TimeVal → ℕ → List ℕ → List ℕ → Bool → Core L → Message
observer_request tv frame process observed flag st =
    Message.set_body_head st.process_name process observed
      (if flag then registerobserverfunc else unregisterobserverfunc)
      (Message.init_observer_request_message tv frame rpcsuccess new_message)

-- Behind insertSenderNode, with its result
unfoldable pub started_request : {L : Type 0} → ℕ → Message → ℤ × Core L → Run (CallWait × Core L)
started_request frame request (pos zero, st) = done (awaits frame, st)
started_request frame request (result, st) = do
  st' ←
      release_rpc_message (some request)
        (record st { proxy_hash = Hash.remove frame st.proxy_hash })
  done (returned result, st')

-- Behind the configuration, for a module of another process: `init` tells whether `proxy_impl.init`
-- succeeded. The body is empty, so its malloc cannot fail.
unfoldable pub send_observer_request :
    {L : Type 0}
    → SendList L
    → Env
    → TimeVal
    → Bool
    → ℕ
    → List ℕ
    → List ℕ
    → Bool
    → Core L
    → Run (CallWait × Core L)
unfolding observer_request started_request
send_observer_request q env tv init proxy process observed flag st = do
  let numbered = get_frame_id (note made (new_proxy proxy st))
  (_, filled) ←
      malloc_body_data env.malloc_body [] 0
        (observer_request tv numbered.0 process observed flag st)
  let request = update_body_size filled
  if init
      then started_request numbered.0 request (
          insert_sender_node q env request
            (record numbered.1 { proxy_hash = (Hash.insert numbered.0 proxy st.proxy_hash).1 }))
      else (release_rpc_message (some request) numbered.1 >>= λ st'.
          done (returned (negsuc 0), st'))

-- registerObserverRequest up to the wait: `found` is the process of the module, if there is one,
-- and `configured` tells whether its address was found.
unfoldable pub register_observer_begin :
    {L : Type 0}
    → SendList L
    → Env
    → TimeVal
    → Bool
    → ℕ
    → Option (List ℕ)
    → Bool
    → List ℕ
    → ℕ
    → Option TimeVal
    → Bool
    → Core L
    → Run (CallWait × Core L)
unfolding change_observer send_observer_request
register_observer_begin q env comm_tv init proxy found configured [] func tv flag st =
    done (returned (negsuc 0), st)
register_observer_begin q env comm_tv init proxy found configured (c ∷ cs) func tv flag st =
    let observed = c ∷ cs in
    if st.run_state
    then (elim found [
      | none ↦ done (returned (negsuc 0), st)
      | some process ↦
          if string_eq process st.process_name
          then done (returned (pos 0), change_observer observed func flag st)
          else (if configured
              then send_observer_request q env (call_timeout comm_tv tv) init proxy process observed
                  flag st
              else done (returned (negsuc 0), st))
    ])
    else done (returned (negsuc 1), st)

-- `(0 == result) && response`: the status of the response is not looked at.
unfoldable pub settle_observer :
    {L : Type 0} → ℤ → Option Message → List ℕ → ℕ → Bool → Core L → Core L
unfolding change_observer
settle_observer (pos zero) (some response) observed func flag st =
    change_observer observed func flag st
settle_observer result response observed func flag st = st

-- registerObserverRequest from the result of the wait on
unfoldable pub register_observer_end :
    {L : Type 0} → ℕ → ℕ → ℤ → List ℕ → ℕ → Bool → Core L → Run (ℤ × Core L)
unfolding settle_observer
register_observer_end proxy frame result observed func flag st = do
  let response = st.responses proxy
  let unregistered = record st { proxy_hash = Hash.remove frame st.proxy_hash }
  st' ←
      release_rpc_message response (settle_observer result response observed func flag unregistered)
  done (if is_zero result then pos 0 else negsuc 0, st')
