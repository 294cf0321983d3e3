-- ===== src/Core/Call.antt =====
-- rpc_core.cpp: proxyCall. It waits for the response in its middle, so it is two steps here: up to
-- `proxy_impl.wait`, and from the result of the wait on. Other steps may come between them. The
-- configuration comes in as what getProcessFromModule and getProcessNetConfig found: the name of
-- the process that has the module and is configured, or none.
pub mod Begin
pub mod Outcome
pub mod RoundTrip
use y_rpc.Common.{
  ℕ, zero, suc, ◌%◌, ◌<◌, ◌≡◌, Bool, true, false, not, ◌&&◌, List, [], ◌∷◌, length, ltb, ◌==◌,
  Option, none, some, ℤ, pos, negsuc, is_zero, Run, done, fault, ◌>>=◌, string_eq, if◌then◌else◌,
}
use y_rpc.Container.Order.{uint_key}
use y_rpc.Head.{TimeVal}
use y_rpc.Body.{read_bytes}
use y_rpc.Message
use y_rpc.Message.{
  Message, UserData, null, block, freed, new_message, malloc_body_data, update_body_size,
  change_oneway_status,
}
use y_rpc.Hash
use y_rpc.StringHash
use y_rpc.Core.{SendList, Core, Env, Effect, made, added_work, note, rpcsuccess}
use y_rpc.Core.Queue.{get_frame_id, new_proxy, release_rpc_message, insert_sender_node}

-- Where proxyCall stands after its first step: it returned, or it waits with this frame ID.
pub data CallWait : Type 0 where
  returned : ℤ → CallWait
  awaits : ℕ → CallWait

-- The user's timeout, or the default for none or zero
unfoldable pub call_timeout : TimeVal → Option TimeVal → TimeVal
call_timeout comm_tv none = comm_tv
call_timeout comm_tv (some tv) = if tv.tv_sec == 0 && tv.tv_usec == 0 then comm_tv else tv

unfoldable pub call_request :
    {Head : Type 0} → TimeVal → ℕ → List ℕ → List ℕ → List ℕ → Core Head → Message
call_request tv frame recver module_name func st =
    Message.set_body_head st.process_name recver module_name func
      (Message.init_apply_request_message tv frame rpcsuccess new_message)

-- The request goes to the thread pool in this process, or to the send list.
unfoldable pub start_call :
    {Head : Type 0} → SendList Head → Env → List ℕ → List ℕ → Message → Core Head → ℤ × Core Head
start_call q env recver func request st =
    let func_handler = StringHash.find func st.service_func_hash in
    if string_eq recver st.process_name
    then (if func_handler == 0
        then (negsuc 0, st)
        else (if is_zero env.add_work
            then (pos 0, note (added_work (Message.set_handler func_handler request)) st)
            else (negsuc 0, st)))
    else insert_sender_node q env request st

-- Behind the start: a failure releases the request, a one-way call returns 0.
unfoldable pub started_call :
    {Head : Type 0} → ℕ → Bool → Message → ℤ × Core Head → Run (CallWait × Core Head)
started_call frame wants request (pos zero, st) =
    if wants
    then done (awaits frame, st)
    else done (returned (pos 0), record st { proxy_hash = Hash.remove frame st.proxy_hash })
started_call frame wants request (result, st) = do
  st' ←
      release_rpc_message (some request)
        (record st { proxy_hash = Hash.remove frame st.proxy_hash })
  done (returned result, st')

-- Behind mallocBodyData; `init` tells whether `proxy_impl.init` succeeded
unfoldable pub prepared_call :
    {Head : Type 0}
    → SendList Head
    → Env
    → Bool
    → ℕ
    → ℕ
    → List ℕ
    → List ℕ
    → Bool
    → ℤ × Message
    → Core Head
    → Run (CallWait × Core Head)
unfolding start_call started_call
prepared_call q env true proxy frame recver func wants (pos zero, filled) st = do
  let request =
      (if wants
        then update_body_size filled
        else change_oneway_status true (update_body_size filled))
  started_call frame wants request (
      start_call q env recver func request
        (record st { proxy_hash = (Hash.insert frame proxy st.proxy_hash).1 }))
prepared_call q env init proxy frame recver func wants (result, filled) st = do
  st' ← release_rpc_message (some filled) st
  done (returned (negsuc 0), st')

-- proxyCall up to the wait; `wants` tells whether the caller gave a buffer for the response
unfoldable pub proxy_call_begin :
    {Head : Type 0}
    → SendList Head
    → Env
    → TimeVal
    → Bool
    → ℕ
    → Option (List ℕ)
    → List ℕ
    → List ℕ
    → List ℕ
    → ℕ
    → Bool
    → Option TimeVal
    → Core Head
    → Run (CallWait × Core Head)
unfolding call_request prepared_call
proxy_call_begin q env comm_tv init proxy none module_name func send slen wants tv st =
    if st.run_state then done (returned (negsuc 0), st) else done (returned (negsuc 1), st)
proxy_call_begin q env comm_tv init proxy (some recver) module_name func send slen wants tv st =
    let numbered = get_frame_id (note made (new_proxy proxy st)) in
    if st.run_state
    then (malloc_body_data env.malloc_body send slen
          (call_request (call_timeout comm_tv tv) numbered.0 recver module_name func st)
        >>= λ filled. prepared_call q env init proxy numbered.0 recver func wants filled numbered.1)
    else done (returned (negsuc 1), st)

-- What is copied to the caller's buffer of `capacity` bytes, if anything is, and `*rlen`
-- afterwards, which was `capacity`. Either `recv` is not NULL or the capacity is 0.
unfoldable pub copy_response : UserData → ℕ → ℕ → Run (Option (List ℕ) × ℕ)
copy_response null len capacity = done (none, capacity)
copy_response freed len capacity = if len == 0 then done (none, capacity) else fault
copy_response (block bytes) len capacity =
    let recv_len = (if ltb capacity len then capacity else len) in
    if len == 0
    then done (none, capacity)
    else (read_bytes recv_len bytes >>= λ copy. done (some copy, recv_len))

-- The `switch` over the status code of a response: the result, the copied data and `*rlen`
unfoldable pub call_result : ℤ → Option Message → ℕ → Run (ℤ × (Option (List ℕ) × ℕ))
call_result (pos zero) (some response) capacity =
    if response.message_head.status_code == rpcsuccess
    then (if capacity == 0
        then done (pos 0, (none, capacity))
        else (copy_response response.user_data response.user_data_len capacity >>= λ copy.
            done (pos 0, copy)))
    else done (negsuc 0, (none, capacity))
call_result result response capacity = done (result, (none, capacity))

-- proxyCall from the result of the wait on
unfoldable pub proxy_call_end :
    {Head : Type 0} → ℕ → ℕ → ℤ → ℕ → Core Head → Run ((ℤ × (Option (List ℕ) × ℕ)) × Core Head)
unfolding call_result
proxy_call_end proxy frame result capacity st = do
  let response = st.responses proxy
  outcome ← call_result result response capacity
  st' ← release_rpc_message response (record st { proxy_hash = Hash.remove frame st.proxy_hash })
  done (outcome, st')
