-- ===== src/Core/Sender.antt =====
-- rpc_core.cpp: RPCCoreThread, the thread that sends the messages of the send list, as a machine
-- that other steps come between: it takes a message, looks for a connection to its receiver, and
-- waits inside requestLink for the answer. What connect and the wait answer are arguments.
pub mod Retries
pub mod Relink
pub mod Machine
use y_rpc.Common.{
  ℕ, zero, suc, ◌==◌, Bool, true, false, ◌&&◌, ◌||◌, List, [], ◌∷◌, Option, none, some, ℤ, pos,
  negsuc, is_zero, is_negative, Run, done, ◌>>=◌, string_eq, if◌then◌else◌,
}
use y_rpc.Head.{TimeVal, mt_obser_pk}
use y_rpc.Message.{Message, serialize_message}
use y_rpc.StringHash
use y_rpc.Observer
use y_rpc.Core.{SendList, Core, Effect, sent, closed, note, invokeobserverfunc}
use y_rpc.Core.Queue.{release_rpc_message, take_sender_node}
use y_rpc.Core.Link.{LinkWait, ended, waits, request_link_begin, request_link_end}
use y_rpc.Core.Events.{disconnected}

abbrev pub connectretrydefault : ℕ
connectretrydefault = 3

-- Where the thread stands: at the send list, at REPEAT_CONNECT with a message and connect_count, in
-- the wait of requestLink (with its connection, its RPCProxy, frame ID and request), or at its end.
pub data SenderPhase : Type 0 where
  idle : SenderPhase
  connecting : Message → ℕ → SenderPhase
  linking : Message → ℕ → ℕ → ℕ → ℕ → Message → SenderPhase
  exited : SenderPhase

-- FREE_MEMORY
unfoldable pub free_memory : {L : Type 0} → Message → Core L → Run (SenderPhase × Core L)
free_memory m st = do st' ← release_rpc_message (some m) st; done (idle, st')

abbrev pub bytes_or_none : Option (List ℕ) → List ℕ
bytes_or_none none = []
bytes_or_none (some bytes) = bytes

-- The loop that sends to all observers
unfoldable pub send_to_observers : {L : Type 0} → List ℕ → List ℕ → Core L → Core L
send_to_observers [] send_data st = st
send_to_observers (fd ∷ fds) send_data st =
    send_to_observers fds send_data (note (sent fd send_data) st)

-- An invocation of observers; its serialisation is tried until malloc succeeds.
unfoldable pub send_invocation : {L : Type 0} → Message → Core L → Run (SenderPhase × Core L)
unfolding send_to_observers free_memory
send_invocation m st = elim (Observer.find m.body_head.recver st.observer_connect_hash) [
  | none ↦ free_memory m st
  | some fds ↦
      if Observer.is_empty fds
      then free_memory m st
      else (serialize_message true m >>= λ written.
          free_memory m (send_to_observers fds (bytes_or_none written.1) st))
]

abbrev pub is_invocation : Message → Bool
is_invocation m =
    mt_obser_pk == m.message_head.message_type && string_eq invokeobserverfunc m.body_head.function

-- What was taken off the list, if something was
unfoldable pub send_taken : {L : Type 0} → Option Message × Core L → Run (SenderPhase × Core L)
unfolding send_invocation
send_taken (none, st) = done (idle, st)
send_taken (some m, st) =
    if is_invocation m then send_invocation m st else done (connecting m 0, st)

-- The head of the loop, up to REPEAT_CONNECT. On an empty list the thread waits.
unfoldable pub sender_take : {L : Type 0} → SendList L → Core L → Run (SenderPhase × Core L)
unfolding send_taken
sender_take q st = if st.run_state then send_taken (take_sender_node q st) else done (exited, st)

-- REPEAT_SEND
unfoldable pub send_message : {L : Type 0} → Message → ℕ → Core L → Run (SenderPhase × Core L)
unfolding free_memory
send_message m fd st = do
  (_, send_data) ← serialize_message true m
  free_memory m (note (sent fd (bytes_or_none send_data)) st)

-- `(1 == result) || (result < 0)`
abbrev pub must_repeat : ℤ → Bool
must_repeat (pos (suc zero)) = true
must_repeat (pos n) = false
must_repeat (negsuc n) = true

-- Behind requestLink. `disconnect` calls commEventHandler with a len of 1.
unfoldable pub linked : {L : Type 0} → Message → ℕ → ℕ → ℤ × Core L → Run (SenderPhase × Core L)
unfolding send_message
linked m connect_count fd (result, st) =
    if must_repeat result
    then done (connecting m connect_count, note (closed fd) (disconnected fd 1 st))
    else send_message m fd st

-- Behind the first half of requestLink
unfoldable pub link_begun :
    {L : Type 0} → Message → ℕ → ℕ → ℕ → LinkWait × Core L → Run (SenderPhase × Core L)
unfolding linked
link_begun m connect_count fd proxy (ended result, st) = linked m connect_count fd (result, st)
link_begun m connect_count fd proxy (waits frame request, st) =
    done (linking m connect_count fd proxy frame request, st)

-- From REPEAT_CONNECT: `attempt` is what connectToProcess answers, its result and the connection,
-- `init` and `proxy` belong to the RPCProxy of requestLink.
unfoldable pub sender_connect :
    {L : Type 0} → TimeVal → ℤ × ℕ → Bool → ℕ → Message → ℕ → Core L → Run (SenderPhase × Core L)
unfolding send_message free_memory link_begun
sender_connect comm_tv attempt init proxy m connect_count st =
    let connect_fd = StringHash.find m.body_head.recver st.process_connect_hash in
    if connect_fd == 0
    then (if connectretrydefault == connect_count
        then free_memory m st
        else (if is_zero attempt.0
            then (request_link_begin comm_tv init proxy attempt.1 m.body_head.recver st
                >>= link_begun m connect_count attempt.1 proxy)
            else done (connecting m (suc connect_count), st)))
    else send_message m connect_fd st

-- The end of the wait in requestLink
unfoldable pub sender_linked :
    {L : Type 0} → Message → ℕ → ℕ → ℕ → ℕ → Message → ℤ → Core L → Run (SenderPhase × Core L)
unfolding linked
sender_linked m connect_count fd proxy frame request result st =
    request_link_end proxy fd m.body_head.recver frame request result st
    >>= linked m connect_count fd
