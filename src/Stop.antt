-- ===== src/Stop.antt =====
-- rpc_core.cpp: runUntilAskedToQuit, as a step before and a step after its wait for m_run_state,
-- and signalHandler. The threads that it joins have ended by then; `exit` is the end of the second
-- step.
pub mod Laws
pub mod Refine
use y_rpc.Common.{
  ℕ, zero, suc, ◌+◌, ◌==◌, Bool, true, false, List, ◌∷◌, ltb, Option, none, some, ℤ, pos, negsuc,
  Run, done, out_of_fuel, ◌>>=◌, if◌then◌else◌,
}
use y_rpc.PointerList
use y_rpc.Core.{SendList, Core, Env}
use y_rpc.Core.Queue.{release_rpc_message}
use y_rpc.Driver.{Driver, disconnect}
use y_rpc.Driver.Lifetime.{destroy}
use y_rpc.Driver.Peer.{core_callback}
use y_rpc.Start.{Process, PoolCall, pool_destroy, with_core}

-- The signals that signalHandler tells apart
pub data Signal : Type 0 where
  sigint sigterm sigalrm sigsegv other_signal : Signal

-- None stands for `exit(-1)`.
unfoldable pub signal_handler : {L : Type 0} → Signal → Core L → Option (Core L)
signal_handler sigint st = some (record st { run_state = false })
signal_handler sigterm st = some (record st { run_state = false })
signal_handler sigalrm st = some st
signal_handler sigsegv st = none
signal_handler other_signal st = some st

-- Where runUntilAskedToQuit stands: it returned, or it waits for `m_run_state` to become false.
pub data QuitWait : Type 0 where
  quit_returned : ℤ → QuitWait
  quit_waits : QuitWait

-- Up to its wait: `monitor` is `m_monitor_state`.
unfoldable pub run_until_begin : {L : Type 0} → Bool → Bool → Core L → QuitWait × Bool × Core L
run_until_begin state monitor st =
    if monitor
    then (quit_returned (pos 0), monitor, st)
    else (if st.run_state
        then (quit_waits, state, record st { run_state = state })
        else (quit_returned (negsuc 1), monitor, st))

-- "release all message": a round for each message of the list
unfoldable pub release_messages : {L : Type 0} → SendList L → ℕ → Core L → Run (Core L)
release_messages q zero st = elim (q.list_first st.send_head) [
  | none ↦ done st
  | some m ↦ out_of_fuel
]
release_messages q (suc rounds) st = elim (q.list_first st.send_head) [
  | none ↦ done st
  | some m ↦
      release_rpc_message (some m) (record st { send_head = q.list_remove_first st.send_head })
      >>= release_messages q rounds
]

-- The list of connected processes, in the core behind the driver
abbrev pub with_list : {L : Type 0} → PointerList.PointerList → Driver (Core L) → Driver (Core L)
with_list l d = record d { client = record d.client { process_connect_list = l } }

-- "disconnect all socket", with the core as the callback. The size of the list at the start bounds
-- the rounds.
unfoldable pub disconnect_processes :
    {L : Type 0} → SendList L → Env → ℕ → ℕ → Driver (Core L) → Run (Driver (Core L))
disconnect_processes q env zero i d = done d
disconnect_processes q env (suc rounds) i d =
    let l = d.client.process_connect_list in
    let fdp = (if i == 0 then PointerList.begin l else PointerList.next l) in
    let round = fdp >>= λ r.
    disconnect (core_callback q env) r.0 (with_list r.1 d)
    >>= disconnect_processes q env rounds (i + 1) in
    if ltb i (PointerList.size l) then round else done d

-- Behind the wait, up to `exit(0)`: `rounds` bounds the messages that are still in the list.
unfoldable pub run_until_end :
    {File L : Type 0} → SendList L → Env → ℕ → Process File L → Run (Process File L)
unfolding release_messages disconnect_processes
run_until_end q env rounds p = do
  drained ← release_messages q rounds p.driver.client
  let d = record p.driver { client = drained }
  d' ← disconnect_processes q env (PointerList.size drained.process_connect_list) 0 d
  let cleared = with_list (PointerList.clear d'.client.process_connect_list) d'
  done (record p { driver = destroy cleared; pool = pool_destroy ∷ p.pool })
