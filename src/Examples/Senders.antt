-- ===== src/Examples/Senders.antt =====
-- Runs of the core thread, of invokeObserver and of the end of a registration.
use y_rpc.Common.{
  ℕ, ◌+◌, ◌≡◌, refl, true, List, [], ◌∷◌, ◌++◌, length, none, some, ℤ, pos, negsuc, done, ◌==◌,
  if◌then◌else◌, bytes_of, arith,
}
use mathlib.Core.List.{map, reverse}
use y_rpc.Container.{lookup}
use y_rpc.Container.Order.{uint_key, string_key}
use y_rpc.Head.{TimeVal}
use y_rpc.Message.{Message}
use y_rpc.Message.Wire.{holding}
use y_rpc.Hash
use y_rpc.Hash.Laws.{Writes}
use y_rpc.StringHash
use y_rpc.Observer
use y_rpc.Core.{Core, made, queued, sent, released, added_work, note, observerappendstring}
use y_rpc.Core.Queue.{insert_sender_node, take_sender_node}
use y_rpc.Core.Receive.{analyse_receive_data}
use y_rpc.Core.Receive.Ledger.{made_count, ended_count}
use y_rpc.Core.Receive.Fate.{weight}
use y_rpc.Core.Observe.{invoke_observer, register_observer_end}
use y_rpc.Core.Observe.Owners.{lost_invocation}
use y_rpc.Core.Observe.Fate.{of_id, invocation_weight, invoke_observer_lem}
use y_rpc.Core.Observe.Sending.{Invokable}
use y_rpc.Core.Observe.Reach.{invoke_observer-reaches}
use y_rpc.Core.Observe.Register.{register_observer_end-answered}
use y_rpc.Core.Sender.{
  idle, connecting, linking, sender_take, send_taken, sender_connect, sender_linked,
}
use y_rpc.Core.Sender.Retries.{sender_connects, sender_connects-gives_up}
use y_rpc.Core.Sender.Relink.{sender_linked-again}
use y_rpc.Core.Sender.Machine.{Counted, takes, starts, steps, SenderReach-Counted}
use y_rpc.Examples.Wire.{user_bytes, call_message}
use y_rpc.Examples.Process.{send_list, env, process, caller}

abbrev comm_tv : TimeVal
comm_tv = record { tv_sec = 1; tv_usec = 0 }

-- Three failures and two more answers, for a message to "pb", which nothing is connected to
abbrev refused : List (ℤ × ℕ)
refused = (negsuc 0, 0) ∷ (negsuc 0, 0) ∷ (negsuc 0, 0) ∷ []

sender_connects-gives_up_example :
    sender_connects comm_tv
      (refused ++ ((pos 0, 41) ∷ (pos 0, 42) ∷ []))
      true
      600
      (connecting call_message 0, caller)
    ≡ done (idle, note (released call_message) caller)
unfolding StringHash.find Hash.find lookup
sender_connects-gives_up_example =
    sender_connects-gives_up comm_tv refused ((pos 0, 42) ∷ []) (pos 0, 41) true 600 call_message
      caller refl (λ e. cc) (refl, (refl, (refl, tt))) refl

-- The connection 41 to "pb" waits for the answer to its link request.
abbrev linking_process : Core (List Message)
linking_process = record caller { process_connect_hash = (bytes_of "pb", 41) ∷ [] }

sender_linked-again_example :
    (st' st'' : Core (List Message)) × (frame' : ℕ) × (request' : Message) × (sender_linked
        call_message 2 41 600 8 call_message
        (negsuc 0)
        linking_process
      ≡ done (connecting call_message 2, st'))
    × (sender_connect comm_tv (pos 0, 42) true 601 call_message 2 st'
        ≡ done (linking call_message 2 42 601 frame' request', st''))
unfolding StringHash.find Hash.find lookup
sender_linked-again_example =
    sender_linked-again comm_tv call_message 2 41 600 8 0 call_message linking_process 42 601
      (tt, tt) refl refl (λ e. cc) (omega arith)

-- The core thread with one message in its list
abbrev queued_process : Core (List Message)
unfolding insert_sender_node
queued_process = (insert_sender_node send_list env call_message caller).1

SenderReach-Counted_example : Counted (connecting call_message 0)
unfolding Counted sender_take send_taken take_sender_node queued_process
SenderReach-Counted_example =
    SenderReach-Counted send_list comm_tv {r = (idle, queued_process)} tt
      (steps starts (takes refl))

-- The connection 40 observes "o"; at the observer the function at 900 handles it.
abbrev observer : Core (List Message)
observer = record caller { observer_func_hash = (bytes_of "o" ++ observerappendstring, 900) ∷ [] }

process-Invokable : Invokable (bytes_of "o") user_bytes process
process-Invokable = record {
  running = refl;
  frame_fits = omega arith;
  process_fits = omega arith;
  object_fits = omega arith;
  data_fits = omega arith;
}

invoke_observer-reaches_example :
    (st' st'' : Core (List Message)) × (m : Message) × (packet : List ℕ) × (call : Message)
    × (invoke_observer send_list env env (bytes_of "o") user_bytes 3 process ≡ done (pos 0, st'))
    × (sender_take send_list st' ≡ done (idle, st''))
    × (st''.send_head ≡ [])
    × (st''.trace
        ≡ released m ∷ (reverse (map (λ fd'. sent fd' packet) (40 ∷ [])) ++ (queued m ∷ made ∷ [])))
    × (analyse_receive_data send_list env 50 packet (length packet) observer
        ≡ done (pos 0, note (added_work call) (note made observer)))
    × (call.handler ≡ 900)
    × (call.body_head.module_name ≡ bytes_of "o")
    × (call.user_data ≡ holding user_bytes)
    × (call.user_data_len ≡ 3)
unfolding StringHash.find Hash.find lookup Observer.find
invoke_observer-reaches_example =
    invoke_observer-reaches send_list env env env (bytes_of "o") user_bytes [] 40 50 900 process
      observer process-Invokable refl refl refl refl refl refl refl (omega arith)

invoke_observer_lem_example :
    (code : ℤ) × (st' : Core (List Message)) × (invoke_observer send_list env env
        (bytes_of "o")
        user_bytes
        3
        process
      ≡ done (code, st'))
    × (made_count st'.trace + ended_count process.trace
        ≡ lost_invocation env (bytes_of "o") user_bytes process
          + (made_count process.trace + ended_count st'.trace))
    × (weight (of_id (λ id. id)) st'.trace
        ≡ invocation_weight (λ id. id) env (bytes_of "o") user_bytes process
          + weight (of_id (λ id. id)) process.trace)
invoke_observer_lem_example =
    invoke_observer_lem (λ id. id) send_list env env (bytes_of "o") user_bytes process

-- The proxy at 500 got an answer to the request 7, of an object "x".
abbrev answered : Core (List Message)
answered = record caller { responses = λ a. if a == 500 then some call_message else none }

register_observer_end-answered_example :
    (st' : Core (List Message)) × (register_observer_end 500 7
        (pos 0)
        (bytes_of "x")
        900
        true
        answered
      ≡ done (pos 0, st'))
    × Writes answered.observer_func_hash
        (bytes_of "x" ++ observerappendstring)
        (some 900)
        st'.observer_func_hash
    × Writes answered.proxy_hash 7 none st'.proxy_hash
    × (st'.trace ≡ released call_message ∷ answered.trace)
unfolding lookup
register_observer_end-answered_example =
    register_observer_end-answered 500 7 (bytes_of "x") 900 true call_message answered (tt, tt) tt
      (λ e. refl) refl (λ e. cc)
