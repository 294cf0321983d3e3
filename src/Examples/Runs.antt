-- ===== src/Examples/Runs.antt =====
-- Runs of the handlers.
use y_rpc.Common.{
  ℕ, ◌+◌, ◌≡◌, ◌≢◌, ◌⊎◌, refl, true, List, [], ◌∷◌, length, ◌==◌, none, some, ℤ, pos, negsuc, done,
  bytes_of, if◌then◌else◌, arith,
}
use mathlib.Core.Option
use y_rpc.Container.{lookup}
use y_rpc.Container.Order.{uint_key, string_key, string_lt, same_key}
use y_rpc.Message
use y_rpc.Message.{Message, new_message, analyse_message}
use y_rpc.Message.Wire.{wire, analysed}
use y_rpc.Hash
use y_rpc.Hash.Laws.{Writes}
use y_rpc.StringHash
use y_rpc.Observer.Laws.{observes}
use y_rpc.PointerList.Laws.{IsValid, count}
use y_rpc.Core.{Core, made, released, sent, note}
use y_rpc.Core.Queue.{get_frame_id, wakeup_one_thread}
use y_rpc.Core.Queue.Laws.{numbered, get_frame_id-numbered, waiting_at, wakeup_one_thread_lem}
use y_rpc.Core.Link.{settle_link, response_link, decide_link}
use y_rpc.Core.Link.Answer.{link_answer, response_link_lem}
use y_rpc.Core.Link.Outcome.{decide_link-answered}
use y_rpc.Core.Receive.{analyse_receive_data}
use y_rpc.Core.Receive.Fate.{weight}
use y_rpc.Core.Receive.Fates.{IsWeight, dropped}
use y_rpc.Core.Receive.Ledger.{made_count, ended_count}
use y_rpc.Core.Receive.Owners.{forgotten, analyse_receive_data-forgotten}
use y_rpc.Driver.{comm_event_disconnect}
use y_rpc.Core.Events.{comm_event_handler, register_service, unregister_service}
use y_rpc.Core.Events.Tables.{comm_event_handler-disconnected, register_service_lem}
use y_rpc.Examples.Wire.{user_bytes, call_message, call_message-IsMessage}
use y_rpc.Examples.Process.{send_list, env, process, caller}

not_waiting : lookup 9 process.proxy_hash ≡ none
unfolding lookup
not_waiting = refl

get_frame_id-numbered_example : (get_frame_id (numbered 1000 process)).0 ≢ (get_frame_id process).0
get_frame_id-numbered_example =
    get_frame_id-numbered 1000 process (omega arith) (omega arith) (omega arith)

wakeup_one_thread_lem_example :
    let target =
      (if call_message.message_head.message_id == 9
        then 600
        else Hash.find call_message.message_head.message_id process.proxy_hash) in
    let woken = wakeup_one_thread call_message (waiting_at 9 600 process) in
    (woken.0 ≡ (if target == 0 then negsuc 0 else pos 0))
    × ((a : ℕ)
        → woken.1.responses a ≡ (
            if target == 0
            then process.responses a
            else (if a == target then some call_message else process.responses a)))
wakeup_one_thread_lem_example =
    wakeup_one_thread_lem 9 600 call_message process (tt, tt) not_waiting (omega arith)

-- The process "pa" while its connection 41 to "pb" stands in its table
abbrev linking : Core (List Message)
linking = record caller { process_connect_hash = (bytes_of "pb", 41) ∷ [] }

held_connection : lookup (bytes_of "pa") process.process_connect_hash ≢ some 0
unfolding lookup
held_connection = λ e. cc

held_by_pa : StringHash.find (bytes_of "pb") linking.process_connect_hash ≡ 41
unfolding StringHash.find lookup
held_by_pa = refl

response_link_lem_example :
    (settled : ℕ × Core (List Message)) × (settled
      ≡ settle_link 42 call_message.body_head.sender (note made process))
    × (packet : List ℕ) × (response_link env 42 call_message process
        ≡ done (
          pos 0,
          note
              (released (link_answer call_message process))
              (note (sent settled.0 packet) settled.1),
        ))
    × ((q : List ℕ)
        → StringHash.find q settled.1.process_connect_hash ≡ (
            if same_key q call_message.body_head.sender
            then settled.0
            else StringHash.find q process.process_connect_hash))
    × (response : Message) × (analyse_message true packet (length packet) ≡ done (pos 0, response))
    × (decide_link 41 (bytes_of "pb") (pos 0) (some response) linking
        ≡ done (
          (if StringHash.find (bytes_of "pb") linking.process_connect_hash == 41
              then pos 0
              else pos 1),
          linking,
        ))
response_link_lem_example =
    response_link_lem env 42 call_message process linking 41 (bytes_of "pb") refl (omega arith)
      (omega arith) (omega arith) (tt, tt) held_connection

decide_link-answered_example :
    (st' : Core (List Message)) × (decide_link 41
        (bytes_of "pb")
        (pos 0)
        (some call_message)
        linking
      ≡ done ((if 1 == 0 then pos 1 else pos 0), st'))
    × ((p : List ℕ)
        → StringHash.find p st'.process_connect_hash ≡ (
            if same_key p (bytes_of "pb")
            then (if 1 == 0 then call_message.handler else 41)
            else StringHash.find p linking.process_connect_hash))
decide_link-answered_example =
    decide_link-answered 41 (bytes_of "pb") call_message 1 (2 ∷ 3 ∷ []) linking (tt, tt) held_by_pa
      refl

-- The ID of a request, and 0 for a response
abbrev asked : Message → ℕ
asked m = if m.message_head.response then 0 else m.message_head.message_id

asked-IsWeight : IsWeight asked (analysed call_message user_bytes)
unfolding IsWeight Message.set_handler
asked-IsWeight = (λ h n. refl, λ asks n answers. rw answers refl)

analyse_receive_data-forgotten_example :
    (code : ℤ) × (st' : Core (List Message)) × (analyse_receive_data send_list env 40
        (wire call_message user_bytes)
        (length (wire call_message user_bytes))
        process
      ≡ done (code, st'))
    × (made_count st'.trace + ended_count process.trace
        ≡ forgotten (analysed call_message user_bytes) process.observer_connect_hash
          + (made_count process.trace + ended_count st'.trace))
    × (weight asked st'.trace
        ≡ (if dropped (analysed call_message user_bytes)
            then 0
            else asked (analysed call_message user_bytes))
          + weight asked process.trace)
analyse_receive_data-forgotten_example =
    analyse_receive_data-forgotten send_list env asked 40 call_message user_bytes process refl
      call_message-IsMessage (omega arith) asked-IsWeight

process-IsValid : IsValid process.process_connect_list
process-IsValid = omega arith

comm_event_handler-disconnected_example :
    (st' : Core (List Message)) × (comm_event_handler send_list env comm_event_disconnect 40 [] 1
        process
      ≡ done (pos 0, st'))
    × (count 40 st'.process_connect_list.nodes ≡ 0)
    × ((key : List ℕ) (fd : ℕ)
        → observes key fd st'.observer_connect_hash ≡ (
            if fd == 40
            then Option.map (λ n. 0) (observes key fd process.observer_connect_hash)
            else observes key fd process.observer_connect_hash))
    × ((((p : List ℕ) → lookup p process.process_connect_hash ≢ some 40)
          × (st'.process_connect_hash ≡ process.process_connect_hash))
        ⊎ ((p : List ℕ) × (lookup p process.process_connect_hash ≡ some 40)
            × ((r : List ℕ)
                → string_lt r p ≡ true
                → lookup r process.process_connect_hash ≢ some 40)
            × Writes process.process_connect_hash p none st'.process_connect_hash))
comm_event_handler-disconnected_example =
    comm_event_handler-disconnected send_list env 40 [] process (tt, tt) process-IsValid

no_service : lookup (bytes_of "add") process.service_func_hash ≡ none
unfolding lookup
no_service = refl

register_service_lem_example :
    let first = register_service (bytes_of "add") 900 process in
    (first.0 ≡ pos 0)
    × (StringHash.find (bytes_of "add") first.1.service_func_hash ≡ 900)
    × (register_service (bytes_of "add") 901 first.1 ≡ (pos 1, first.1))
    × (StringHash.find
          (bytes_of "add")
          (unregister_service (bytes_of "add") first.1).1.service_func_hash
        ≡ 0)
register_service_lem_example = register_service_lem 97 (bytes_of "dd") 900 901 process tt no_service
