-- ===== src/Examples/Calls.antt =====
-- A call of "pa" to "pb" and its answer.
use y_rpc.Common.{
  ℕ, ◌≡◌, refl, true, false, List, [], ◌∷◌, length, ◌==◌, none, some, pos, negsuc, done, bytes_of,
  string_eq, if◌then◌else◌, arith,
}
use y_rpc.Container.{lookup}
use y_rpc.Container.Order.{uint_key, string_key}
use y_rpc.Message.{Message, serialize_message}
use y_rpc.Message.Wire.{holding}
use y_rpc.Hash
use y_rpc.Hash.Laws.{Writes}
use y_rpc.Core.{Core, released}
use y_rpc.Core.Queue.{take_sender_node}
use y_rpc.Core.Reply.{set_response}
use y_rpc.Core.Reply.Reach.{Answerable, set_response-reaches}
use y_rpc.Core.Call.{awaits, call_timeout, proxy_call_begin, proxy_call_end}
use y_rpc.Core.Call.Begin.{proxy_call_begin-remote}
use y_rpc.Core.Call.Outcome.{received_part, proxy_call_end-answered}
use y_rpc.Core.Call.RoundTrip.{set_response-proxy_call_end}
use y_rpc.Head.{TimeVal, mt_apply_pk}
use y_rpc.Core.Receive.{analyse_receive_data}
use y_rpc.Examples.Wire.{user_bytes, call_message}
use y_rpc.Examples.Process.{send_list, env, process, caller}

call_message-Answerable : Answerable call_message process
call_message-Answerable = record {
  running = refl;
  wanted = refl;
  numbered = omega arith;
  caller_fits = omega arith;
  callee_fits = omega arith;
  module_fits = omega arith;
  function_fits = omega arith;
}

waits_at_caller : Hash.find 7 caller.proxy_hash ≡ 500
unfolding Hash.find lookup
waits_at_caller = refl

other_process : string_eq process.process_name call_message.body_head.sender ≡ false
unfolding string_eq
other_process = refl

set_response-reaches_example :
    (st' : Core (List Message)) × (response : Message) × (packet : List ℕ) × (caller' : Core
      (List Message))
    × (delivery : Message) × (set_response send_list env
          (some call_message)
          user_bytes
          (length user_bytes)
          process
        ≡ done (pos 0, st'))
    × ((take_sender_node send_list st').0 ≡ some response)
    × (serialize_message true response ≡ done (pos 0, some packet))
    × (analyse_receive_data send_list env 41 packet (length packet) caller ≡ done (pos 0, caller'))
    × (caller'.responses 500 ≡ some delivery)
    × (caller'.proxy_hash ≡ caller.proxy_hash)
    × (delivery.message_head.message_id ≡ call_message.message_head.message_id)
    × (delivery.message_head.status_code ≡ 0)
    × (delivery.user_data ≡ holding user_bytes)
    × (delivery.user_data_len ≡ length user_bytes)
set_response-reaches_example =
    set_response-reaches send_list env call_message user_bytes process 41 500 caller
      call_message-Answerable other_process refl refl waits_at_caller (omega arith) (omega arith)

-- "pa" after the answer to its request 7 came
abbrev answered : Core (List Message)
answered = record caller { responses = λ a. some call_message }

proxy_call_end-answered_example :
    (st' : Core (List Message)) × (proxy_call_end 500 7 (pos 0) 2 answered
      ≡ done (
        (if call_message.message_head.status_code == 0
            then (pos 0, received_part 2 user_bytes)
            else (negsuc 0, (none, 2))),
        st',
      ))
    × Writes answered.proxy_hash 7 none st'.proxy_hash
    × (st'.trace ≡ released call_message ∷ answered.trace)
proxy_call_end-answered_example =
    proxy_call_end-answered 500 7 2 call_message user_bytes answered (tt, tt) refl refl refl

-- "pa" before its first request
abbrev idle : Core (List Message)
idle = record caller { proxy_hash = [] }

no_call : lookup 7 idle.proxy_hash ≡ none
unfolding lookup
no_call = refl

elsewhere : string_eq (bytes_of "pb") idle.process_name ≡ false
unfolding string_eq
elsewhere = refl

abbrev timeout : TimeVal
timeout = record { tv_sec = 5; tv_usec = 0 }

proxy_call_begin-remote_example :
    (st' : Core (List Message)) × (request : Message) × (proxy_call_begin send_list env timeout true
        500
        (some (bytes_of "pb"))
        (bytes_of "m")
        (bytes_of "add")
        user_bytes
        (length user_bytes)
        true
        none
        idle
      ≡ done (awaits 7, st'))
    × ((take_sender_node send_list st').0 ≡ some request)
    × (request.message_head.message_id ≡ 7)
    × (request.message_head.one_way ≡ false)
    × (request.message_head.response ≡ false)
    × (request.body_head.sender ≡ idle.process_name)
    × (request.body_head.recver ≡ bytes_of "pb")
    × (request.body_head.function ≡ bytes_of "add")
    × (request.user_data ≡ holding user_bytes)
    × (request.message_head.message_type ≡ mt_apply_pk)
    × (request.message_head.timevl ≡ call_timeout timeout none)
    × (request.body_head.module_name ≡ bytes_of "m")
    × (request.user_data_len ≡ length user_bytes)
    × (Hash.find 7 st'.proxy_hash ≡ 500)
    × (st'.responses 500 ≡ none)
proxy_call_begin-remote_example =
    proxy_call_begin-remote send_list env timeout none 500 (bytes_of "pb") (bytes_of "m")
      (bytes_of "add") user_bytes idle refl refl refl elsewhere tt no_call (omega arith)

set_response-proxy_call_end_example :
    (st' : Core (List Message)) × (response : Message) × (packet : List ℕ) × (caller' : Core
      (List Message))
    × (caller'' : Core (List Message)) × (set_response send_list env
          (some call_message)
          user_bytes
          (length user_bytes)
          process
        ≡ done (pos 0, st'))
    × ((take_sender_node send_list st').0 ≡ some response)
    × (serialize_message true response ≡ done (pos 0, some packet))
    × (analyse_receive_data send_list env 41 packet (length packet) caller ≡ done (pos 0, caller'))
    × (proxy_call_end 500 call_message.message_head.message_id (pos 0) 2 caller'
        ≡ done ((pos 0, received_part 2 user_bytes), caller''))
    × Writes caller.proxy_hash call_message.message_head.message_id none caller''.proxy_hash
set_response-proxy_call_end_example =
    set_response-proxy_call_end send_list env call_message user_bytes process 41 500 2 caller
      call_message-Answerable other_process refl refl (tt, tt) waits_at_caller (omega arith)
      (omega arith)
