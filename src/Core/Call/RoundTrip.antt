-- ===== src/Core/Call/RoundTrip.antt =====
-- The answer's way from setResponse in one process to the return of proxyCall in another one.
use y_rpc.Common.{
  ℕ, ◌^◌, ◌<◌, ◌≡◌, ◌≢◌, ◌∙◌, ap, true, false, List, length, Option, none, some, ℤ, pos, done,
  string_eq, if◌then◌else◌, ◌==◌,
}
use y_rpc.Container.{IsSorted}
use y_rpc.Container.Order.{uint_key}
use y_rpc.Message.{Message, serialize_message}
use y_rpc.Hash
use y_rpc.Hash.Laws.{Writes}
use y_rpc.Core.{SendList, Core, Env}
use y_rpc.Core.Queue.{take_sender_node}
use y_rpc.Core.Reply.{set_response}
use y_rpc.Core.Reply.Reach.{Answerable, set_response-reaches}
use y_rpc.Core.Receive.{analyse_receive_data}
use y_rpc.Core.Call.{proxy_call_end}
use y_rpc.Core.Call.Outcome.{received_part, proxy_call_end-answered}

if-success : {A : Type 0} (code : ℕ) (a b : A) → code ≡ 0 → (if code == 0 then a else b) ≡ a
if-success code a b e = rw e

Writes-same : (m m' t : Hash.Hash ℕ) (k : ℕ) → m' ≡ m → Writes m' k none t → Writes m k none t
Writes-same m m' t k e w = rw (← e) w

module _ {L : Type 0} (q : SendList L) (env : Env) where
  -- While a process runs, its answer to a two-way request of another process, with names and an ID
  -- that fit, user data below 2 ^ 32 bytes and mallocs that succeed, is the next message that its
  -- core thread takes from the list, and it can be written; and if the caller, whose ordered table
  -- leads from the ID to the proxy of the call, not NULL, reads what was written in one piece, then
  -- proxyCall returns 0 and the part of exactly these data that its buffer has room for, with
  -- `*rlen` as the length of that part, and frees the ID. For an answer without data it copies
  -- nothing and leaves `*rlen` at the capacity of the buffer.
  pub set_response-proxy_call_end :
      (request : Message) (bytes : List ℕ) (st : Core L) (fdp proxy capacity : ℕ) (caller : Core L)
      → Answerable request st
      → string_eq st.process_name request.body_head.sender ≡ false
      → env.malloc_body ≡ true
      → env.malloc_node ≡ true
      → IsSorted caller.proxy_hash
      → Hash.find request.message_head.message_id caller.proxy_hash ≡ proxy
      → proxy ≢ 0
      → length bytes < 2 ^ 32
      → (st' : Core L) × (response : Message) × (packet : List ℕ) × (caller' : Core L)
        × (caller'' : Core L) × (set_response q env (some request) bytes (length bytes) st
            ≡ done (pos 0, st'))
        × ((take_sender_node q st').0 ≡ some response)
        × (serialize_message true response ≡ done (pos 0, some packet))
        × (analyse_receive_data q env fdp packet (length packet) caller ≡ done (pos 0, caller'))
        × (proxy_call_end proxy request.message_head.message_id (pos 0) capacity caller'
            ≡ done ((pos 0, received_part capacity bytes), caller''))
        × Writes caller.proxy_hash request.message_head.message_id none caller''.proxy_hash
  set_response-proxy_call_end request bytes st fdp proxy capacity caller h remote ok node sorted
        waits there short =
      let (
        st', response, packet, caller', delivery, answered, taken, written, arrived, came,
        unchanged, numbered, coded, held, measured,
      ) =
        set_response-reaches q env request bytes st fdp proxy caller h remote ok node waits there
          short in
      let sorted' : IsSorted caller'.proxy_hash = rw unchanged sorted in
      let (caller'', ends, freed_id, traced) =
        proxy_call_end-answered proxy request.message_head.message_id capacity delivery bytes
          caller' sorted' came held measured in
      (
        st',
        response,
        packet,
        caller',
        caller'',
        answered,
        taken,
        written,
        arrived,
        ends
            ∙ ap (λ (outcome : ℤ × (Option (List ℕ) × ℕ)). done (outcome, caller''))
                (if-success delivery.message_head.status_code _ _ coded),
        Writes-same caller.proxy_hash caller'.proxy_hash caller''.proxy_hash _ unchanged freed_id,
      )
