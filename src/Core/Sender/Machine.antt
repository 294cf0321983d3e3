-- ===== src/Core/Sender/Machine.antt =====
-- RPCCoreThread as a relation: its own steps, with any steps of the other threads between them.
use y_rpc.Common.{
  bind-Holds, bind-Holds-all, List, ℕ, ◌≤◌, ◌<◌, ◌≡◌, refl, Bool, true, false, ◌==◌, inl, inr,
  Option, Option-cases, none, some, ℤ, pos, is_zero, Run, done, Holds, by_if, arith,
}
use y_rpc.Head.{TimeVal}
use y_rpc.Message.{
  Message, null, malloc_body_data, copy_user_data, serialize_message, update_body_size,
}
use y_rpc.StringHash
use y_rpc.Observer
use y_rpc.Core.{SendList, Core, note, sent}
use y_rpc.Core.Queue.{new_proxy, get_frame_id, release_rpc_message, take_sender_node}
use y_rpc.Core.Link.{LinkWait, ended, waits, request_link_begin, claim_link, request_link_end}
use y_rpc.Core.Sender.{
  send_to_observers, bytes_or_none, SenderPhase, idle, connecting, linking, exited, free_memory,
  send_invocation, send_taken, sender_take, is_invocation, send_message, must_repeat, linked,
  link_begun, sender_connect, sender_linked,
}

-- At most 3 tries are counted, fewer in a handshake, and the body of its request is not there.
unfoldable pub Counted : SenderPhase → Type 0
Counted idle = Unit {0}
Counted (connecting m count) = count ≤ 3
Counted (linking m count fd proxy frame request) = (count < 3) × (request.user_data ≡ null)
Counted exited = Unit {0}

module _ {L : Type 0} where
  -- The phase that a step returns is counted.
  abbrev Turns : Run (SenderPhase × Core L) → Type 0
  Turns = Holds (λ r. Counted r.0)

  free_memory-Turns : (m : Message) (st : Core L) → Turns (free_memory m st)
  unfolding free_memory Counted
  free_memory-Turns m st =
      bind-Holds-all (λ (r : SenderPhase × Core L). Counted r.0) (release_rpc_message (some m) st)
        (λ st'. done (idle, st')) (λ st'. tt)

  send_invocation-Turns : (m : Message) (st : Core L) → Turns (send_invocation m st)
  unfolding send_invocation
  send_invocation-Turns m st =
      elim (Option-cases (Observer.find m.body_head.recver st.observer_connect_hash)) [
        | inl e ↦ rw (e, send_invocation) (free_memory-Turns m st)
        | inr (fds, e) ↦
            rw (e, send_invocation)
              (by_if Turns (Observer.is_empty fds) (λ none_listens. free_memory-Turns m st)
                (λ some_listen.
                  bind-Holds-all (λ (r : SenderPhase × Core L). Counted r.0)
                    (serialize_message true m)
                    (λ written. free_memory m (send_to_observers fds (bytes_or_none written.1) st))
                    (λ written. free_memory-Turns m _)))
      ]

  send_taken-Turns : (taken : Option Message × Core L) → Turns (send_taken taken)
  unfolding send_taken Counted
  send_taken-Turns (none, st) = tt
  send_taken-Turns (some m, st) =
      by_if Turns (is_invocation m) (λ invokes. send_invocation-Turns m st) (λ other. omega arith)

  send_message-Turns : (m : Message) (fd : ℕ) (st : Core L) → Turns (send_message m fd st)
  unfolding send_message
  send_message-Turns m fd st =
      bind-Holds-all (λ (r : SenderPhase × Core L). Counted r.0) (serialize_message true m)
        (λ written. free_memory m (note (sent fd (bytes_or_none written.1)) st))
        (λ written. free_memory-Turns m _)

  linked-Turns :
      (m : Message) (count fd : ℕ) (r : ℤ × Core L) → count ≤ 3 → Turns (linked m count fd r)
  unfolding linked Counted
  linked-Turns m count fd (result, st) few =
      by_if Turns (must_repeat result) (λ again. few) (λ through. send_message-Turns m fd st)

  -- The request that requestLink waits with has no body.
  Bare : LinkWait × Core L → Type 0
  Bare (ended result, st) = Unit {0}
  Bare (waits frame request, st) = request.user_data ≡ null

  request_link_begin-Bare :
      (comm_tv : TimeVal) (init : Bool) (proxy fd : ℕ) (peer : List ℕ) (st : Core L)
      → Holds Bare (request_link_begin comm_tv init proxy fd peer st)
  unfolding request_link_begin claim_link malloc_body_data serialize_message copy_user_data
      update_body_size Bare new_proxy get_frame_id
  request_link_begin-Bare comm_tv false proxy fd peer st = tt
  request_link_begin-Bare comm_tv true proxy fd peer st =
      by_if (Holds Bare) (StringHash.find peer st.process_connect_hash == 0) (λ free. refl)
        (λ taken.
          bind-Holds-all Bare (release_rpc_message _ _) (λ st'. done (ended (pos 1), st'))
            (λ st'. tt))

  link_begun-Turns :
      (m : Message) (count fd proxy : ℕ) (w : LinkWait × Core L)
      → count < 3
      → Bare w
      → Turns (link_begun m count fd proxy w)
  unfolding link_begun Bare Counted
  link_begun-Turns m count fd proxy (ended result, st) few bare =
      linked-Turns m count fd (result, st) (omega (arith, few))
  link_begun-Turns m count fd proxy (waits frame request, st) few bare = (few, bare)

module _ {L : Type 0} (q : SendList L) (comm_tv : TimeVal) where
  pub data SenderStep : SenderPhase × Core L → SenderPhase × Core L → Type 0 where
    takes :
        {st : Core L} {r : SenderPhase × Core L}
        → sender_take q st ≡ done r
        → SenderStep (idle, st) r
    connects :
        {m : Message} {count : ℕ} {st : Core L} {r : SenderPhase × Core L} (attempt : ℤ × ℕ)
        (init : Bool) (proxy : ℕ)
        → sender_connect comm_tv attempt init proxy m count st ≡ done r
        → SenderStep (connecting m count, st) r
    links :
        {m : Message} {count fd proxy frame : ℕ} {request : Message} {st : Core L}
        {r : SenderPhase × Core L} (result : ℤ)
        → sender_linked m count fd proxy frame request result st ≡ done r
        → SenderStep (linking m count fd proxy frame request, st) r
    others : {p : SenderPhase} {st : Core L} (st' : Core L) → SenderStep (p, st) (p, st')

  pub data SenderReach (start : SenderPhase × Core L) : SenderPhase × Core L → Type 0 where
    starts : SenderReach start start
    steps :
        {r r' : SenderPhase × Core L} → SenderReach start r → SenderStep r r' → SenderReach start r'

  sender_connect-Turns :
      (attempt : ℤ × ℕ) (init : Bool) (proxy : ℕ) (m : Message) (count : ℕ) (st : Core L)
      → count ≤ 3
      → Turns (sender_connect comm_tv attempt init proxy m count st)
  unfolding sender_connect Counted
  sender_connect-Turns attempt init proxy m count st few =
      by_if Turns (StringHash.find m.body_head.recver st.process_connect_hash == 0)
        (λ absent.
          by_if Turns (3 == count) (λ tired. free_memory-Turns m st)
            (λ fresh.
              let less : count < 3 = ground arith in
              by_if Turns (is_zero attempt.0)
                (λ ok.
                  bind-Holds Bare (λ (r : SenderPhase × Core L). Counted r.0)
                    (request_link_begin comm_tv init proxy attempt.1 m.body_head.recver st)
                    (link_begun m count attempt.1 proxy)
                    (request_link_begin-Bare comm_tv init proxy attempt.1 m.body_head.recver st)
                    (λ w bare. link_begun-Turns m count attempt.1 proxy w less bare))
                (λ failed. less)))
        (λ there. send_message-Turns m _ st)

  sender_linked-Turns :
      (m : Message) (count fd proxy frame : ℕ) (request : Message) (result : ℤ) (st : Core L)
      → count < 3
      → Turns (sender_linked m count fd proxy frame request result st)
  unfolding sender_linked
  sender_linked-Turns m count fd proxy frame request result st less =
      bind-Holds-all (λ (r : SenderPhase × Core L). Counted r.0)
        (request_link_end proxy fd m.body_head.recver frame request result st) (linked m count fd)
        (λ ended. linked-Turns m count fd ended (omega (arith, less)))

  sender_take-Turns : (st : Core L) → Turns (sender_take q st)
  unfolding sender_take Counted
  sender_take-Turns st =
      by_if Turns st.run_state (λ running. send_taken-Turns (take_sender_node q st)) (λ stopped. tt)

  Turns-done :
      {m : Run (SenderPhase × Core L)} {r : SenderPhase × Core L}
      → m ≡ done r
      → Turns m
      → Counted r.0
  Turns-done e h = rw e at h

  SenderStep-Counted : {r r' : SenderPhase × Core L} → SenderStep r r' → Counted r.0 → Counted r'.0
  unfolding Counted
  SenderStep-Counted (takes {st = st} e) h = Turns-done e (sender_take-Turns st)
  SenderStep-Counted (connects {m = m} {count = count} {st = st} attempt init proxy e) h =
      Turns-done e (sender_connect-Turns attempt init proxy m count st h)
  SenderStep-Counted
        (links {m = m} {count = count} {fd = fd} {proxy = proxy} {frame = frame} {request = request}
          {st = st} result e)
        h =
      Turns-done e (sender_linked-Turns m count fd proxy frame request result st h.0)
  SenderStep-Counted (others st') h = h

  -- In whatever order the core thread takes messages, connects, waits for link answers with any
  -- results, and other threads change the state meanwhile: from a counted phase it reaches counted
  -- phases only. At most 3 failed tries to connect are counted for a message, fewer than 3 while
  -- the thread waits for the answer to a link request, and that request has no user data.
  pub SenderReach-Counted :
      {r r' : SenderPhase × Core L} → Counted r.0 → SenderReach r r' → Counted r'.0
  SenderReach-Counted h starts = h
  SenderReach-Counted h (steps reach step) = SenderStep-Counted step (SenderReach-Counted h reach)
