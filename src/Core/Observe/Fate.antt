-- ===== src/Core/Observe/Fate.antt =====
-- Which messages invokeObserver releases or gives away, told by their IDs.
use y_rpc.Common.{
  ℕ, ◌+◌, ◌≡◌, refl, Run, List, ◌++◌, length, ◌==◌, Option-cases, Bool-cases, inl, inr, none, some,
  ℤ, pos, negsuc, is_zero, done, fault, out_of_fuel, ◌>>=◌, if◌then◌else◌, arith,
}
use y_rpc.Message
use y_rpc.Message.{Message, malloc_body_data, update_body_size}
use y_rpc.Message.Wire.{holding}
use y_rpc.StringHash
use y_rpc.Observer
use y_rpc.Core.{SendList, Core, Env, added_work, note, observerappendstring}
use y_rpc.Core.Queue.{get_frame_id}
use y_rpc.Core.Reply.{delete_message}
use y_rpc.Core.Observe.{
  invoke_request, make_invocation, add_local_work, queue_invocation, invoke_made, invoke_observer,
}
use y_rpc.Core.Observe.Owners.{
  numbered, next_id, has_block, make_invocation-cases, lost_invocation, invoke_observer-Ends,
}
use y_rpc.Core.Receive.Ledger.{made_count, ended_count}
use y_rpc.Core.Receive.Fate.{
  weight, Weighs, release_with-Weighs, insert_sender_node-Weighs, from-Weighs, weigh-Weighs,
  if-Weighs, same-Weighs,
}

-- A weight of message IDs, as one of messages
abbrev pub of_id : (ℕ → ℕ) → Message → ℕ
of_id g m = g m.message_head.message_id

module _ {L : Type 0} (g : ℕ → ℕ) where
  -- The first message of an invocation: the pool takes it if this process observes the object,
  -- unless addWork fails; if not, or if it is not made, it is sent or released.
  unfoldable pub first_weight : Env → List ℕ → List ℕ → Core L → ℕ
  first_weight env observed bytes st =
      if has_block env bytes
      then (if StringHash.find (observed ++ observerappendstring) st.observer_func_hash == 0
          then g (next_id st)
          else (if is_zero env.add_work then g (next_id st) else 0)
            + (if Observer.empty_of observed st.observer_connect_hash
                then 0
                else g (next_id (numbered st))))
      else g (next_id st)

  -- The messages that invokeObserver releases or gives away, weighed
  unfoldable pub invocation_weight : Env → List ℕ → List ℕ → Core L → ℕ
  unfolding first_weight
  invocation_weight env observed bytes st =
      if st.run_state
      then (elim (Observer.find observed st.observer_connect_hash) [
        | none ↦ 0
        | some fds ↦ first_weight env observed bytes st
      ])
      else 0

  delete_message-Weighs :
      (code : ℤ) (m : Message) (id : ℕ) (st : Core L)
      → m.message_head.message_id ≡ id
      → Weighs (of_id g) (g id) st (done (code, delete_message m st))
  unfolding delete_message weight
  delete_message-Weighs code m id st e = rw e refl

  queue_invocation-Weighs :
      (q : SendList L) (env : Env) (observed bytes : List ℕ) (st : Core L)
      → Weighs
          (of_id g)
          (g (next_id st))
          st
          (make_invocation env observed bytes (length bytes) st >>= queue_invocation q env)
  unfolding queue_invocation update_body_size numbered get_frame_id weight invoke_request next_id
      Message.set_body_head Message.init_observer_invoke_message
  queue_invocation-Weighs q env observed bytes st =
      elim (make_invocation-cases env observed bytes st) [
        | inl (ok, e) ↦ rw e (
            from-Weighs (of_id g) (g (next_id st)) st (numbered st) _ refl (
              insert_sender_node-Weighs (of_id g) q env
                (update_body_size (record (invoke_request st.frame_id observed st) {
                  user_data = holding bytes;
                  user_data_len = length bytes;
                }))
                (numbered st)))
        | inr (failed, (m, i, e)) ↦ rw e (
            from-Weighs (of_id g) (g (next_id st)) st (numbered st)
              (done (negsuc 0, delete_message m (numbered st))) refl
              (delete_message-Weighs (negsuc 0) m (next_id st) (numbered st) i))
      ]

  again-Weighs :
      (q : SendList L) (copy : Env) (observed bytes : List ℕ) (st : Core L)
      → Weighs
          (of_id g)
          (if Observer.empty_of observed st.observer_connect_hash then 0 else g (next_id st))
          st
          (if Observer.empty_of observed st.observer_connect_hash
            then done (pos 0, st)
            else make_invocation copy observed bytes (length bytes) st >>= queue_invocation q copy)
  again-Weighs q copy observed bytes st =
      if-Weighs (of_id g) 0 (g (next_id st)) st
        (Observer.empty_of observed st.observer_connect_hash) _ _ (λ empty. omega arith)
        (λ others. queue_invocation-Weighs q copy observed bytes st)

  added-Weighs :
      (w : ℕ) (m : Message) (st : Core L) (r : Run (ℤ × Core L))
      → Weighs (of_id g) w (note (added_work m) st) r
      → Weighs (of_id g) (g m.message_head.message_id + w) st r
  unfolding weight
  added-Weighs w m st (done s) h = omega (arith, h)
  added-Weighs w m st fault h = tt
  added-Weighs w m st out_of_fuel h = tt

  local_work-Weighs :
      (q : SendList L) (env copy : Env) (observed bytes : List ℕ) (m : Message) (st : Core L)
      → Weighs
          (of_id g)
          ((if is_zero env.add_work then g m.message_head.message_id else 0)
            + (if Observer.empty_of observed st.observer_connect_hash then 0 else g (next_id st)))
          st
          (if Observer.empty_of observed (add_local_work env m st).observer_connect_hash
            then done (pos 0, add_local_work env m st)
            else make_invocation copy observed bytes (length bytes) (add_local_work env m st)
              >>= queue_invocation q copy)
  unfolding add_local_work next_id
  local_work-Weighs q env copy observed bytes m st = elim (Bool-cases (is_zero env.add_work)) [
    | inl ok ↦ rw ok (
        added-Weighs _ m st
          (if Observer.empty_of observed st.observer_connect_hash
            then done (pos 0, note (added_work m) st)
            else make_invocation copy observed bytes (length bytes) (note (added_work m) st)
              >>= queue_invocation q copy)
          (again-Weighs q copy observed bytes (note (added_work m) st)))
    | inr failed ↦ rw failed (
        weigh-Weighs (of_id g)
          (if Observer.empty_of observed st.observer_connect_hash then 0 else g (next_id st)) _ st
          (if Observer.empty_of observed st.observer_connect_hash
            then done (pos 0, st)
            else make_invocation copy observed bytes (length bytes) st >>= queue_invocation q copy)
          (omega arith) (again-Weighs q copy observed bytes st))
  ]

  first-Weighs :
      (q : SendList L) (env copy : Env) (observed bytes : List ℕ) (st : Core L)
      → Weighs (of_id g) (first_weight env observed bytes st) st (
          make_invocation env observed bytes (length bytes) st
          >>= invoke_made q env copy observed bytes (length bytes))
  unfolding first_weight invoke_made numbered get_frame_id update_body_size weight invoke_request
      next_id Message.set_body_head Message.init_observer_invoke_message Message.set_handler
  first-Weighs q env copy observed bytes st =
      let made_message = record (invoke_request st.frame_id observed st) {
        user_data = holding bytes;
        user_data_len = length bytes;
      } in
      let request = update_body_size made_message in
      let func_handler = StringHash.find (observed ++ observerappendstring) st.observer_func_hash in
      elim (make_invocation-cases env observed bytes st) [
        | inl (ok, e) ↦
            rw (ok, e)
              (from-Weighs (of_id g) _ st (numbered st)
                (invoke_made q env copy observed bytes (length bytes)
                  ((pos 0, made_message), numbered st))
                refl
                (if-Weighs (of_id g) (g (next_id st)) _ (numbered st) (func_handler == 0) _ _
                  (λ unknown.
                    same-Weighs (of_id g) (g (next_id st)) (numbered st)
                      (Observer.empty_of observed st.observer_connect_hash) _ _
                      (λ empty. release_with-Weighs (of_id g) (pos 0) request (numbered st))
                      (λ others. insert_sender_node-Weighs (of_id g) q env request (numbered st)))
                  (λ known.
                    local_work-Weighs q env copy observed bytes
                      (Message.set_handler func_handler request) (numbered st))))
        | inr (failed, (m, i, e)) ↦
            rw (failed, e)
              (from-Weighs (of_id g) (g (next_id st)) st (numbered st)
                (done (negsuc 0, delete_message m (numbered st))) refl
                (delete_message-Weighs (negsuc 0) m (next_id st) (numbered st) i))
      ]

  invoke_observer-Weighs :
      (q : SendList L) (env copy : Env) (observed bytes : List ℕ) (st : Core L)
      → Weighs
          (of_id g)
          (invocation_weight env observed bytes st)
          st
          (invoke_observer q env copy observed bytes (length bytes) st)
  unfolding invoke_observer invocation_weight
  invoke_observer-Weighs q env copy observed bytes st =
      elim (Option-cases (Observer.find observed st.observer_connect_hash)) [
        | inl e ↦
            rw (e, invoke_observer, invocation_weight)
              (if-Weighs (of_id g) 0 0 st st.run_state (done (negsuc 0, st)) (done (negsuc 1, st))
                (λ runs. omega arith) (λ stopped. omega arith))
        | inr (fds, e) ↦
            rw (e, invoke_observer, invocation_weight)
              (if-Weighs (of_id g) (first_weight env observed bytes st) 0 st st.run_state
                (make_invocation env observed bytes (length bytes) st
                  >>= invoke_made q env copy observed bytes (length bytes))
                (done (negsuc 1, st)) (λ runs. first-Weighs q env copy observed bytes st)
                (λ stopped. omega arith))
      ]

  -- invokeObserver returns on every branch. Of the message objects that it makes as many are
  -- released, queued or given to the thread pool as are made, less one if `lost_invocation` says
  -- that addWork did not take the first. Told by their IDs, which are consecutive, the objects that
  -- are released or given away are: the first, unless addWork does not take it, and, if this
  -- process observes the object and the list of the other observers is not empty, the second, each
  -- once. None is if the core does not run or the object is not known. (A weight of IDs is any
  -- function: the sum over the objects released or given away, before and after.)
  pub invoke_observer_lem :
      (q : SendList L) (env copy : Env) (observed bytes : List ℕ) (st : Core L)
      → (code : ℤ) × (st' : Core L) × (invoke_observer q env copy observed bytes (length bytes) st
          ≡ done (code, st'))
        × (made_count st'.trace + ended_count st.trace
            ≡ lost_invocation env observed bytes st + (made_count st.trace + ended_count st'.trace))
        × (weight (of_id g) st'.trace
            ≡ invocation_weight env observed bytes st + weight (of_id g) st.trace)
  invoke_observer_lem q env copy observed bytes st =
      let h = invoke_observer-Ends q env copy observed bytes st in
      (
        h.code,
        h.state,
        h.returns,
        omega (arith, h.balance),
        rw h.returns at (invoke_observer-Weighs q env copy observed bytes st),
      )
