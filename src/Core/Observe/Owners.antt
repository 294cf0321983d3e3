-- ===== src/Core/Observe/Owners.antt =====
-- invokeObserver against the count of message objects.
use y_rpc.Common.{
  ℕ, ◌%◌, ◌^◌, suc, ◌≡◌, refl, ◌≢◌, Run, Bool, true, false, List, [], ◌∷◌, ◌++◌, length, ◌==◌,
  Option-cases, Bool-cases, ◌⊎◌, inl, inr, none, some, ℤ, pos, negsuc, is_zero, done, ◌>>=◌,
  if◌then◌else◌, arith,
}
use y_rpc.Message
use y_rpc.Message.{Message, null, freed, malloc_body_data, update_body_size}
use y_rpc.Message.Wire.{holding, malloc_body_data-holding}
use y_rpc.StringHash
use y_rpc.Observer
use y_rpc.Core.{SendList, Core, Env, made, added_work, note, observerappendstring}
use y_rpc.Core.Queue.{get_frame_id}
use y_rpc.Core.Reply.{delete_message}
use y_rpc.Core.Observe.{
  invoke_request, make_invocation, add_local_work, queue_invocation, invoke_made, invoke_observer,
}
use y_rpc.Core.Receive.Balance.{done-Ends}
use y_rpc.Core.Receive.Ledger.{
  made_count, ended_count, Ends, release_with-Ends, insert_sender_node-Ends, dropped-Ends, if-Ends,
  if-Ends-lost,
}

-- The state behind `new Message` and getFrameID
unfoldable pub numbered : {L : Type 0} → Core L → Core L
unfolding get_frame_id
numbered st = (get_frame_id (note made st)).1

-- The ID that the next message gets, in its field of 32 bits
unfoldable pub next_id : {L : Type 0} → Core L → ℕ
next_id st = st.frame_id % 2 ^ 32

-- The invocation with its data
unfoldable pub invocation : {L : Type 0} → List ℕ → List ℕ → Core L → Message
unfolding invoke_request
invocation observed bytes st = update_body_size (record (invoke_request st.frame_id observed st) {
  user_data = holding bytes;
  user_data_len = length bytes;
})

holding-IsLive : (bytes : List ℕ) → holding bytes ≢ freed
holding-IsLive [] = λ e. cc
holding-IsLive (c ∷ cs) = λ e. cc

-- mallocBodyData has its block: malloc gave one, or none is needed.
unfoldable pub has_block : Env → List ℕ → Bool
has_block env [] = true
has_block env (c ∷ cs) = env.malloc_body

module _ {L : Type 0} where
  numbered-Ends :
      {a b : ℕ} (st : Core L) (r : Run (ℤ × Core L))
      → Ends (suc a) b (numbered st) r
      → Ends a b st r
  unfolding numbered get_frame_id made_count ended_count
  numbered-Ends st r e = record {
    code = e.code;
    state = e.state;
    returns = e.returns;
    balance = omega (arith, e.balance);
  }

  delete_message-Ends :
      (code : ℤ) (m : Message) (st : Core L) → Ends 1 0 st (done (code, delete_message m st))
  unfolding delete_message made_count ended_count
  delete_message-Ends code m st = record {
    code = code;
    state = _;
    returns = refl;
    balance = omega arith;
  }

  pub make_invocation-cases :
      (env : Env) (observed bytes : List ℕ) (st : Core L)
      → ((has_block env bytes ≡ true)
          × (make_invocation env observed bytes (length bytes) st
              ≡ done (
                (
                  pos 0,
                  record (invoke_request st.frame_id observed st) {
                    user_data = holding bytes;
                    user_data_len = length bytes;
                  },
                ),
                numbered st,
              )))
        ⊎ ((has_block env bytes ≡ false)
            × ((m : Message) × (m.message_head.message_id ≡ next_id st)
                × (make_invocation env observed bytes (length bytes) st
                    ≡ done ((negsuc 0, m), numbered st))))
  unfolding has_block make_invocation numbered get_frame_id malloc_body_data next_id invoke_request
      Message.set_body_head Message.init_observer_invoke_message
  make_invocation-cases env observed [] st = inl (refl, refl)
  make_invocation-cases env observed (c ∷ cs) st = elim (Bool-cases env.malloc_body) [
    | inl ok ↦ inl (
      ok,
      rw (ok, malloc_body_data-holding (c ∷ cs) (invoke_request st.frame_id observed st)) refl,
    )
    | inr failed ↦ inr (
      failed,
      (record (invoke_request st.frame_id observed st) { user_data = null }, refl, rw failed refl),
    )
  ]

  queue_invocation-Ends :
      (q : SendList L) (env : Env) (observed bytes : List ℕ) (st : Core L)
      → Ends 0 0 st
          (make_invocation env observed bytes (length bytes) st >>= queue_invocation q env)
  unfolding queue_invocation update_body_size
  queue_invocation-Ends q env observed bytes st =
      elim (make_invocation-cases env observed bytes st) [
        | inl (ok, e) ↦ rw e (
            numbered-Ends st _
              (insert_sender_node-Ends q env _ (numbered st) (holding-IsLive bytes)))
        | inr (failed, (m, i, e)) ↦
            rw e (numbered-Ends st _ (delete_message-Ends (negsuc 0) m (numbered st)))
      ]

  added-Ends :
      {a b : ℕ} (m : Message) (st : Core L) (r : Run (ℤ × Core L))
      → Ends a b (note (added_work m) st) r
      → Ends (suc a) b st r
  unfolding made_count ended_count
  added-Ends m st r e = record {
    code = e.code;
    state = e.state;
    returns = e.returns;
    balance = omega (arith, e.balance);
  }

  -- The one message object that invokeObserver can lose: its own handler's, when addWork fails
  unfoldable pub lost_invocation : Env → List ℕ → List ℕ → Core L → ℕ
  lost_invocation env observed bytes st =
      if st.run_state
      then (elim (Observer.find observed st.observer_connect_hash) [
        | none ↦ 0
        | some fds ↦
            if has_block env bytes
            then (if StringHash.find (observed ++ observerappendstring) st.observer_func_hash == 0
                then 0
                else (if is_zero env.add_work then 0 else 1))
            else 0
      ])
      else 0

  add_local_work-Ends :
      (q : SendList L) (env copy : Env) (observed bytes : List ℕ) (m : Message) (st : Core L)
      → Ends 1 (if is_zero env.add_work then 0 else 1) st (
          if Observer.empty_of observed (add_local_work env m st).observer_connect_hash
          then done (pos 0, add_local_work env m st)
          else make_invocation copy observed bytes (length bytes) (add_local_work env m st)
            >>= queue_invocation q copy)
  unfolding add_local_work made_count ended_count
  add_local_work-Ends q env copy observed bytes m st = elim (Bool-cases (is_zero env.add_work)) [
    | inl ok ↦ rw ok (
        added-Ends m st _ (
          if-Ends (note (added_work m) st) _ _ _ (done-Ends _ _)
            (queue_invocation-Ends q copy observed bytes _)))
    | inr failed ↦ rw failed (
        dropped-Ends st _
          (if-Ends st _ _ _ (done-Ends _ _) (queue_invocation-Ends q copy observed bytes st)))
  ]

  invoke_made-Ends :
      (q : SendList L) (env copy : Env) (observed bytes : List ℕ) (st : Core L)
      → Ends 0
          (if has_block env bytes
            then (if StringHash.find (observed ++ observerappendstring) st.observer_func_hash == 0
                then 0
                else (if is_zero env.add_work then 0 else 1))
            else 0)
          st
          (make_invocation env observed bytes (length bytes) st
            >>= invoke_made q env copy observed bytes (length bytes))
  unfolding invoke_made numbered get_frame_id update_body_size Message.set_handler
  invoke_made-Ends q env copy observed bytes st =
      let live = holding-IsLive bytes in
      elim (make_invocation-cases env observed bytes st) [
        | inl (ok, e) ↦
            rw (ok, e)
              (numbered-Ends st _ (
                if-Ends-lost (numbered st)
                  (StringHash.find (observed ++ observerappendstring) st.observer_func_hash == 0) _
                  _
                  (if-Ends (numbered st) (Observer.empty_of observed st.observer_connect_hash) _ _
                    (release_with-Ends (pos 0) _ (numbered st) live)
                    (insert_sender_node-Ends q env _ (numbered st) live))
                  (add_local_work-Ends q env copy observed bytes _ (numbered st))))
        | inr (failed, (m, i, e)) ↦
            rw (failed, e) (numbered-Ends st _ (delete_message-Ends (negsuc 0) m (numbered st)))
      ]

  -- invokeObserver returns on every branch, and as many message objects are released, queued or given
  -- to the thread pool as are made, less the one that addWork did not take.
  pub invoke_observer-Ends :
      (q : SendList L) (env copy : Env) (observed bytes : List ℕ) (st : Core L)
      → Ends 0
          (lost_invocation env observed bytes st)
          st
          (invoke_observer q env copy observed bytes (length bytes) st)
  unfolding invoke_observer lost_invocation
  invoke_observer-Ends q env copy observed bytes st =
      elim (Option-cases (Observer.find observed st.observer_connect_hash)) [
        | inl e ↦
            rw (e, invoke_observer, lost_invocation)
              (if-Ends-lost st st.run_state _ _ (done-Ends _ st) (done-Ends _ st))
        | inr (fds, e) ↦
            rw (e, invoke_observer, lost_invocation)
              (if-Ends-lost st st.run_state _ _ (invoke_made-Ends q env copy observed bytes st)
                (done-Ends _ st))
      ]
