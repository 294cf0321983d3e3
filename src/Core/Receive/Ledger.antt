-- ===== src/Core/Receive/Ledger.antt =====
-- The message objects that the handler of received data makes, and where each of them ends.
use y_rpc.Common.{
  ℕ, suc, ◌+◌, ◌≡◌, ◌≢◌, refl, Bool, true, false, List, [], ◌∷◌, ◌==◌, Bool-cases, inl, inr, ℤ, pos,
  negsuc, is_zero, Run, done, ◌>>=◌, if◌then◌else◌, arith,
}
use y_rpc.Container.Order.{uint_key, string_key}
use y_rpc.Message.{
  Message, UserData, null, block, freed, malloc_body_data, release_body_data, update_body_size,
}
use y_rpc.Hash
use y_rpc.Core.{
  SendList, Core, Env, Effect, made, released, added_work, delivered, queued, sent, closed, note,
}
use y_rpc.Core.Queue.{release_rpc_message, insert_sender_node, wakeup_one_thread, set_response_of}
use y_rpc.Core.Reply.{release_with, handed_on, response_error_code_ack}
use y_rpc.Core.Receive.{add_work}

-- How many message objects were made.
unfoldable pub made_count : List Effect → ℕ
made_count [] = 0
made_count (made ∷ es) = suc (made_count es)
made_count (e ∷ es) = made_count es

-- How many were released or given to another owner.
unfoldable pub ended_count : List Effect → ℕ
ended_count [] = 0
ended_count (made ∷ es) = ended_count es
ended_count (sent fd bytes ∷ es) = ended_count es
ended_count (closed fd ∷ es) = ended_count es
ended_count (e ∷ es) = suc (ended_count es)

-- The body of the message was not freed yet.
abbrev pub IsLive : Message → Type 0
IsLive m = m.user_data ≢ freed

release_block :
    (u : UserData) (m : Message)
    → u ≢ freed
    → (gone : Message) × (release_body_data (record m { user_data = u }) ≡ done gone)
unfolding release_body_data
release_block null m live = (record m { user_data = null; user_data_len = 0 }, refl)
release_block (block bytes) m live = (record m { user_data = freed; user_data_len = 0 }, refl)
release_block freed m live = absurd (live refl)

pub release_body_data-IsLive :
    (m : Message) → IsLive m → (gone : Message) × (release_body_data m ≡ done gone)
release_body_data-IsLive m live = release_block m.user_data m live

module _ {L : Type 0} where
  -- A handler that owns `own` message objects and is started in `st` returns; of these and of those
  -- that it makes, `lost` have no owner afterwards.
  pub record Ends (own lost : ℕ) (st : Core L) (r : Run (ℤ × Core L)) : Type 0 where
    pub code : ℤ
    pub state : Core L
    pub returns : r ≡ done (code, state)
    pub balance :
        own + (made_count state.trace + ended_count st.trace)
        ≡ lost + (made_count st.trace + ended_count state.trace)

  pub release_with-Ends :
      (c : ℤ) (m : Message) (st : Core L) → IsLive m → Ends 1 0 st (release_with c m st)
  unfolding release_with release_rpc_message made_count ended_count
  release_with-Ends c m st live =
      let (gone, e) = release_body_data-IsLive m live in
      record { code = c; state = note (released m) st; returns = rw e; balance = omega arith }

  pub wakeup_one_thread-Ends :
      (m : Message) (st : Core L) → IsLive m → Ends 1 0 st (handed_on m (wakeup_one_thread m st))
  unfolding wakeup_one_thread handed_on release_with made_count ended_count
  wakeup_one_thread-Ends m st live =
      let proxy = Hash.find m.message_head.message_id st.proxy_hash in
      elim (Bool-cases (proxy == 0)) [
        | inl none_waits ↦
            rw (none_waits, wakeup_one_thread) (release_with-Ends (negsuc 0) m st live)
        | inr one_waits ↦
            rw (one_waits, wakeup_one_thread)
              (record {
                code = pos 0;
                state =
                    note (delivered proxy m)
                      (record st { responses = set_response_of proxy m st.responses });
                returns = refl;
                balance = omega arith;
              })
      ]

  pub insert_sender_node-Ends :
      (q : SendList L) (env : Env) (m : Message) (st : Core L)
      → IsLive m
      → Ends 1 0 st (handed_on m (insert_sender_node q env m st))
  unfolding insert_sender_node handed_on release_with made_count ended_count
  insert_sender_node-Ends q env m st live = elim (Bool-cases env.malloc_node) [
    | inl ok ↦ rw ok (record {
      code = pos 0;
      state = note (queued m) (record st { send_head = q.list_insert_head m st.send_head });
      returns = refl;
      balance = omega arith;
    })
    | inr failed ↦ rw failed (release_with-Ends (negsuc 0) m st live)
  ]

  -- One handler after another.
  pub bind-Ends :
      {a b a' b' : ℕ} (st : Core L) (r : Run (ℤ × Core L)) (k : ℤ × Core L → Run (ℤ × Core L))
      → Ends a b st r
      → ((c : ℤ) (st' : Core L) → Ends a' b' st' (k (c, st')))
      → Ends (a' + a) (b' + b) st (r >>= k)
  bind-Ends st r k first second =
      let next = second first.code first.state in
      record {
        code = next.code;
        state = next.state;
        returns = rw first.returns next.returns;
        balance = omega (arith, first.balance, next.balance);
      }

  pub weigh-Ends :
      {a b a' b' : ℕ} (st : Core L) (r : Run (ℤ × Core L))
      → a ≡ a'
      → b ≡ b'
      → Ends a b st r
      → Ends a' b' st r
  weigh-Ends st r e e' h = record {
    code = h.code;
    state = h.state;
    returns = h.returns;
    balance = omega (arith, h.balance);
  }

  -- An object that was made before the handler started.
  pub made-Ends :
      {a b : ℕ} (st : Core L) (r : Run (ℤ × Core L))
      → Ends (suc a) b (note made st) r
      → Ends a b st r
  unfolding made_count ended_count
  made-Ends st r e = record {
    code = e.code;
    state = e.state;
    returns = e.returns;
    balance = omega (arith, e.balance);
  }

  -- An object that the handler does not look at.
  pub dropped-Ends :
      {own lost : ℕ} (st : Core L) (r : Run (ℤ × Core L))
      → Ends own lost st r
      → Ends (suc own) (suc lost) st r
  dropped-Ends st r e = record {
    code = e.code;
    state = e.state;
    returns = e.returns;
    balance = omega (arith, e.balance);
  }

  pub add_work-Ends :
      (env : Env) (m : Message) (st : Core L) → IsLive m → Ends 1 0 st (add_work env m st)
  unfolding add_work made_count ended_count
  add_work-Ends env m st live = elim (Bool-cases (is_zero env.add_work)) [
    | inl ok ↦ rw ok (record {
      code = pos 0;
      state = note (added_work m) st;
      returns = refl;
      balance = omega arith;
    })
    | inr failed ↦ rw failed (release_with-Ends (negsuc 0) m st live)
  ]

  pub response_error_code_ack-Ends :
      (q : SendList L) (env : Env) (m : Message) (code : ℕ) (st : Core L)
      → Ends 0 0 st (response_error_code_ack q env m code st)
  unfolding response_error_code_ack malloc_body_data update_body_size
  response_error_code_ack-Ends q env m code st =
      made-Ends st _ (insert_sender_node-Ends q env _ (note made st) (λ e. cc))

  pub if-Ends :
      {own lost : ℕ} (st : Core L) (test : Bool) (r r' : Run (ℤ × Core L))
      → Ends own lost st r
      → Ends own lost st r'
      → Ends own lost st (if test then r else r')
  if-Ends st true r r' held other = held
  if-Ends st false r r' held other = other

  pub if-Ends-lost :
      {own a b : ℕ} (st : Core L) (test : Bool) (r r' : Run (ℤ × Core L))
      → Ends own a st r
      → Ends own b st r'
      → Ends own (if test then a else b) st (if test then r else r')
  if-Ends-lost st true r r' held other = held
  if-Ends-lost st false r r' held other = other
