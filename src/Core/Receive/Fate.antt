-- ===== src/Core/Receive/Fate.antt =====
-- Which message objects the handlers release or give away, weighed by any number that a message
-- has.
use y_rpc.Common.{
  ℕ, ◌+◌, ◌≡◌, refl, sym, Bool, true, false, List, [], ◌∷◌, ◌==◌, ℤ, negsuc, is_zero, Run, done,
  fault, out_of_fuel, some, ◌>>=◌, Holds, bind-Holds, bind-Holds-all, by_if, if◌then◌else◌, arith,
}
use y_rpc.Container.Order.{uint_key}
use y_rpc.Message.{Message, release_body_data}
use y_rpc.Hash
use y_rpc.Core.{SendList, Core, Env, Effect, released, added_work, delivered, queued, note}
use y_rpc.Core.Queue.{release_rpc_message, insert_sender_node, wakeup_one_thread}
use y_rpc.Core.Reply.{release_with, handed_on}
use y_rpc.Core.Receive.{add_work}

-- The weight of all messages that were released or given to another owner
unfoldable pub weight : (Message → ℕ) → List Effect → ℕ
weight f [] = 0
weight f (released m ∷ es) = f m + weight f es
weight f (added_work m ∷ es) = f m + weight f es
weight f (delivered p m ∷ es) = f m + weight f es
weight f (queued m ∷ es) = f m + weight f es
weight f (e ∷ es) = weight f es

module _ {L : Type 0} (f : Message → ℕ) where
  -- What a handler adds to the weight, if it returns
  abbrev pub Weighs : ℕ → Core L → Run (ℤ × Core L) → Type 0
  Weighs w st r = Holds (λ (s : ℤ × Core L). weight f s.1.trace ≡ w + weight f st.trace) r

  pub release_with-Weighs :
      (c : ℤ) (m : Message) (st : Core L) → Weighs (f m) st (release_with c m st)
  unfolding release_with release_rpc_message weight
  release_with-Weighs c m st =
      bind-Holds (λ (st' : Core L). weight f st'.trace ≡ f m + weight f st.trace)
        (λ (s : ℤ × Core L). weight f s.1.trace ≡ f m + weight f st.trace)
        (release_rpc_message (some m) st) (λ st'. done (c, st'))
        (bind-Holds-all (λ (st' : Core L). weight f st'.trace ≡ f m + weight f st.trace)
          (release_body_data m) (λ gone. done (note (released m) st)) (λ gone. refl))
        (λ st' e. e)

  pub wakeup_one_thread-Weighs :
      (m : Message) (st : Core L) → Weighs (f m) st (handed_on m (wakeup_one_thread m st))
  unfolding wakeup_one_thread handed_on weight
  wakeup_one_thread-Weighs m st =
      by_if (λ (r : ℤ × Core L). Weighs (f m) st (handed_on m r))
        (Hash.find m.message_head.message_id st.proxy_hash == 0)
        (λ none_waits. release_with-Weighs (negsuc 0) m st) (λ one_waits. refl)

  pub insert_sender_node-Weighs :
      (q : SendList L) (env : Env) (m : Message) (st : Core L)
      → Weighs (f m) st (handed_on m (insert_sender_node q env m st))
  unfolding insert_sender_node handed_on weight
  insert_sender_node-Weighs q env m st =
      by_if (λ (r : ℤ × Core L). Weighs (f m) st (handed_on m r)) env.malloc_node (λ ok. refl)
        (λ failed. release_with-Weighs (negsuc 0) m st)

  pub add_work-Weighs :
      (env : Env) (m : Message) (st : Core L) → Weighs (f m) st (add_work env m st)
  unfolding add_work weight
  add_work-Weighs env m st =
      by_if (Weighs (f m) st) (is_zero env.add_work) (λ ok. refl)
        (λ failed. release_with-Weighs (negsuc 0) m st)

  then-Weighs :
      (a b : ℕ) (st : Core L) (r : Run (ℤ × Core L)) (s : ℤ × Core L)
      → Weighs b s.1 r
      → weight f s.1.trace ≡ a + weight f st.trace
      → Weighs (b + a) st r
  then-Weighs a b st (done s') s h e = omega (arith, h, e)
  then-Weighs a b st fault s h e = tt
  then-Weighs a b st out_of_fuel s h e = tt

  -- One handler after another
  pub bind-Weighs :
      (a b : ℕ) (st : Core L) (r : Run (ℤ × Core L)) (k : ℤ × Core L → Run (ℤ × Core L))
      → Weighs a st r
      → ((s : ℤ × Core L) → Weighs b s.1 (k s))
      → Weighs (b + a) st (r >>= k)
  bind-Weighs a b st r k first second =
      bind-Holds (λ (s : ℤ × Core L). weight f s.1.trace ≡ a + weight f st.trace)
        (λ (s : ℤ × Core L). weight f s.1.trace ≡ (b + a) + weight f st.trace) r k first
        (λ s e. then-Weighs a b st (k s) s (second s) e)

  -- What was done before may be forgotten if it added nothing.
  pub from-Weighs :
      (a : ℕ) (st st' : Core L) (r : Run (ℤ × Core L))
      → weight f st'.trace ≡ weight f st.trace
      → Weighs a st' r
      → Weighs a st r
  from-Weighs a st st' (done s) e h = omega (arith, h, e)
  from-Weighs a st st' fault e h = tt
  from-Weighs a st st' out_of_fuel e h = tt

  pub weigh-Weighs :
      (a b : ℕ) (st : Core L) (r : Run (ℤ × Core L)) → a ≡ b → Weighs a st r → Weighs b st r
  weigh-Weighs a b st r e h = rw (sym e) h

  pub if-Weighs :
      (a b : ℕ) (st : Core L) (test : Bool) (r r' : Run (ℤ × Core L))
      → (test ≡ true → Weighs a st r)
      → (test ≡ false → Weighs b st r')
      → Weighs (if test then a else b) st (if test then r else r')
  if-Weighs a b st true r r' held other = held refl
  if-Weighs a b st false r r' held other = other refl

  -- A message that weighs `a` and that only some of the branches keep
  pub dropped-Weighs :
      (a : ℕ) (st : Core L) (test gone gone' : Bool) (r r' : Run (ℤ × Core L))
      → (test ≡ true → Weighs (if gone then 0 else a) st r)
      → (test ≡ false → Weighs (if gone' then 0 else a) st r')
      → Weighs (if (if test then gone else gone') then 0 else a) st (if test then r else r')
  dropped-Weighs a st true gone gone' r r' held other = held refl
  dropped-Weighs a st false gone gone' r r' held other = other refl

  -- Both branches weigh the same.
  pub same-Weighs :
      (a : ℕ) (st : Core L) (test : Bool) (r r' : Run (ℤ × Core L))
      → (test ≡ true → Weighs a st r)
      → (test ≡ false → Weighs a st r')
      → Weighs a st (if test then r else r')
  same-Weighs a st true r r' held other = held refl
  same-Weighs a st false r r' held other = other refl
