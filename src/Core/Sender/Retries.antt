-- ===== src/Core/Sender/Retries.antt =====
-- How often RPCCoreThread tries to connect for one message.
use y_rpc.Common.{
  ℕ, suc, ◌+◌, ◌≤◌, ◌≡◌, refl, Bool, false, All, List, [], ◌∷◌, ◌++◌, length, ℤ, is_zero, Run, done,
  ◌>>=◌, arith,
}
use y_rpc.Container.Order.{string_key, uint_key}
use y_rpc.Head.{TimeVal}
use y_rpc.Message.{Message}
use y_rpc.StringHash
use y_rpc.Core.{Core, released, note}
use y_rpc.Core.Receive.Ledger.{IsLive}
use y_rpc.Core.Call.Outcome.{release_rpc_message-IsLive}
use y_rpc.Core.Sender.{SenderPhase, idle, connecting, free_memory, sender_connect}

module _ {L : Type 0} (comm_tv : TimeVal) where
  -- The loop REPEAT_CONNECT on what connectToProcess answers, try by try, until another phase
  unfoldable pub sender_connects :
      List (ℤ × ℕ) → Bool → ℕ → SenderPhase × Core L → Run (SenderPhase × Core L)
  sender_connects [] init proxy (p, st) = done (p, st)
  sender_connects (attempt ∷ attempts) init proxy (connecting m count, st) =
      sender_connect comm_tv attempt init proxy m count st >>= sender_connects attempts init proxy
  sender_connects (attempt ∷ attempts) init proxy (p, st) = done (p, st)

  sender_connect-fails :
      (attempt : ℤ × ℕ) (init : Bool) (proxy : ℕ) (m : Message) (count : ℕ) (st : Core L)
      → StringHash.find m.body_head.recver st.process_connect_hash ≡ 0
      → is_zero attempt.0 ≡ false
      → suc count ≤ 3
      → sender_connect comm_tv attempt init proxy m count st ≡ done (connecting m (suc count), st)
  unfolding sender_connect
  sender_connect-fails attempt init proxy m count st absent fails room = ground arith

  sender_connect-gives_up :
      (attempt : ℤ × ℕ) (init : Bool) (proxy : ℕ) (m : Message) (st : Core L)
      → StringHash.find m.body_head.recver st.process_connect_hash ≡ 0
      → IsLive m
      → sender_connect comm_tv attempt init proxy m 3 st ≡ done (idle, note (released m) st)
  unfolding sender_connect free_memory
  sender_connect-gives_up attempt init proxy m st absent live =
      simp (absent, release_rpc_message-IsLive m st live)

  sender_connects-idle :
      (attempts : List (ℤ × ℕ)) (init : Bool) (proxy : ℕ) (st : Core L)
      → sender_connects attempts init proxy (idle, st) ≡ done (idle, st)
  unfolding sender_connects
  sender_connects-idle [] init proxy st = refl
  sender_connects-idle (attempt ∷ attempts) init proxy st = refl

  gives_up_from :
      (attempts rest : List (ℤ × ℕ)) (last : ℤ × ℕ) (init : Bool) (proxy : ℕ) (m : Message)
      (count : ℕ) (st : Core L)
      → StringHash.find m.body_head.recver st.process_connect_hash ≡ 0
      → IsLive m
      → All (λ (attempt : ℤ × ℕ). is_zero attempt.0 ≡ false) attempts
      → length attempts + count ≡ 3
      → sender_connects (attempts ++ (last ∷ rest)) init proxy (connecting m count, st)
        ≡ done (idle, note (released m) st)
  unfolding sender_connects
  gives_up_from [] rest last init proxy m count st absent live fail three =
      let tried : count ≡ 3 = omega (arith, three) in
      rw (tried, sender_connect-gives_up last init proxy m st absent live)
        (sender_connects-idle rest init proxy (note (released m) st))
  gives_up_from (attempt ∷ attempts) rest last init proxy m count st absent live (fails, fail)
        three =
      rw (sender_connect-fails attempt init proxy m count st absent fails (omega (arith, three))) (
        gives_up_from attempts rest last init proxy m (suc count) st absent live fail
          (omega (arith, three)))

  -- A message, not released yet, for a process that there is no connection to, when three tries to
  -- connect fail: at its next look the thread releases the message and goes on to the list. It
  -- changes nothing else and makes no other try, whatever further tries would answer.
  pub sender_connects-gives_up :
      (attempts rest : List (ℤ × ℕ)) (last : ℤ × ℕ) (init : Bool) (proxy : ℕ) (m : Message)
      (st : Core L)
      → StringHash.find m.body_head.recver st.process_connect_hash ≡ 0
      → IsLive m
      → All (λ (attempt : ℤ × ℕ). is_zero attempt.0 ≡ false) attempts
      → length attempts ≡ 3
      → sender_connects (attempts ++ (last ∷ rest)) init proxy (connecting m 0, st)
        ≡ done (idle, note (released m) st)
  sender_connects-gives_up attempts rest last init proxy m st absent live fail three =
      gives_up_from attempts rest last init proxy m 0 st absent live fail (omega (arith, three))
