-- ===== src/Driver/Read.antt =====
-- libevent/comm_driver.cpp: what comm_read_handler hands to the callback.
use y_rpc.Common.{
  ℕ, zero, suc, ◌+◌, ◌-◌, ◌%◌, ◌^◌, ◌≤◌, ◌<◌, ◌≡◌, refl, ap, ◌∙◌, true, false, All, List, [], ◌∷◌,
  ◌++◌, length, take, drop, ltb, ◌==◌, Run, done, fault, out_of_fuel, ◌>>=◌, if◌then◌else◌, arith,
}
use y_rpc.Driver.{Driver, comm_event_recv, raise, read_chunks, comm_read_handler}

-- The pieces that the reads take off the front
unfoldable pub pieces : List ℕ → List ℕ → List (List ℕ)
pieces [] input = []
pieces (n ∷ sizes) input = take n input ∷ pieces sizes (drop n input)

unfoldable pub flatten : List (List ℕ) → List ℕ
flatten [] = []
flatten (xs ∷ xss) = xs ++ flatten xss

unfoldable pub sum : List ℕ → ℕ
sum [] = 0
sum (n ∷ ns) = n + sum ns

take-drop : (n : ℕ) (xs : List ℕ) → take n xs ++ drop n xs ≡ xs
take-drop zero xs = refl
take-drop (suc n) [] = refl
take-drop (suc n) (x ∷ xs) = ap (◌∷◌ x) (take-drop n xs)

length-drop : (n : ℕ) (xs : List ℕ) → length (drop n xs) ≡ length xs - n
length-drop zero xs = omega arith
length-drop (suc n) [] = omega arith
length-drop (suc n) (x ∷ xs) = omega (arith, length-drop n xs)

length-take : (n : ℕ) (xs : List ℕ) → n ≤ length xs → length (take n xs) ≡ n
length-take zero xs h = refl
length-take (suc n) [] h = absurd (omega arith)
length-take (suc n) (x ∷ xs) h = ap suc (length-take n xs (omega arith))

flatten-pieces :
    (sizes input : List ℕ) → sum sizes ≡ length input → flatten (pieces sizes input) ≡ input
unfolding flatten pieces sum
flatten-pieces [] [] e = refl
flatten-pieces [] (x ∷ xs) e = absurd (omega arith)
flatten-pieces (n ∷ sizes) input e =
    ap (λ (t : List ℕ). take n input ++ t)
      (flatten-pieces sizes (drop n input) (omega (arith, length-drop n input)))
    ∙ take-drop n input

module _ {S : Type 0} (handler : ℕ → ℕ → List ℕ → ℕ → S → Run S) where
  -- The callback on one piece after the other, with its length
  unfoldable pub deliver : ℕ → List (List ℕ) → S → Run S
  deliver bev [] client = done client
  deliver bev (piece ∷ rest) client =
      handler comm_event_recv bev piece (length piece) client >>= deliver bev rest

  step-bind :
      (m : Run S) (f : S → Run (Driver S)) (g : S → Run S) (d : Driver S)
      → ((c : S) → f c ≡ (g c >>= λ c'. done (record d { client = c' })))
      → (m >>= f) ≡ ((m >>= g) >>= λ c'. done (record d { client = c' }))
  step-bind (done c) f g d h = h c
  step-bind fault f g d h = refl
  step-bind out_of_fuel f g d h = refl

  bind_assoc :
      (m : Run S) (d : Driver S) (f : Driver S → Run (Driver S))
      → ((m >>= λ c. done (record d { client = c })) >>= f)
        ≡ (m >>= λ c. f (record d { client = c }))
  bind_assoc (done c) d f = refl
  bind_assoc fault d f = refl
  bind_assoc out_of_fuel d f = refl

  raised :
      (bev n : ℕ) (piece : List ℕ) (d : Driver S)
      → d.has_handler ≡ true
      → 0 < n
      → (if ltb 0 n then raise handler comm_event_recv bev piece n d else done d)
        ≡ (handler comm_event_recv bev piece n d.client >>= λ c. done (record d { client = c }))
  raised bev n piece d set pos_n = let test : ltb 0 n ≡ true = ground arith in rw test (simp set)

  -- What is left behind a read of at most all the bytes
  one_read :
      (bev n : ℕ) (sizes input : List ℕ) (d : Driver S)
      → d.has_handler ≡ true
      → 0 < n
      → n ≤ length input
      → length input < 2 ^ 64
      → read_chunks handler bev (n ∷ sizes) (length input) input d ≡ (
          handler comm_event_recv bev (take n input) (length (take n input)) d.client >>= λ c.
          if length (drop n input) == 0
          then done (record d { client = c })
          else read_chunks handler bev sizes
              (length (drop n input))
              (drop n input)
              (record d { client = c }))
  unfolding read_chunks
  one_read bev n sizes input d set pos_n within fits =
      let left : (length input + 2 ^ 64 - n) % 2 ^ 64 ≡ length (drop n input) =
        omega (arith, length-drop n input) in
      rw (raised bev n (take n input) d set pos_n, left, length-take n input within)
        (bind_assoc (handler comm_event_recv bev (take n input) n d.client) d _)

  read_chunks-deliver :
      (bev n : ℕ) (sizes more input : List ℕ) (d : Driver S)
      → d.has_handler ≡ true
      → All (λ (k : ℕ). 0 < k) (n ∷ sizes)
      → sum (n ∷ sizes) ≡ length input
      → length input < 2 ^ 64
      → read_chunks handler bev ((n ∷ sizes) ++ more) (length input) input d ≡ (
          deliver bev (pieces (n ∷ sizes) input) d.client >>= λ client'.
          done (record d { client = client' }))
  unfolding deliver pieces sum
  read_chunks-deliver bev n [] more input d set (pos_n, all) e fits =
      let empty : (length (drop n input) == 0) ≡ true = ground (arith, length-drop n input) in
      one_read bev n more input d set pos_n (omega arith) fits
      ∙ step-bind (handler comm_event_recv bev (take n input) (length (take n input)) d.client) _
          (deliver bev []) d (λ c. rw empty refl)
  read_chunks-deliver bev n (k ∷ sizes) more input d set (pos_n, (pos_k, all)) e fits =
      let e' : sum (k ∷ sizes) ≡ length (drop n input) = omega (arith, length-drop n input) in
      let some_left : (length (drop n input) == 0) ≡ false = ground arith in
      one_read bev n ((k ∷ sizes) ++ more) input d set pos_n (omega arith) fits
      ∙ step-bind (handler comm_event_recv bev (take n input) (length (take n input)) d.client) _
          (deliver bev (pieces (k ∷ sizes) (drop n input))) d
          (λ c. rw some_left (
            read_chunks-deliver bev k sizes more (drop n input) (record d { client = c }) set
              (pos_k, all) e' (omega (arith, length-drop n input))))

  -- When the handler is set and the successive reads, each of at least one byte, return together
  -- all the bytes that were there, fewer than 2 ^ 64 and at least one, comm_read_handler ends with
  -- the last of them, without another read. It calls the handler once for each read, with the piece
  -- that it got, and the pieces make up the bytes in their order.
  pub comm_read_handler-deliver :
      (bev n : ℕ) (sizes more input : List ℕ) (d : Driver S)
      → d.has_handler ≡ true
      → All (λ (k : ℕ). 0 < k) (n ∷ sizes)
      → sum (n ∷ sizes) ≡ length input
      → length input < 2 ^ 64
      → (comm_read_handler handler bev ((n ∷ sizes) ++ more) input d ≡ (
          deliver bev (pieces (n ∷ sizes) input) d.client >>= λ client'.
          done (record d { client = client' })))
        × (flatten (pieces (n ∷ sizes) input) ≡ input)
  unfolding comm_read_handler sum
  comm_read_handler-deliver bev n sizes more input d set all e fits =
      let total : n + sum sizes ≡ length input = e in
      let some_came : (length input == 0) ≡ false = let pos_n = all.0 in ground arith in
      (
        rw some_came (read_chunks-deliver bev n sizes more input d set all e fits),
        flatten-pieces (n ∷ sizes) input e,
      )
