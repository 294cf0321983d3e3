-- ===== src/Hash/Laws.antt =====
-- The hash classes against the partial map that they stand for, `λ q. lookup q m`.
use y_rpc.Common.{
  ℕ, ◌≡◌, ◌≢◌, ◌⊎◌, inl, inr, true, [], ◌∷◌, ◌==◌, Option, none, some, Option-cases, Bool-cases,
  pos, negsuc, arith, if◌then◌else◌,
}
use y_rpc.Container.{lookup, IsSorted}
use y_rpc.Container.Order.{Key, same_key}
use y_rpc.Container.Laws.{
  same_key_refl, same_key→eq, Above-trans, lookup-put, put-IsSorted, lookup-erase, erase-IsSorted,
  lookup-Above,
}
use y_rpc.Hash.{Hash, first_key, find, remove, remove_value, insert, change}

module _ {K : Type 0} ⦃key : Key K⦄ where
  -- What an operation that returned `code` and the map `m'` did at the key `k`.
  pub record Writes (m : Hash K) (k : K) (value : Option ℕ) (m' : Hash K) : Type 0 where
    pub sorted : IsSorted m'
    pub view : (q : K) → lookup q m' ≡ (if same_key q k then value else lookup q m)

  -- `insert` stores the value under a key that is not there, and refuses one that is.
  abbrev pub Inserts : K → ℕ → Hash K → Type 0
  Inserts k value m =
      ((lookup k m ≡ none)
        × ((insert k value m).0 ≡ pos 0)
        × Writes m k (some value) (insert k value m).1)
      ⊎ ((old : ℕ) × (lookup k m ≡ some old) × (insert k value m ≡ (pos 1, m)))

  -- `change` replaces the value of a key that is there, and refuses one that is not.
  abbrev pub Changes : K → ℕ → Hash K → Type 0
  Changes k value m =
      ((lookup k m ≡ none) × (change k value m ≡ (negsuc 0, m)))
      ⊎ ((old : ℕ) × (lookup k m ≡ some old)
          × ((change k value m).0 ≡ pos 0)
          × Writes m k (some value) (change k value m).1)

  insert_lem : (k : K) (value : ℕ) (m : Hash K) → IsSorted m → Inserts k value m
  unfolding insert
  insert_lem k value m s = elim (Option-cases (lookup k m)) [
    | inl e ↦ inl (
      e,
      rw (e, insert),
      rw (e, insert)
          (record { sorted = put-IsSorted k value m s; view = λ q. lookup-put q k value m }),
    )
    | inr (old, e) ↦ inr (old, e, rw (e, insert))
  ]

  -- The table after `insert` of a key that is not there.
  pub insert-Writes :
      (k : K) (value : ℕ) (m : Hash K)
      → IsSorted m
      → lookup k m ≡ none
      → Writes m k (some value) (insert k value m).1
  unfolding insert
  insert-Writes k value m s e =
      rw (e, insert)
        (record { sorted = put-IsSorted k value m s; view = λ q. lookup-put q k value m })

  change_lem : (k : K) (value : ℕ) (m : Hash K) → IsSorted m → Changes k value m
  unfolding change
  change_lem k value m s = elim (Option-cases (lookup k m)) [
    | inl e ↦ inl (e, rw (e, change))
    | inr (old, e) ↦ inr (
      old,
      e,
      rw (e, change),
      rw (e, change)
          (record { sorted = put-IsSorted k value m s; view = λ q. lookup-put q k value m }),
    )
  ]

  absent_view :
      (q k : K) (m : Hash K)
      → lookup k m ≡ none
      → lookup q m ≡ (if same_key q k then none else lookup q m)
  absent_view q k m e = elim (Bool-cases (same_key q k)) [
    | inl same ↦ rw same (rw (same_key→eq q k same) e)
    | inr other ↦ rw other
  ]

  pub remove-Writes : (k : K) (m : Hash K) → IsSorted m → Writes m k none (remove k m)
  unfolding remove
  remove-Writes k m s = elim (Option-cases (lookup k m)) [
    | inl e ↦ rw (e, remove) (record { sorted = s; view = λ q. absent_view q k m e })
    | inr (old, e) ↦
        rw (e, remove) (record { sorted = erase-IsSorted k m s; view = λ q. lookup-erase q k m s })
  ]

  -- In a table in the order of its keys, which all three keep: `insert` stores the value under a
  -- key that is not there and returns 0, and returns 1 and changes nothing if the key is there;
  -- `change` replaces the value of a key that is there and returns 0, and returns -1 and changes
  -- nothing if it is not there; `remove` leaves no value under the key. Every other value stays as
  -- it was.
  pub insert-change-remove :
      (k : K) (value : ℕ) (m : Hash K)
      → IsSorted m
      → Inserts k value m × Changes k value m × Writes m k none (remove k m)
  insert-change-remove k value m s =
      (insert_lem k value m s, change_lem k value m s, remove-Writes k m s)

  -- `find` returns the value that is stored, NULL for none.
  pub find-view :
      (q k : K) (value : ℕ) (m m' : Hash K)
      → Writes m k (some value) m'
      → find q m' ≡ (if same_key q k then value else find q m)
  unfolding find
  find-view q k value m m' w = ground (arith, w.view q)

  -- `remove` and then `insert` put the value in, whatever was there, and no other value changes.
  pub find-replace :
      (q k : K) (value : ℕ) (m : Hash K)
      → IsSorted m
      → find q (insert k value (remove k m)).1 ≡ (if same_key q k then value else find q m)
  find-replace q k value m s =
      let removed = remove-Writes k m s in
      let gone : lookup k (remove k m) ≡ none = rw (removed.view k, same_key_refl k) in
      let written = insert-Writes k value (remove k m) removed.sorted gone in
      unfold find in ground (arith, written.view q, removed.view q)

  first_key-none :
      (value : ℕ) (m : Hash K) → first_key value m ≡ none → (q : K) → lookup q m ≢ some value
  unfolding first_key lookup
  first_key-none value [] e q = λ p. cc
  first_key-none value ((j, v) ∷ m) e q =
      ground (arith, λ (h : first_key value m ≡ none). first_key-none value m h q)

  lookup_below :
      (q j : K) (v : ℕ) (m : Hash K)
      → IsSorted ((j, v) ∷ m)
      → key.key_lt q j ≡ true
      → lookup q ((j, v) ∷ m) ≡ none
  lookup_below q j v m s lt = lookup-Above q ((j, v) ∷ m) (lt, Above-trans q j m lt s.0)

  -- No key below the one that the loop stops at holds the value.
  first_key-some :
      (value : ℕ) (m : Hash K) (k : K)
      → IsSorted m
      → first_key value m ≡ some k
      → (lookup k m ≡ some value) × ((q : K) → key.key_lt q k ≡ true → lookup q m ≢ some value)
  unfolding first_key lookup
  first_key-some value [] k s e = cc
  first_key-some value ((j, v) ∷ m) k s e = elim (Bool-cases (value == v)) [
    | inl here ↦
        let same : k ≡ j = ground arith in
        rw same (ground (arith, key.key_lt_irrefl j), λ q lt p. cc (p, lookup_below q j v m s lt))
    | inr later ↦
        let found : first_key value m ≡ some k = ground arith in
        let (held, least) = first_key-some value m k s.1 found in
        (
          ground (arith, held, lookup-Above j m s.0, key.key_lt_antisymm k j),
          λ q lt. ground (arith, least q),
        )
  ]

  -- In a table in the order of its keys, `remove` by value takes out the entry with the least key
  -- that holds the value, and that entry alone; without such an entry it changes nothing.
  pub remove_value_lem :
      (value : ℕ) (m : Hash K)
      → IsSorted m
      → (((q : K) → lookup q m ≢ some value) × (remove_value value m ≡ m))
        ⊎ ((k : K) × (lookup k m ≡ some value)
            × ((q : K) → key.key_lt q k ≡ true → lookup q m ≢ some value)
            × Writes m k none (remove_value value m))
  unfolding remove_value
  remove_value_lem value m s = elim (Option-cases (first_key value m)) [
    | inl e ↦ inl (first_key-none value m e, rw (e, remove_value))
    | inr (k, e) ↦
        let (held, least) = first_key-some value m k s e in
        inr (
          k,
          held,
          least,
          rw (e, remove_value)
              (record { sorted = erase-IsSorted k m s; view = λ q. lookup-erase q k m s }),
        )
  ]
