-- ===== src/Container/Laws.antt =====
-- The laws of lookup, insertion and removal in a std::map.
use y_rpc.Common.{◌≡◌, refl, true, [], ◌∷◌, none, some, arith, if◌then◌else◌}
use y_rpc.Container.{Map, lookup, put, erase, Above, IsSorted}
use y_rpc.Container.Order.{Key, same_key}

module _ {ℓ} {K : Type ℓ} ⦃key : Key K⦄ where
  pub same_key_refl : (a : K) → same_key a a ≡ true
  same_key_refl a = ground (arith, key.key_lt_irrefl a)

  pub same_key→eq : (a b : K) → same_key a b ≡ true → a ≡ b
  same_key→eq a b h = ground (arith, key.key_lt_antisymm a b)

module _ {ℓ} {K V : Type ℓ} ⦃key : Key K⦄ where
  -- A lookup after `m[k] = v` sees the new value at `k` and the old ones elsewhere.
  pub lookup-put :
      (q k : K) (v : V) (m : Map K V)
      → lookup q (put k v m) ≡ (if same_key q k then some v else lookup q m)
  unfolding lookup put
  lookup-put q k v [] = refl
  lookup-put q k v ((j, w) ∷ m) = ground (
    arith,
    lookup-put q k v m,
    key.key_lt_antisymm q k,
    key.key_lt_antisymm q j,
    key.key_lt_antisymm j k,
    key.key_lt_irrefl k,
    key.key_lt_irrefl j,
  )

  put-Above :
      (j k : K) (v : V) (m : Map K V) → key.key_lt j k ≡ true → Above j m → Above j (put k v m)
  unfolding put
  put-Above j k v [] h a = (h, tt)
  put-Above j k v ((i, w) ∷ m) h a = ground (arith, put-Above j k v m h a.1)

  pub Above-trans : (j k : K) (m : Map K V) → key.key_lt j k ≡ true → Above k m → Above j m
  Above-trans j k [] h a = tt
  Above-trans j k ((i, w) ∷ m) h a = (key.key_lt_trans j k i h a.0, Above-trans j k m h a.1)

  pub put-IsSorted : (k : K) (v : V) (m : Map K V) → IsSorted m → IsSorted (put k v m)
  unfolding put
  put-IsSorted k v [] s = (tt, tt)
  put-IsSorted k v ((j, w) ∷ m) s =
      ground (arith, Above-trans k j m, put-IsSorted k v m s.1, put-Above j k v m)

  erase-Above : (j k : K) (m : Map K V) → Above j m → Above j (erase k m)
  unfolding erase
  erase-Above j k [] a = tt
  erase-Above j k ((i, w) ∷ m) a = ground (arith, erase-Above j k m a.1)

  pub erase-IsSorted : (k : K) (m : Map K V) → IsSorted m → IsSorted (erase k m)
  unfolding erase
  erase-IsSorted k [] s = tt
  erase-IsSorted k ((j, w) ∷ m) s = ground (arith, erase-IsSorted k m s.1, erase-Above j k m s.0)

  pub lookup-Above : (k : K) (m : Map K V) → Above k m → lookup k m ≡ none
  unfolding lookup
  lookup-Above k [] a = refl
  lookup-Above k ((j, w) ∷ m) a = ground (arith, lookup-Above k m a.1)

  -- A lookup after the removal of `k` misses `k` and sees the old values elsewhere.
  pub lookup-erase :
      (q k : K) (m : Map K V)
      → IsSorted m
      → lookup q (erase k m) ≡ (if same_key q k then none else lookup q m)
  unfolding lookup erase
  lookup-erase q k [] s = ground arith
  lookup-erase q k ((j, w) ∷ m) s = ground (
    arith,
    lookup-erase q k m s.1,
    lookup-Above j m s.0,
    key.key_lt_antisymm q k,
    key.key_lt_antisymm k j,
    key.key_lt_antisymm q j,
    key.key_lt_irrefl q,
    key.key_lt_irrefl k,
  )
