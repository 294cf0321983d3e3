-- ===== src/Hash.antt =====
-- data_structure/uint_hash.h and uint_hash.cpp: the class UINTHash, over any ordered keys, so that
-- StringHash.antt reads the same operations at string keys. A `void *` is an address, 0 for NULL.
-- Every operation holds the class's lock from its first to its last access to the map, so it is one
-- step; the member `it` is set again before each use and is left out.
pub mod Laws
use y_rpc.Common.{
  ℕ, Bool, true, false, List, [], ◌∷◌, length, ◌==◌, Option, none, some, ℤ, pos, negsuc,
  if◌then◌else◌,
}
use y_rpc.Container.{Map, lookup, put, erase}
use y_rpc.Container.Order.{Key}

abbrev pub Hash : Type 0 → Type 0
Hash K = Map K ℕ

-- The constructor and `clear`
unfoldable pub clear : {K : Type 0} → Hash K → Hash K
clear m = []

unfoldable pub size : {K : Type 0} → Hash K → ℕ
size m = length m

unfoldable pub empty : {K : Type 0} → Hash K → Bool
empty [] = true
empty (e ∷ m) = false

-- The loop of `remove(void *value)`: the key of the first entry with the value
unfoldable pub first_key : {K : Type 0} → ℕ → Hash K → Option K
first_key value [] = none
first_key value ((k, v) ∷ m) = if value == v then some k else first_key value m

module _ {K : Type 0} ⦃key : Key K⦄ where
  unfoldable pub find : K → Hash K → ℕ
  find k m = elim (lookup k m) [ none ↦ 0 | some value ↦ value ]

  unfoldable pub remove : K → Hash K → Hash K
  remove k m = elim (lookup k m) [ none ↦ m | some value ↦ erase k m ]

  unfoldable pub remove_value : ℕ → Hash K → Hash K
  remove_value value m = elim (first_key value m) [ none ↦ m | some k ↦ erase k m ]

  unfoldable pub insert : K → ℕ → Hash K → ℤ × Hash K
  insert k value m = elim (lookup k m) [ some old ↦ (pos 1, m) | none ↦ (pos 0, put k value m) ]

  unfoldable pub change : K → ℕ → Hash K → ℤ × Hash K
  change k value m = elim (lookup k m) [ none ↦ (negsuc 0, m) | some old ↦ (pos 0, put k value m) ]
