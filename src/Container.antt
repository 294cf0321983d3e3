-- ===== src/Container.antt =====
-- std::map, as the hash classes use it: an association list in the order of its keys, with the
-- key order of the element type. Container/Laws.antt has what the classes rely on.
pub mod Laws
pub mod Order
use y_rpc.Common.{
  ◌≡◌, ℕ, zero, suc, Bool, true, false, not, ◌&&◌, ◌||◌, List, [], ◌∷◌, Option, none, some,
  if◌then◌else◌,
}
use y_rpc.Container.Order.{Key, same_key}

abbrev pub Map {ℓ} : Type ℓ → Type ℓ → Type ℓ
Map K V = List (K × V)

module _ {ℓ} {K V : Type ℓ} ⦃key : Key K⦄ where
  -- `find`, and `it->second` unless `it` is the end
  unfoldable pub lookup : K → Map K V → Option V
  lookup k [] = none
  lookup k ((j, v) ∷ m) = if same_key k j then some v else lookup k m

  -- `m[k] = v`
  unfoldable pub put : K → V → Map K V → Map K V
  put k v [] = (k, v) ∷ []
  put k v ((j, w) ∷ m) =
      if key.key_lt k j
      then (k, v) ∷ (j, w) ∷ m
      else (if key.key_lt j k then (j, w) ∷ put k v m else (j, v) ∷ m)

  -- `erase` of the entry that `find` returns
  unfoldable pub erase : K → Map K V → Map K V
  erase k [] = []
  erase k ((j, w) ∷ m) = if same_key k j then m else (j, w) ∷ erase k m

  -- All keys lie behind `k`, and the keys of the map ascend.
  abbrev pub Above : K → Map K V → Type 0
  Above k [] = Unit {0}
  Above k ((j, w) ∷ m) = (key.key_lt k j ≡ true) × Above k m

  abbrev pub IsSorted : Map K V → Type 0
  IsSorted [] = Unit {0}
  IsSorted ((j, w) ∷ m) = Above j m × IsSorted m
