-- ===== src/Container/Order.antt =====
-- The order of the keys of a std::map, and the two orders that the program uses: of numbers, and of
-- strings by their bytes.
use y_rpc.Common.{ℕ, ◌≡◌, refl, Bool, true, false, not, ◌&&◌, ◌||◌, List, [], ◌∷◌, ltb, ◌==◌, arith}

pub record Key {ℓ} (K : Type ℓ) : Type ℓ where
  pub key_lt : K → K → Bool
  pub key_lt_irrefl : (a : K) → key_lt a a ≡ false
  pub key_lt_trans : (a b c : K) → key_lt a b ≡ true → key_lt b c ≡ true → key_lt a c ≡ true
  pub key_lt_antisymm : (a b : K) → key_lt a b ≡ false → key_lt b a ≡ false → a ≡ b

-- std::map takes keys for equal if neither is less than the other.
abbrev pub same_key {ℓ} : {K : Type ℓ} ⦃key : Key K⦄ → K → K → Bool
same_key ⦃key⦄ a b = not (key.key_lt a b) && not (key.key_lt b a)

pub uint_lt_irrefl : (a : ℕ) → ltb a a ≡ false
uint_lt_irrefl a = ground arith

pub uint_lt_trans : (a b c : ℕ) → ltb a b ≡ true → ltb b c ≡ true → ltb a c ≡ true
uint_lt_trans a b c p q = ground arith

pub uint_lt_antisymm : (a b : ℕ) → ltb a b ≡ false → ltb b a ≡ false → a ≡ b
uint_lt_antisymm a b p q = ground arith

instance abbrev pub uint_key : Key ℕ
uint_key = record {
  key_lt = ltb;
  key_lt_irrefl = uint_lt_irrefl;
  key_lt_trans = uint_lt_trans;
  key_lt_antisymm = uint_lt_antisymm;
}

-- `operator<` of std::string
abbrev pub string_lt : List ℕ → List ℕ → Bool
string_lt [] [] = false
string_lt [] (d ∷ ds) = true
string_lt (c ∷ cs) [] = false
string_lt (c ∷ cs) (d ∷ ds) = ltb c d || (c == d && string_lt cs ds)

pub string_lt_irrefl : (a : List ℕ) → string_lt a a ≡ false
string_lt_irrefl [] = refl
string_lt_irrefl (c ∷ cs) = ground (arith, string_lt_irrefl cs)

pub string_lt_trans :
    (a b c : List ℕ) → string_lt a b ≡ true → string_lt b c ≡ true → string_lt a c ≡ true
string_lt_trans [] [] c p q = cc
string_lt_trans [] (y ∷ ys) [] p q = cc
string_lt_trans [] (y ∷ ys) (z ∷ zs) p q = refl
string_lt_trans (x ∷ xs) [] c p q = cc
string_lt_trans (x ∷ xs) (y ∷ ys) [] p q = cc
string_lt_trans (x ∷ xs) (y ∷ ys) (z ∷ zs) p q = ground (arith, string_lt_trans xs ys zs)

pub string_lt_antisymm : (a b : List ℕ) → string_lt a b ≡ false → string_lt b a ≡ false → a ≡ b
string_lt_antisymm [] [] p q = refl
string_lt_antisymm [] (y ∷ ys) p q = cc
string_lt_antisymm (x ∷ xs) [] p q = cc
string_lt_antisymm (x ∷ xs) (y ∷ ys) p q = ground (arith, string_lt_antisymm xs ys)

instance abbrev pub string_key : Key (List ℕ)
string_key = record {
  key_lt = string_lt;
  key_lt_irrefl = string_lt_irrefl;
  key_lt_trans = string_lt_trans;
  key_lt_antisymm = string_lt_antisymm;
}
