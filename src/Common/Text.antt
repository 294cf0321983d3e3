-- ===== src/Common/Text.antt =====
-- Strings as the lists of their bytes.
use Prim.Native.Char.{code}
use Prim.Native.String.{String}
use Prim.Native.Nat.{ℕ}
use mathlib.Core.Path.{◌≡◌, refl}
use mathlib.Core.Bool.{Bool, true, false, ◌&&◌}
use mathlib.Core.List.{List, [], ◌∷◌}
use native.Mathlib.Omega.{arith}
use y_rpc.Common.Tests.{◌==◌}

-- The bytes of an ASCII literal.
abbrev pub bytes_of : String → List ℕ
bytes_of String.[] = []
bytes_of (String.◌∷◌ c s) = code c ∷ bytes_of s

-- `operator==` of std::string
unfoldable pub string_eq : List ℕ → List ℕ → Bool
string_eq [] [] = true
string_eq [] (d ∷ ds) = false
string_eq (c ∷ cs) [] = false
string_eq (c ∷ cs) (d ∷ ds) = c == d && string_eq cs ds

pub string_eq→eq : (a b : List ℕ) → string_eq a b ≡ true → a ≡ b
unfolding string_eq
string_eq→eq [] [] h = refl
string_eq→eq [] (d ∷ ds) h = cc
string_eq→eq (c ∷ cs) [] h = cc
string_eq→eq (c ∷ cs) (d ∷ ds) h = ground (arith, string_eq→eq cs ds)

pub string_eq_refl : (a : List ℕ) → string_eq a a ≡ true
unfolding string_eq
string_eq_refl [] = refl
string_eq_refl (c ∷ cs) = ground (arith, string_eq_refl cs)
