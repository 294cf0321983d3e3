-- ===== src/StringHash.antt =====
-- data_structure/string_hash.h and string_hash.cpp: StringHash is UINTHash with strings for keys,
-- operation by operation.
use y_rpc.Common.{ℕ, Bool, List, ℤ}
use y_rpc.Container.Order.{string_key}
use y_rpc.Hash
use y_rpc.Hash.{Hash}

abbrev pub StringHash : Type 0
StringHash = Hash (List ℕ)

unfoldable pub clear : StringHash → StringHash
unfolding Hash.clear
clear = Hash.clear

unfoldable pub size : StringHash → ℕ
unfolding Hash.size
size = Hash.size

unfoldable pub empty : StringHash → Bool
unfolding Hash.empty
empty = Hash.empty

unfoldable pub find : List ℕ → StringHash → ℕ
unfolding Hash.find
find = Hash.find

unfoldable pub remove : List ℕ → StringHash → StringHash
unfolding Hash.remove
remove = Hash.remove

unfoldable pub remove_value : ℕ → StringHash → StringHash
unfolding Hash.remove_value
remove_value = Hash.remove_value

unfoldable pub insert : List ℕ → ℕ → StringHash → ℤ × StringHash
unfolding Hash.insert
insert = Hash.insert

unfoldable pub change : List ℕ → ℕ → StringHash → ℤ × StringHash
unfolding Hash.change
change = Hash.change
