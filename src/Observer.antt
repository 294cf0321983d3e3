-- ===== src/Observer.antt =====
-- rpc_observer.h and rpc_observer.cpp: the class ObserverHash, a std::map from the name of an
-- observed object to the list of the connections that observe it. The list that a value points to
-- is held by this map alone, so the pointer is modelled by the list. Each operation holds the
-- class's lock over its accesses; `new` fails by an exception, so its NULL test never succeeds.
pub mod Laws
use y_rpc.Common.{
  ℕ, zero, suc, Bool, true, false, List, [], ◌∷◌, ◌++◌, length, ◌==◌, Option, none, some, ℤ, pos,
  negsuc, if◌then◌else◌,
}
use y_rpc.Container.{Map, lookup, put, erase}
use y_rpc.Container.Order.{string_key}

abbrev pub ObserverHash : Type 0
ObserverHash = Map (List ℕ) (List ℕ)

-- `list::remove`: every element that is equal
unfoldable pub remove_all : ℕ → List ℕ → List ℕ
remove_all fdp [] = []
remove_all fdp (x ∷ xs) = if x == fdp then remove_all fdp xs else x ∷ remove_all fdp xs

unfoldable pub size : ObserverHash → ℕ
size m = length m

-- `size(key)`
unfoldable pub size_of : List ℕ → ObserverHash → ℕ
size_of key m = elim (lookup key m) [ none ↦ 0 | some fds ↦ length fds ]

unfoldable pub clear : ObserverHash → ObserverHash
clear m = []

unfoldable pub empty : ObserverHash → Bool
empty [] = true
empty (e ∷ m) = false

abbrev pub is_empty : List ℕ → Bool
is_empty [] = true
is_empty (x ∷ xs) = false

-- `empty(key)`
unfoldable pub empty_of : List ℕ → ObserverHash → Bool
empty_of key m = elim (lookup key m) [ none ↦ true | some fds ↦ is_empty fds ]

-- `find`: the list, or none for NULL
unfoldable pub find : List ℕ → ObserverHash → Option (List ℕ)
find key m = lookup key m

-- `remove(key)`
unfoldable pub remove : List ℕ → ObserverHash → ObserverHash
remove key m = elim (lookup key m) [ none ↦ m | some fds ↦ erase key m ]

-- `insert(key)`
unfoldable pub insert : List ℕ → ObserverHash → ℤ × ObserverHash
insert key m = elim (lookup key m) [ some fds ↦ (pos 1, m) | none ↦ (pos 0, put key [] m) ]

-- `remove(key, fdp)`, which changes the list in place
unfoldable pub remove_fd : List ℕ → ℕ → ObserverHash → ObserverHash
remove_fd key fdp m = elim (lookup key m) [ none ↦ m | some fds ↦ put key (remove_all fdp fds) m ]

-- `insert(key, fdp)`
unfoldable pub insert_fd : List ℕ → ℕ → ObserverHash → ℤ × ObserverHash
insert_fd key fdp m = elim (lookup key m) [
  | none ↦ (negsuc 0, m)
  | some fds ↦ (pos 0, put key (fds ++ (fdp ∷ [])) m)
]

-- `remove(fdp)`: the loop over all lists
unfoldable pub remove_everywhere : ℕ → ObserverHash → ObserverHash
remove_everywhere fdp [] = []
remove_everywhere fdp ((key, fds) ∷ m) = (key, remove_all fdp fds) ∷ remove_everywhere fdp m
