-- ===== src/PointerList.antt =====
-- data_structure/pointer_list.h and pointer_list.cpp: the class PointerList, a std::list with an
-- iterator as a member. A node has an identity of its own, because an iterator stays valid for as
-- long as its node is in the list: to use it after the node was erased, or to read or step past the
-- end, is undefined in C++ and a fault here.
pub mod Laws
pub mod Shutdown
use y_rpc.Common.{
  ℕ, zero, suc, ◌+◌, Bool, true, false, List, [], ◌∷◌, ◌++◌, length, ◌==◌, ltb, Option, none, some,
  ℤ, pos, Run, done, fault, ◌>>=◌, if◌then◌else◌,
}

pub data Iterator : Type 0 where
  singular : Iterator
  at : ℕ → Iterator
  end : Iterator

-- `m_list` as its nodes, with the identity for the next node, and `it`
pub record PointerList : Type 0 where
  pub nodes : List (ℕ × ℕ)
  pub next_node : ℕ
  pub it : Iterator

-- The constructor
unfoldable pub new_list : PointerList
new_list = record { nodes = []; next_node = 0; it = singular }

unfoldable pub size : PointerList → ℕ
size l = length l.nodes

unfoldable pub clear : PointerList → PointerList
clear l = record l { nodes = [] }

unfoldable pub empty_nodes : List (ℕ × ℕ) → Bool
empty_nodes [] = true
empty_nodes (n ∷ ns) = false

unfoldable pub empty : PointerList → Bool
unfolding empty_nodes
empty l = empty_nodes l.nodes

abbrev pub first : List (ℕ × ℕ) → Iterator
first [] = end
first (n ∷ ns) = at n.0

-- `++it`
unfoldable pub advance_from : ℕ → List (ℕ × ℕ) → Run Iterator
advance_from i [] = fault
advance_from i (n ∷ ns) = if n.0 == i then done (first ns) else advance_from i ns

unfoldable pub advance : Iterator → List (ℕ × ℕ) → Run Iterator
unfolding advance_from
advance (at i) ns = advance_from i ns
advance other ns = fault

-- `*it`
unfoldable pub read_node : ℕ → List (ℕ × ℕ) → Run ℕ
read_node i [] = fault
read_node i (n ∷ ns) = if n.0 == i then done n.1 else read_node i ns

unfoldable pub deref : Iterator → List (ℕ × ℕ) → Run ℕ
unfolding read_node
deref (at i) ns = read_node i ns
deref other ns = fault

unfoldable pub begin : PointerList → Run (ℕ × PointerList)
unfolding deref
begin l = do addr ← deref (first l.nodes) l.nodes; done (addr, record l { it = first l.nodes })

unfoldable pub next : PointerList → Run (ℕ × PointerList)
unfolding advance deref
next l = do
  moved ← advance l.it l.nodes
  addr ← deref moved l.nodes
  done (addr, record l { it = moved })

unfoldable pub is_end : Iterator → Bool
is_end end = true
is_end (at i) = false
is_end singular = false

unfoldable pub has_next : PointerList → Run Bool
unfolding advance is_end
has_next l = do itp ← advance l.it l.nodes; done (if is_end itp then false else true)

-- The loop of `find`
unfoldable pub find_node : ℕ → List (ℕ × ℕ) → Iterator
find_node addr [] = end
find_node addr (n ∷ ns) = if addr == n.1 then at n.0 else find_node addr ns

-- `find`: NULL is 0
unfoldable pub find : ℕ → PointerList → ℕ × PointerList
find addr l = elim (find_node addr l.nodes) [
  | at i ↦ (addr, record l { it = at i })
  | other ↦ (0, record l { it = other })
]

unfoldable pub insert : ℕ → PointerList → ℤ × PointerList
insert addr l =
    (pos 0, record l { nodes = l.nodes ++ ((l.next_node, addr) ∷ []); next_node = l.next_node + 1 })

-- `list::remove`: every node that holds the address
unfoldable pub remove_nodes : ℕ → List (ℕ × ℕ) → List (ℕ × ℕ)
remove_nodes addr [] = []
remove_nodes addr (n ∷ ns) = if n.1 == addr then remove_nodes addr ns else n ∷ remove_nodes addr ns

unfoldable pub remove : ℕ → PointerList → ℤ × PointerList
remove addr l = (pos 0, record l { nodes = remove_nodes addr l.nodes })

-- The loop of runUntilAskedToQuit (rpc_core.cpp) over the connected processes:
--   for(int i = 0; i < size(); i++) { fdp = (0 == i) ? begin() : next(); disconnect(fdp); }
-- `disconnect` of a connection that is not NULL raises COMMEventDisconnect with length 1, and the
-- event handler removes it from this list. The loop takes one round for each `i` below the size, so
-- that the size at its start bounds the rounds. It gives the connections that were disconnected.
unfoldable pub disconnect_all : ℕ → ℕ → PointerList → Run (List ℕ × PointerList)
disconnect_all zero i l = done ([], l)
disconnect_all (suc rounds) i l =
    let fdp = (if i == 0 then begin l else next l) in
    let round = fdp >>= λ r.
    disconnect_all rounds (i + 1) (remove r.0 r.1).1 >>= λ rest. done (r.0 ∷ rest.0, rest.1) in
    if ltb i (size l) then round else done ([], l)

unfoldable pub disconnect_connections : PointerList → Run (List ℕ × PointerList)
disconnect_connections l = disconnect_all (size l) 0 l
