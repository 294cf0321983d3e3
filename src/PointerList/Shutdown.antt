-- ===== src/PointerList/Shutdown.antt =====
-- The shutdown loop over the connected processes.
use y_rpc.Common.{
  ℕ, suc, ◌≤◌, ◌<◌, ◌≡◌, ◌≢◌, refl, List, [], ◌∷◌, length, done, fault, ◌>>=◌, arith,
}
use y_rpc.PointerList.{
  PointerList, Iterator, at, size, begin, next, advance, remove, remove_nodes, disconnect_all,
  disconnect_connections,
}
use y_rpc.PointerList.Laws.{Fresh, IsValid, Fresh-remove_nodes}

-- A step from a node that is gone is a fault.
advance-Fresh : (i : ℕ) (ns : List (ℕ × ℕ)) → Fresh i ns → advance (at i) ns ≡ fault
unfolding advance
advance-Fresh i [] f = refl
advance-Fresh i (n ∷ ns) f = ground (arith, advance-Fresh i ns f.1)

-- A later round, with the iterator at a node that is gone.
later_round_faults :
    (rounds i : ℕ) (l : PointerList)
    → l.it ≡ at i
    → Fresh i l.nodes
    → 1 < size l
    → disconnect_all (suc rounds) 1 l ≡ fault
unfolding disconnect_all next size
later_round_faults rounds i l e f two = rw (e, advance-Fresh i l.nodes f) (ground arith)

begin_first :
    (i fd n : ℕ) (ns : List (ℕ × ℕ)) (it : Iterator)
    → begin (record { nodes = (i, fd) ∷ ns; next_node = n; it = it })
      ≡ done (fd, record { nodes = (i, fd) ∷ ns; next_node = n; it = at i })
unfolding begin
begin_first i fd n ns it = ground arith

remove_first : (i fd : ℕ) (ns : List (ℕ × ℕ)) → remove_nodes fd ((i, fd) ∷ ns) ≡ remove_nodes fd ns
unfolding remove_nodes
remove_first i fd ns = ground arith

-- The first round, with a node that the iterator is at and that is removed.
first_round :
    (rounds i fd n : ℕ) (ns : List (ℕ × ℕ)) (it : Iterator)
    → disconnect_all (suc rounds) 0 (record { nodes = (i, fd) ∷ ns; next_node = n; it = it }) ≡ (
        disconnect_all rounds 1 (record { nodes = remove_nodes fd ns; next_node = n; it = at i })
        >>= λ rest. done (fd ∷ rest.0, rest.1))
unfolding disconnect_all size remove
first_round rounds i fd n ns it = rw (begin_first i fd n ns it, remove_first i fd ns) (ground arith)

-- In a list whose nodes are pairwise different, if at least two of the connections behind the first
-- are other ones than it, the shutdown loop steps from an iterator whose node it has removed.
pub disconnect_connections_fault :
    (i fd n : ℕ) (ns : List (ℕ × ℕ)) (it : Iterator)
    → IsValid (record { nodes = (i, fd) ∷ ns; next_node = n; it = it })
    → 2 ≤ length (remove_nodes fd ns)
    → disconnect_connections (record { nodes = (i, fd) ∷ ns; next_node = n; it = it }) ≡ fault
unfolding disconnect_connections size
disconnect_connections_fault i fd n [] it v two = absurd (unfold remove_nodes in omega arith)
disconnect_connections_fault i fd n (m ∷ ns) it v two = rw (
  first_round (suc (length ns)) i fd n (m ∷ ns) it,
  later_round_faults (length ns) i
      (record { nodes = remove_nodes fd (m ∷ ns); next_node = n; it = at i }) refl
      (Fresh-remove_nodes i fd (m ∷ ns) v.1) two,
)

remove_other : (j fd fd' : ℕ) → fd' ≢ fd → remove_nodes fd ((j, fd') ∷ []) ≡ (j, fd') ∷ []
unfolding remove_nodes
remove_other j fd fd' d = ground arith

-- With exactly two connections the loop disconnects the first and leaves the second connected.
pub disconnect_connections_two :
    (i j fd fd' n : ℕ) (it : Iterator)
    → fd' ≢ fd
    → disconnect_connections (record { nodes = (i, fd) ∷ (j, fd') ∷ []; next_node = n; it = it })
      ≡ done (fd ∷ [], record { nodes = (j, fd') ∷ []; next_node = n; it = at i })
unfolding disconnect_connections size
disconnect_connections_two i j fd fd' n it d =
    rw (first_round 1 i fd n ((j, fd') ∷ []) it, remove_other j fd fd' d)
      (unfold disconnect_all size in refl)
