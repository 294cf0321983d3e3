-- ===== src/PointerList/Laws.antt =====
-- The identities of the nodes, and what the operations do to the addresses.
use y_rpc.Common.{
  ℕ, suc, ◌+◌, ◌<◌, ◌≡◌, ◌≢◌, ◌⊎◌, inl, inr, refl, List, [], ◌∷◌, ◌++◌, ◌==◌, pos, arith,
  if◌then◌else◌, Bool-cases,
}
use y_rpc.PointerList.{PointerList, at, end, find, find_node, insert, remove, remove_nodes}

-- No node has the identity.
abbrev pub Fresh : ℕ → List (ℕ × ℕ) → Type 0
Fresh i [] = Unit
Fresh i (n ∷ ns) = (n.0 ≢ i) × Fresh i ns

-- The identities are pairwise different and below `bound`.
abbrev pub Distinct : ℕ → List (ℕ × ℕ) → Type 0
Distinct bound [] = Unit
Distinct bound (n ∷ ns) = (n.0 < bound) × Fresh n.0 ns × Distinct bound ns

abbrev pub IsValid : PointerList → Type 0
IsValid l = Distinct l.next_node l.nodes

-- How often the list holds an address.
unfoldable pub count : ℕ → List (ℕ × ℕ) → ℕ
count addr [] = 0
count addr (n ∷ ns) = if n.1 == addr then suc (count addr ns) else count addr ns

Fresh-snoc :
    (i j addr : ℕ) (ns : List (ℕ × ℕ)) → Fresh i ns → j ≢ i → Fresh i (ns ++ ((j, addr) ∷ []))
Fresh-snoc i j addr [] f d = (d, tt)
Fresh-snoc i j addr (n ∷ ns) f d = (f.0, Fresh-snoc i j addr ns f.1 d)

Distinct-snoc :
    (bound addr : ℕ) (ns : List (ℕ × ℕ))
    → Distinct bound ns
    → Distinct (bound + 1) (ns ++ ((bound, addr) ∷ []))
Distinct-snoc bound addr [] d = (omega arith, tt, tt)
Distinct-snoc bound addr (n ∷ ns) d =
    (omega arith, Fresh-snoc n.0 bound addr ns d.1 (omega arith), Distinct-snoc bound addr ns d.2)

pub Fresh-remove_nodes :
    (i addr : ℕ) (ns : List (ℕ × ℕ)) → Fresh i ns → Fresh i (remove_nodes addr ns)
unfolding remove_nodes
Fresh-remove_nodes i addr [] f = tt
Fresh-remove_nodes i addr (n ∷ ns) f = ground (arith, Fresh-remove_nodes i addr ns f.1)

Distinct-remove_nodes :
    (bound addr : ℕ) (ns : List (ℕ × ℕ)) → Distinct bound ns → Distinct bound (remove_nodes addr ns)
unfolding remove_nodes
Distinct-remove_nodes bound addr [] d = tt
Distinct-remove_nodes bound addr (n ∷ ns) d =
    ground (arith, Fresh-remove_nodes n.0 addr ns d.1, Distinct-remove_nodes bound addr ns d.2)

count-snoc :
    (q i addr : ℕ) (ns : List (ℕ × ℕ))
    → count q (ns ++ ((i, addr) ∷ [])) ≡ (if addr == q then suc (count q ns) else count q ns)
unfolding count
count-snoc q i addr [] = refl
count-snoc q i addr (n ∷ ns) = ground (arith, count-snoc q i addr ns)

count-remove_nodes :
    (q addr : ℕ) (ns : List (ℕ × ℕ))
    → count q (remove_nodes addr ns) ≡ (if addr == q then 0 else count q ns)
unfolding count remove_nodes
count-remove_nodes q addr [] = ground arith
count-remove_nodes q addr (n ∷ ns) = ground (arith, count-remove_nodes q addr ns)

-- In a list whose nodes are pairwise different, `insert` adds one occurrence of the address and
-- `remove` takes out all of them; both return 0, leave the occurrences of the other addresses as
-- they were, and keep the identities of the nodes pairwise different.
pub count-insert-remove :
    (addr : ℕ) (l : PointerList)
    → IsValid l
    → ((insert addr l).0 ≡ pos 0)
      × IsValid (insert addr l).1
      × ((q : ℕ)
          → count q (insert addr l).1.nodes
            ≡ (if addr == q then suc (count q l.nodes) else count q l.nodes))
      × ((remove addr l).0 ≡ pos 0)
      × IsValid (remove addr l).1
      × ((q : ℕ) → count q (remove addr l).1.nodes ≡ (if addr == q then 0 else count q l.nodes))
unfolding insert remove
count-insert-remove addr l v = (
  refl,
  Distinct-snoc l.next_node addr l.nodes v,
  λ q. count-snoc q l.next_node addr l.nodes,
  refl,
  Distinct-remove_nodes l.next_node addr l.nodes v,
  λ q. count-remove_nodes q addr l.nodes,
)

find_node_lem :
    (addr : ℕ) (ns : List (ℕ × ℕ))
    → ((i : ℕ) × (find_node addr ns ≡ at i) × (0 < count addr ns))
      ⊎ ((find_node addr ns ≡ end) × (count addr ns ≡ 0))
unfolding find_node count
find_node_lem addr [] = inr (refl, refl)
find_node_lem addr (n ∷ ns) = elim (Bool-cases (addr == n.1)) [
  | inl here ↦ inl (n.0, rw here, ground arith)
  | inr other ↦ elim (find_node_lem addr ns) [
    | inl (i, e, held) ↦ inl (i, rw (other, e), ground arith)
    | inr (e, missing) ↦ inr (rw (other, e), ground arith)
  ]
]

-- `find` returns the address if the list holds it, and NULL if not.
pub find_lem :
    (addr : ℕ) (l : PointerList)
    → ((find addr l).0 ≡ addr) × (0 < count addr l.nodes)
      ⊎ ((find addr l).0 ≡ 0) × (count addr l.nodes ≡ 0)
unfolding find
find_lem addr l = elim (find_node_lem addr l.nodes) [
  | inl (i, e, held) ↦ inl (rw (e, find), held)
  | inr (e, missing) ↦ inr (rw (e, find), missing)
]
