-- ===== src/Examples/Tables.antt =====
-- Small tables.
use y_rpc.Common.{
  ℕ, suc, ◌≡◌, ◌≢◌, ◌⊎◌, refl, true, [], ◌∷◌, ◌==◌, none, some, pos, done, fault, if◌then◌else◌,
  arith,
}
use y_rpc.Container.{lookup, erase, IsSorted}
use y_rpc.Container.Order.{uint_key, string_key}
use y_rpc.Hash.{Hash, first_key, remove, remove_value}
use y_rpc.Hash.Laws.{Writes, Inserts, Changes, insert-change-remove, remove_value_lem}
use y_rpc.PointerList
use y_rpc.PointerList.{PointerList, at, end, disconnect_connections, remove_nodes}
use y_rpc.PointerList.Laws as Pointers
use y_rpc.PointerList.Shutdown.{disconnect_connections_fault, disconnect_connections_two}

-- Frame IDs and the addresses of the proxies that wait for them
abbrev waiting : Hash ℕ
waiting = (3, 100) ∷ (8, 200) ∷ []

waiting-IsSorted : IsSorted waiting
waiting-IsSorted = ((refl, tt), (tt, tt))

insert-change-remove_example :
    Inserts 5 300 waiting × Changes 5 300 waiting × Writes waiting 5 none (remove 5 waiting)
insert-change-remove_example = insert-change-remove 5 300 waiting waiting-IsSorted

remove_value_lem_example :
    (((q : ℕ) → lookup q waiting ≢ some 200) × (remove_value 200 waiting ≡ waiting))
    ⊎ ((k : ℕ) × (lookup k waiting ≡ some 200)
        × ((q : ℕ) → uint_key.key_lt q k ≡ true → lookup q waiting ≢ some 200)
        × Writes waiting k none (remove_value 200 waiting))
remove_value_lem_example = remove_value_lem 200 waiting waiting-IsSorted

remove_value_runs : remove_value 200 waiting ≡ (3, 100) ∷ []
unfolding remove_value lookup first_key remove erase
remove_value_runs = refl

-- Connections: 10 and 11 once, 12 twice
abbrev connections : PointerList
connections = record { nodes = (0, 10) ∷ (1, 11) ∷ (2, 12) ∷ (3, 12) ∷ []; next_node = 4; it = end }

connections-IsValid : Pointers.IsValid connections
connections-IsValid = omega arith

count-insert-remove_example :
    ((PointerList.insert 12 connections).0 ≡ pos 0)
    × Pointers.IsValid (PointerList.insert 12 connections).1
    × ((q : ℕ)
        → Pointers.count q (PointerList.insert 12 connections).1.nodes ≡ (
            if 12 == q
            then suc (Pointers.count q connections.nodes)
            else Pointers.count q connections.nodes))
    × ((PointerList.remove 12 connections).0 ≡ pos 0)
    × Pointers.IsValid (PointerList.remove 12 connections).1
    × ((q : ℕ)
        → Pointers.count q (PointerList.remove 12 connections).1.nodes
          ≡ (if 12 == q then 0 else Pointers.count q connections.nodes))
count-insert-remove_example = Pointers.count-insert-remove 12 connections connections-IsValid

disconnect_connections_fault_example : disconnect_connections connections ≡ fault
disconnect_connections_fault_example =
    disconnect_connections_fault 0 10 4 ((1, 11) ∷ (2, 12) ∷ (3, 12) ∷ []) end connections-IsValid
      (unfold remove_nodes in omega arith)

disconnect_connections_two_example :
    disconnect_connections (record { nodes = (0, 10) ∷ (1, 11) ∷ []; next_node = 2; it = end })
    ≡ done (10 ∷ [], record { nodes = (1, 11) ∷ []; next_node = 2; it = at 0 })
disconnect_connections_two_example = disconnect_connections_two 0 1 10 11 2 end (omega arith)
