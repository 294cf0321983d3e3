-- ===== src/Core/Events/Tables.antt =====
-- The tables after a connection was lost, and the table of services.
use y_rpc.Common.{
  ℕ, ◌≡◌, ◌≢◌, ◌⊎◌, refl, ap, true, List, ◌∷◌, ◌==◌, none, some, ℤ, pos, done, if◌then◌else◌, arith,
}
use mathlib.Core.Option
use y_rpc.Container.{lookup, IsSorted}
use y_rpc.Container.Order.{string_key, string_lt}
use y_rpc.Container.Laws.{same_key_refl}
use y_rpc.Hash
use y_rpc.Hash.Laws.{Writes, remove_value_lem, remove-Writes, insert-Writes}
use y_rpc.StringHash
use y_rpc.Observer.Laws.{observes, observes-remove_everywhere}
use y_rpc.PointerList.Laws.{IsValid, count, count-insert-remove}
use y_rpc.Core.{SendList, Core, Env}
use y_rpc.Driver.{comm_event_disconnect}
use y_rpc.Core.Events.{
  comm_event_disconnect, disconnected, comm_event_handler, register_service, unregister_service,
}

insert-absent :
    (k : List ℕ) (value : ℕ) (m : Hash.Hash (List ℕ))
    → lookup k m ≡ none
    → (Hash.insert k value m).0 ≡ pos 0
unfolding Hash.insert
insert-absent k value m e = rw (e, Hash.insert)

insert-present :
    (k : List ℕ) (old value : ℕ) (m : Hash.Hash (List ℕ))
    → lookup k m ≡ some old
    → Hash.insert k value m ≡ (pos 1, m)
unfolding Hash.insert
insert-present k old value m e = rw (e, Hash.insert)

module _ {L : Type 0} where
  -- When a connection of this process is lost, with the table of connections in order and a list of
  -- processes whose nodes are pairwise different, the handler returns 0; the connection stands in
  -- the list of processes no more and observes nothing, and of the processes that are known by it
  -- the first one is forgotten. Every other observation stays.
  pub comm_event_handler-disconnected :
      (q : SendList L) (env : Env) (fdp : ℕ) (bytes : List ℕ) (st : Core L)
      → IsSorted st.process_connect_hash
      → IsValid st.process_connect_list
      → (st' : Core L) × (comm_event_handler q env comm_event_disconnect fdp bytes 1 st
          ≡ done (pos 0, st'))
        × (count fdp st'.process_connect_list.nodes ≡ 0)
        × ((key : List ℕ) (fd : ℕ)
            → observes key fd st'.observer_connect_hash ≡ (
                if fd == fdp
                then Option.map (λ n. 0) (observes key fd st.observer_connect_hash)
                else observes key fd st.observer_connect_hash))
        × ((((p : List ℕ) → lookup p st.process_connect_hash ≢ some fdp)
              × (st'.process_connect_hash ≡ st.process_connect_hash))
            ⊎ ((p : List ℕ) × (lookup p st.process_connect_hash ≡ some fdp)
                × ((r : List ℕ)
                    → string_lt r p ≡ true
                    → lookup r st.process_connect_hash ≢ some fdp)
                × Writes st.process_connect_hash p none st'.process_connect_hash))
  unfolding comm_event_handler disconnected StringHash.remove_value
  comm_event_handler-disconnected q env fdp bytes st sorted valid =
      let (_, _, _, _, _, removed) = count-insert-remove fdp st.process_connect_list valid in
      (
        disconnected fdp 1 st,
        refl,
        ground (arith, removed fdp),
        λ key fd. observes-remove_everywhere key fd fdp st.observer_connect_hash,
        remove_value_lem fdp st.process_connect_hash sorted,
      )

  -- In a table in order, a service with a name that is not empty and not registered is found under
  -- its name after `registerService`; a second registration of the name returns 1 and changes
  -- nothing, whatever its handler is; and after `unregisterService` the service is not found any
  -- more.
  pub register_service_lem :
      (c : ℕ) (cs : List ℕ) (func other : ℕ) (st : Core L)
      → IsSorted st.service_func_hash
      → lookup (c ∷ cs) st.service_func_hash ≡ none
      → (let first = register_service (c ∷ cs) func st in
          (first.0 ≡ pos 0)
          × (StringHash.find (c ∷ cs) first.1.service_func_hash ≡ func)
          × (register_service (c ∷ cs) other first.1 ≡ (pos 1, first.1))
          × (StringHash.find (c ∷ cs) (unregister_service (c ∷ cs) first.1).1.service_func_hash
              ≡ 0))
  unfolding register_service unregister_service StringHash.insert StringHash.find StringHash.remove
      Hash.find
  register_service_lem c cs func other st sorted free =
      let service = c ∷ cs in
      let table = (Hash.insert service func st.service_func_hash).1 in
      let written = insert-Writes service func st.service_func_hash sorted free in
      let held : lookup service table ≡ some func =
        rw (written.view service, same_key_refl service) in
      let gone : lookup service (Hash.remove service table) ≡ none =
        rw ((remove-Writes service table written.sorted).view service, same_key_refl service) in
      (
        insert-absent service func st.service_func_hash free,
        ground (arith, held),
        ap (λ (r : ℤ × StringHash.StringHash). (r.0, record st { service_func_hash = r.1 }))
            (insert-present service func other table held),
        ground (arith, gone),
      )
