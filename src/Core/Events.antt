-- ===== src/Core/Events.antt =====
-- rpc_core.cpp: commEventHandler, and the public operations that touch the tables alone.
pub mod Tables
use y_rpc.Common.{
  ℕ, zero, suc, Bool, true, false, not, List, [], ◌∷◌, ◌==◌, Option, none, some, ℤ, pos, negsuc,
  Run, done, ◌>>=◌, if◌then◌else◌,
}
use y_rpc.StringHash
use y_rpc.Observer
use y_rpc.PointerList
use y_rpc.Core.{SendList, Core, Env}
use y_rpc.Core.Receive.{analyse_receive_data}
use y_rpc.Driver.{comm_event_recv, comm_event_connect, comm_event_disconnect}

-- COMMEventDisconnect
unfoldable pub disconnected : {Head : Type 0} → ℕ → ℕ → Core Head → Core Head
disconnected fdp len st = record st {
  process_connect_list =
      if len == 1
      then (PointerList.remove fdp st.process_connect_list).1
      else st.process_connect_list;
  process_connect_hash = StringHash.remove_value fdp st.process_connect_hash;
  observer_connect_hash = Observer.remove_everywhere fdp st.observer_connect_hash;
}

unfoldable pub comm_event_handler :
    {Head : Type 0} → SendList Head → Env → ℕ → ℕ → List ℕ → ℕ → Core Head → Run (ℤ × Core Head)
unfolding disconnected
comm_event_handler q env type fdp data_ptr len st =
    if type == comm_event_recv
    then (if len == 0
        then done (pos 0, st)
        else (analyse_receive_data q env fdp data_ptr len st >>= λ analysed.
            done (pos 0, analysed.1)))
    else (if type == comm_event_connect
        then done (
          pos 0,
          record st {
            process_connect_list =
                if len == 1
                then (PointerList.insert fdp st.process_connect_list).1
                else st.process_connect_list;
          },
        )
        else (if type == comm_event_disconnect
            then done (pos 0, disconnected fdp len st)
            else done (pos 0, st)))

-- `service.empty()`
abbrev pub is_empty : List ℕ → Bool
is_empty [] = true
is_empty (c ∷ cs) = false

unfoldable pub register_service : {Head : Type 0} → List ℕ → ℕ → Core Head → ℤ × Core Head
register_service service func st =
    let inserted = StringHash.insert service func st.service_func_hash in
    if is_empty service
    then (negsuc 0, st)
    else (inserted.0, record st { service_func_hash = inserted.1 })

unfoldable pub unregister_service : {Head : Type 0} → List ℕ → Core Head → ℤ × Core Head
unregister_service service st =
    (pos 0, record st { service_func_hash = StringHash.remove service st.service_func_hash })

unfoldable pub create_observed : {Head : Type 0} → List ℕ → Core Head → ℤ × Core Head
create_observed observed st =
    let inserted = Observer.insert observed st.observer_connect_hash in
    if is_empty observed
    then (negsuc 0, st)
    else elim (Observer.find observed st.observer_connect_hash) [
      | some fds ↦ (pos 1, st)
      | none ↦ (inserted.0, record st { observer_connect_hash = inserted.1 })
    ]

unfoldable pub destroy_observed : {Head : Type 0} → List ℕ → Core Head → ℤ × Core Head
destroy_observed observed st =
    (pos 0, record st { observer_connect_hash = Observer.remove observed st.observer_connect_hash })
