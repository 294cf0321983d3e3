-- ===== src/Core/Observe/Register.antt =====
-- How registerObserver and unregisterObserver end.
use y_rpc.Common.{
  ℕ, ◌≡◌, refl, Bool, true, false, List, ◌∷◌, ◌++◌, none, some, pos, done, if◌then◌else◌,
}
use y_rpc.Container.{lookup, IsSorted}
use y_rpc.Container.Order.{uint_key, string_key}
use y_rpc.Message.{Message}
use y_rpc.Hash
use y_rpc.Hash.Laws.{Writes, insert-Writes, remove-Writes}
use y_rpc.StringHash
use y_rpc.Core.{Core, released, note, observerappendstring}
use y_rpc.Core.Receive.Ledger.{IsLive}
use y_rpc.Core.Call.Outcome.{release_rpc_message-IsLive}
use y_rpc.Core.Observe.{change_observer, settle_observer, register_observer_end}

module _ {L : Type 0} where
  -- The state behind the answer to a registration
  registered : ℕ → List ℕ → ℕ → Bool → Core L → Core L
  unfolding change_observer
  registered frame observed func flag st =
      change_observer observed func flag
        (record st { proxy_hash = Hash.remove frame st.proxy_hash })

  registered-Writes :
      (frame : ℕ) (observed : List ℕ) (func : ℕ) (flag : Bool) (st : Core L)
      → IsSorted st.observer_func_hash
      → (flag ≡ true → lookup (observed ++ observerappendstring) st.observer_func_hash ≡ none)
      → Writes st.observer_func_hash
          (observed ++ observerappendstring)
          (if flag then some func else none)
          (registered frame observed func flag st).observer_func_hash
  unfolding registered change_observer StringHash.insert StringHash.remove
  registered-Writes frame observed func true st sorted free =
      insert-Writes (observed ++ observerappendstring) func st.observer_func_hash sorted (free refl)
  registered-Writes frame observed func false st sorted free =
      remove-Writes (observed ++ observerappendstring) st.observer_func_hash sorted

  -- When the wait of a registration ends with an answer, whatever the status in its head is, the
  -- result is 0 and the observer's function stands in the ordered table where none did, or is taken
  -- out of it at the end of a registration; the ID is free and the answer, whose body is not freed
  -- yet, is released.
  pub register_observer_end-answered :
      (proxy frame : ℕ) (observed : List ℕ) (func : ℕ) (flag : Bool) (m : Message) (st : Core L)
      → IsSorted st.proxy_hash
      → IsSorted st.observer_func_hash
      → (flag ≡ true → lookup (observed ++ observerappendstring) st.observer_func_hash ≡ none)
      → st.responses proxy ≡ some m
      → IsLive m
      → (st' : Core L) × (register_observer_end proxy frame (pos 0) observed func flag st
          ≡ done (pos 0, st'))
        × Writes st.observer_func_hash
            (observed ++ observerappendstring)
            (if flag then some func else none)
            st'.observer_func_hash
        × Writes st.proxy_hash frame none st'.proxy_hash
        × (st'.trace ≡ released m ∷ st.trace)
  unfolding register_observer_end settle_observer registered change_observer
  register_observer_end-answered proxy frame observed func flag m st numbered sorted free came
        live =
      let after = registered frame observed func flag st in
      (
        note (released m) after,
        simp (came, release_rpc_message-IsLive m after live),
        registered-Writes frame observed func flag st sorted free,
        remove-Writes frame st.proxy_hash numbered,
        refl,
      )
