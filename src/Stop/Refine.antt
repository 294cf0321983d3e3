-- ===== src/Stop/Refine.antt =====
-- The loop that disconnects all processes, over the driver and the core, against the loop over the
-- list alone (PointerList).
use y_rpc.Common.{
  ℕ, zero, suc, ◌+◌, ◌≡◌, ◌≢◌, refl, sym, ap, ◌∙◌, true, false, All, List, [], ◌∷◌, ◌==◌, ltb, Run,
  done, fault, out_of_fuel, ◌>>=◌, Holds, bind-Holds, bind-Holds-all, none, by_if, Bool-cases, inl,
  inr, if◌then◌else◌, arith,
}
use y_rpc.PointerList
use y_rpc.PointerList.{
  PointerList, Iterator, singular, at, end, deref, read_node, remove_nodes, disconnect_all,
  disconnect_connections,
}
use y_rpc.Core.{SendList, Core, Env}
use y_rpc.Core.Events
use y_rpc.Core.Events.{disconnected}
use y_rpc.Driver.{Driver, disconnect, bufferevent_free, set_timeouts, calling}
use y_rpc.Driver.Peer.{core_callback}
use y_rpc.Stop.{disconnect_processes, with_list}

-- No connection in the list is NULL.
abbrev pub IsReal : List (ℕ × ℕ) → Type 0
IsReal = All (λ (n : ℕ × ℕ). n.1 ≢ 0)

read_node-IsReal :
    (i : ℕ) (ns : List (ℕ × ℕ)) → IsReal ns → Holds (λ (a : ℕ). a ≢ 0) (read_node i ns)
unfolding read_node
read_node-IsReal i [] r = tt
read_node-IsReal i (n ∷ ns) (r, rs) =
    by_if (Holds (λ (a : ℕ). a ≢ 0)) (n.0 == i) (λ here. r) (λ there. read_node-IsReal i ns rs)

deref-IsReal :
    (it : Iterator) (ns : List (ℕ × ℕ)) → IsReal ns → Holds (λ (a : ℕ). a ≢ 0) (deref it ns)
unfolding deref
deref-IsReal (at i) ns r = read_node-IsReal i ns r
deref-IsReal singular ns r = tt
deref-IsReal end ns r = tt

-- What begin and next return, if they do: a connection, and the list with another iterator
abbrev Steps : PointerList → ℕ × PointerList → Type 0
Steps l r = (r.0 ≢ 0) × (r.1.nodes ≡ l.nodes)

begin-Steps : (l : PointerList) → IsReal l.nodes → Holds (Steps l) (PointerList.begin l)
unfolding PointerList.begin
begin-Steps l r =
    bind-Holds (λ (a : ℕ). a ≢ 0) (Steps l) (deref (PointerList.first l.nodes) l.nodes)
      (λ a. done (a, record l { it = PointerList.first l.nodes }))
      (deref-IsReal (PointerList.first l.nodes) l.nodes r) (λ a there. (there, refl))

next-Steps : (l : PointerList) → IsReal l.nodes → Holds (Steps l) (PointerList.next l)
unfolding PointerList.next
next-Steps l r =
    bind-Holds-all (Steps l) (PointerList.advance l.it l.nodes)
      (λ moved. deref moved l.nodes >>= λ addr. done (addr, record l { it = moved }))
      (λ moved.
        bind-Holds (λ (a : ℕ). a ≢ 0) (Steps l) (deref moved l.nodes)
          (λ addr. done (addr, record l { it = moved })) (deref-IsReal moved l.nodes r)
          (λ a there. (there, refl)))

remove_nodes-IsReal : (a : ℕ) (ns : List (ℕ × ℕ)) → IsReal ns → IsReal (remove_nodes a ns)
unfolding remove_nodes
remove_nodes-IsReal a [] r = tt
remove_nodes-IsReal a (n ∷ ns) (r, rs) =
    by_if IsReal (n.1 == a) (λ gone. remove_nodes-IsReal a ns rs)
      (λ kept. (r, remove_nodes-IsReal a ns rs))

module _ {L : Type 0} where
  -- The driver and the core behind the end of one connection
  closed_driver : ℕ → Driver (Core L) → Driver (Core L)
  closed_driver fd d =
      calling (bufferevent_free fd)
        (calling (set_timeouts fd none) (record d { client = disconnected fd 1 d.client }))

  -- Behind the end of one connection after the other, with the list that is left
  unfoldable pub closed_all : List ℕ → PointerList → Driver (Core L) → Driver (Core L)
  unfolding closed_driver
  closed_all [] l d = with_list l d
  closed_all (fd ∷ fds) l d = closed_all fds l (closed_driver fd d)

  closed_all-with_list :
      (fds : List ℕ) (l l' : PointerList) (d : Driver (Core L))
      → closed_all fds l (with_list l' d) ≡ closed_all fds l d
  unfolding closed_all closed_driver disconnected
  closed_all-with_list [] l l' d = refl
  closed_all-with_list (fd ∷ fds) l l' d =
      closed_all-with_list fds l (PointerList.remove fd l').1 (closed_driver fd d)
      ∙ sym (
          closed_all-with_list fds l (PointerList.remove fd d.client.process_connect_list).1
            (closed_driver fd d))

  module _ (q : SendList L) (env : Env) where
    disconnect-closed_driver :
        (fd : ℕ) (d : Driver (Core L))
        → fd ≢ 0
        → d.has_handler ≡ true
        → disconnect (core_callback q env) fd d ≡ done (closed_driver fd d)
    unfolding disconnect core_callback Events.comm_event_handler closed_driver
    disconnect-closed_driver fd d real set =
        let null : (fd == 0) ≡ false = ground arith in rw (null, set) refl

    -- The driver for what the loop over the list returns
    abbrev closes : Driver (Core L) → List ℕ × PointerList → Run (Driver (Core L))
    closes d r = done (closed_all r.0 r.1 d)

    -- A round of the loop over the list, behind begin or next
    abbrev list_round : ℕ → ℕ → ℕ × PointerList → Run (List ℕ × PointerList)
    list_round rounds i r =
        disconnect_all rounds i (PointerList.remove r.0 r.1).1 >>= λ (rest : List ℕ × PointerList).
        done (r.0 ∷ rest.0, rest.1)

    abbrev driver_round : ℕ → ℕ → Driver (Core L) → ℕ × PointerList → Run (Driver (Core L))
    driver_round rounds i d r =
        disconnect (core_callback q env) r.0 (with_list r.1 d)
        >>= disconnect_processes q env rounds i

    abbrev Refines : ℕ → ℕ → Driver (Core L) → Type 0
    Refines rounds i d =
        disconnect_processes q env rounds i d
        ≡ (disconnect_all rounds i d.client.process_connect_list >>= closes d)

    closes-cons :
        (a : ℕ) (l : PointerList) (d : Driver (Core L)) (m : Run (List ℕ × PointerList))
        → (m >>= closes (closed_driver a (with_list l d)))
          ≡ ((m >>= λ (rest : List ℕ × PointerList). done (a ∷ rest.0, rest.1)) >>= closes d)
    unfolding closed_all closed_driver disconnected
    closes-cons a l d fault = refl
    closes-cons a l d out_of_fuel = refl
    closes-cons a l d (done (fds, l')) = ap done (
        closed_all-with_list fds l' (PointerList.remove a l).1 (closed_driver a d)
        ∙ sym (
            closed_all-with_list fds l' (PointerList.remove a d.client.process_connect_list).1
              (closed_driver a d)))

    round_closes :
        (rounds i : ℕ) (m : Run (ℕ × PointerList)) (d : Driver (Core L))
        → d.has_handler ≡ true
        → IsReal d.client.process_connect_list.nodes
        → ((d' : Driver (Core L))
            → d'.has_handler ≡ true
            → IsReal d'.client.process_connect_list.nodes
            → Refines rounds i d')
        → Holds (Steps d.client.process_connect_list) m
        → (m >>= driver_round rounds i d) ≡ ((m >>= list_round rounds i) >>= closes d)
    unfolding closed_driver disconnected PointerList.remove
    round_closes rounds i fault d set real rest steps = refl
    round_closes rounds i out_of_fuel d set real rest steps = refl
    round_closes rounds i (done (a, l)) d set real rest (there, same) =
        let d' = closed_driver a (with_list l d) in
        rw (disconnect-closed_driver a (with_list l d) there set) (
          rest d' set (rw same (remove_nodes-IsReal a _ real))
          ∙ closes-cons a l d (disconnect_all rounds i (PointerList.remove a l).1))

    disconnect_processes-Refines :
        (rounds i : ℕ) (d : Driver (Core L))
        → d.has_handler ≡ true
        → IsReal d.client.process_connect_list.nodes
        → Refines rounds i d
    unfolding disconnect_processes disconnect_all closed_all
    disconnect_processes-Refines zero i d set real = refl
    disconnect_processes-Refines (suc rounds) i d set real =
        let l = d.client.process_connect_list in
        elim (Bool-cases (ltb i (PointerList.size l))) [
          | inl more ↦ rw more (
              round_closes rounds (i + 1)
                (if i == 0 then PointerList.begin l else PointerList.next l) d set real
                (disconnect_processes-Refines rounds (i + 1))
                (by_if (Holds (Steps l)) (i == 0) (λ first. begin-Steps l real)
                  (λ later. next-Steps l real)))
          | inr end' ↦ rw end' refl
        ]

    -- With the core as the callback, and connections that are not NULL in its list, the loop that
    -- disconnects all processes does what the loop over the list alone does: it takes a fault
    -- exactly where that one does; and if that one returns, the driver has freed each of the
    -- connections that it names, once and in its order, and the core has forgotten each, with the
    -- list that it leaves.
    pub disconnect_processes-disconnect_connections :
        (d : Driver (Core L))
        → d.has_handler ≡ true
        → IsReal d.client.process_connect_list.nodes
        → disconnect_processes q env (PointerList.size d.client.process_connect_list) 0 d ≡ (
            disconnect_connections d.client.process_connect_list >>= λ r.
            done (closed_all r.0 r.1 d))
    unfolding disconnect_connections
    disconnect_processes-disconnect_connections d set real =
        disconnect_processes-Refines (PointerList.size d.client.process_connect_list) 0 d set real
