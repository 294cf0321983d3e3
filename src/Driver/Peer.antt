-- ===== src/Driver/Peer.antt =====
-- The driver (libevent/comm_driver.cpp) under the core (rpc_core.cpp): connections that come up,
-- are refused, are closed by this process and are lost.
use y_rpc.Common.{
  ℕ, suc, ◌+◌, ◌≡◌, ◌≢◌, refl, sym, ap, true, false, List, [], ◌∷◌, ◌==◌, ==_refl, none, some, pos,
  negsuc, Run, done, ◌>>=◌, if◌then◌else◌, Bool-cases, inl, inr, ◌⊎◌, arith,
}
use mathlib.Core.Option
use y_rpc.Container.Order.{string_key}
use y_rpc.Head.{TimeVal}
use y_rpc.Observer.Laws.{observes, observes-remove_everywhere}
use y_rpc.PointerList
use y_rpc.PointerList.{
  PointerList, at, disconnect_connections, disconnect_all, size, begin, deref, remove, remove_nodes,
}
use y_rpc.PointerList.Laws.{IsValid, count, count-insert-remove}
use y_rpc.Core.{SendList, Core, Env}
use y_rpc.Core.Events
use y_rpc.Core.Events.{disconnected}
use y_rpc.Driver.{
  Driver, bufferevent_free, enable, set_callbacks, ev_read, ev_write, set_timeouts, calling,
  has_flag, bev_event_connected, bev_event_timeout, comm_event_connect, comm_event_disconnect,
  raise, comm_event_handler, close_bufferevent, connects, connect_begin, connect_end,
}

disconnect_single_node :
    (i fd : ℕ) (l : PointerList)
    → (l' : PointerList) × (disconnect_connections (record l { nodes = (i, fd) ∷ [] })
        ≡ done (fd ∷ [], l'))
unfolding disconnect_connections disconnect_all size begin deref remove remove_nodes
disconnect_single_node i fd l =
    ((remove fd (record l { nodes = (i, fd) ∷ []; it = at i })).1, rw (==_refl i) refl)

-- The shutdown loop on a list of one connection
disconnect_single :
    (i fd : ℕ) (l : PointerList)
    → l.nodes ≡ (i, fd) ∷ []
    → (l' : PointerList) × (disconnect_connections l ≡ done (fd ∷ [], l'))
disconnect_single i fd l e =
    let same : record l { nodes = (i, fd) ∷ [] } ≡ l =
      ap (λ (ns : List (ℕ × ℕ)). record l { nodes = ns }) (sym e) in
    rw same at (disconnect_single_node i fd l)

module _ {L : Type 0} (q : SendList L) (env : Env) where
  -- RPCCore::commEventHandler as the callback
  unfoldable pub core_callback : ℕ → ℕ → List ℕ → ℕ → Core L → Run (Core L)
  core_callback type fdp bytes len st =
      Events.comm_event_handler q env type fdp bytes len st >>= λ handled. done handled.1

  -- The driver and the core behind a connect that came up
  came_up : ℕ → Driver (Core L) → Driver (Core L)
  came_up bev d =
      record (calling (enable bev (ev_read + ev_write))
        (calling (set_callbacks bev 0) (calling (set_timeouts bev none) d))) {
          connect_flag = true;
          client = record d.client {
            process_connect_list = (PointerList.insert bev d.client.process_connect_list).1;
          };
        }

  raised :
      (type bev len : ℕ) (d : Driver (Core L)) (st : Core L)
      → d.has_handler ≡ true
      → core_callback type bev [] len d.client ≡ done st
      → raise core_callback type bev [] len d ≡ done (record d { client = st })
  raised type bev len d st set e = rw set (rw e refl)

  -- While connect waits for a connection that libevent did not refuse, and the callback is set: if
  -- the connection comes up, the callback puts it into the list of processes, once more, and
  -- connect, whose wait ends with 0, returns 0 and this connection. If it does not come up, it is
  -- freed, connect returns -1, and the core's state is as it was.
  pub connect_end-comm_event_handler :
      (bev events enabled : ℕ) (tv : TimeVal) (d : Driver (Core L))
      → bev ≢ 0
      → d.has_handler ≡ true
      → IsValid d.client.process_connect_list
      → (let begun = connect_begin bev false tv d in
          (d' : Driver (Core L)) × (begun.0 ≡ connects bev)
          × (comm_event_handler core_callback bev events bev enabled begun.2 ≡ done d')
          × (((has_flag bev_event_connected events ≡ true)
                × (connect_end bev (pos 0) d' ≡ (pos 0, some bev))
                × ((fd : ℕ)
                    → count fd d'.client.process_connect_list.nodes ≡ (
                        if bev == fd
                        then suc (count fd d.client.process_connect_list.nodes)
                        else count fd d.client.process_connect_list.nodes)))
              ⊎ ((has_flag bev_event_connected events ≡ false)
                  × (connect_end bev (pos 0) d' ≡ (negsuc 0, none))
                  × (d'.client ≡ d.client)
                  × (d'.calls ≡ bufferevent_free bev ∷ set_timeouts bev none ∷ begun.2.calls))))
  unfolding connect_begin connect_end comm_event_handler core_callback Events.comm_event_handler
      came_up
  connect_end-comm_event_handler bev events enabled tv d real set valid =
      let null : (bev == 0) ≡ false = ground arith in
      let same = ==_refl bev in
      let begun = connect_begin bev false tv d in
      let adds = (count-insert-remove bev d.client.process_connect_list valid).2 in
      elim (Bool-cases (has_flag bev_event_connected events)) [
        | inl up ↦ (
          came_up bev begun.2,
          rw null refl,
          rw (same, up, null) (raised comm_event_connect bev 1 _ _ set refl),
          inl (up, refl, λ fd. rw null (adds fd)),
        )
        | inr down ↦ (
          close_bufferevent bev (record begun.2 { connect_flag = false }),
          rw null refl,
          rw (null, same, down) refl,
          inr (down, rw null refl, rw null refl, rw null refl),
        )
      ]

  -- A connection that is lost while it is in use, otherwise than by a timeout, with the callback
  -- set, and that stands alone in the list of processes: the core takes out every observation on
  -- it, and no other one, and the driver frees it. But the list of processes stays as it was, and
  -- the shutdown loop on it disconnects this connection.
  pub comm_event_handler-lost :
      (bev events enabled i : ℕ) (d : Driver (Core L))
      → bev ≢ 0
      → d.has_handler ≡ true
      → has_flag bev_event_timeout events ≡ false
      → d.client.process_connect_list.nodes ≡ (i, bev) ∷ []
      → (d' : Driver (Core L)) × (comm_event_handler core_callback bev events 0 enabled d ≡ done d')
        × (d'.calls ≡ bufferevent_free bev ∷ set_timeouts bev none ∷ d.calls)
        × ((key : List ℕ) (fd : ℕ)
            → observes key fd d'.client.observer_connect_hash ≡ (
                if fd == bev
                then Option.map (λ n. 0) (observes key fd d.client.observer_connect_hash)
                else observes key fd d.client.observer_connect_hash))
        × (d'.client.process_connect_list ≡ d.client.process_connect_list)
        × ((l : PointerList) × (disconnect_connections d'.client.process_connect_list
              ≡ done (bev ∷ [], l)))
  unfolding comm_event_handler core_callback Events.comm_event_handler
  comm_event_handler-lost bev events enabled i d real set no_timeout only =
      let null : (bev == 0) ≡ false = ground arith in
      let st' = disconnected bev 0 d.client in
      (
        close_bufferevent bev (record d { client = st' }),
        rw (null, no_timeout, raised comm_event_disconnect bev 0 d st' set refl) refl,
        rw null refl,
        λ key fd. rw null (observes-remove_everywhere key fd bev d.client.observer_connect_hash),
        rw null refl,
        rw null (disconnect_single i bev d.client.process_connect_list only),
      )
