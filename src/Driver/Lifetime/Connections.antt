-- ===== src/Driver/Lifetime/Connections.antt =====
-- create and destroy do not free connections, and connections do not touch what create holds.
use y_rpc.Common.{ℕ, ◌≡◌, refl, ◌∙◌, ◌==◌, by_if}
use y_rpc.Driver.{Driver, bufferevent_new, calling}
use y_rpc.Driver.Lifetime.{
  stop_accept, stop_main, free_listener, delete_event, free_main, free_accept, destroy,
}
use y_rpc.Driver.Lifetime.Held.{connection, takes, gives, held, Allowed, IsOrderly, Tracks}
use y_rpc.Driver.Lifetime.Outcome.{IsOpen}

module _ {S : Type 0} where
  -- The same connections are held.
  abbrev Keeps : ℕ → Driver S → Driver S → Type 0
  Keeps a d d' = held (connection a) d'.calls ≡ held (connection a) d.calls

  stop_accept-Keeps : (a : ℕ) (d : Driver S) → Keeps a d (stop_accept d)
  unfolding stop_accept held takes gives
  stop_accept-Keeps a d =
      by_if (Keeps a d) (d.comm_accept_thread_id == 0) (λ idle. refl) (λ there. refl)

  stop_main-Keeps : (a : ℕ) (d : Driver S) → Keeps a d (stop_main d)
  unfolding stop_main held takes gives
  stop_main-Keeps a d =
      by_if (Keeps a d) (d.comm_main_thread_id == 0) (λ idle. refl) (λ there. refl)

  free_listener-Keeps : (a : ℕ) (d : Driver S) → Keeps a d (free_listener d)
  unfolding free_listener held takes gives
  free_listener-Keeps a d = by_if (Keeps a d) (d.evcon_listener == 0) (λ idle. refl) (λ there. refl)

  delete_event-Keeps : (a : ℕ) (d : Driver S) → Keeps a d (delete_event d)
  unfolding delete_event held takes gives
  delete_event-Keeps a d =
      by_if (Keeps a d) (d.cycle_check_event == 0) (λ idle. refl) (λ there. refl)

  free_main-Keeps : (a : ℕ) (d : Driver S) → Keeps a d (free_main d)
  unfolding free_main held takes gives
  free_main-Keeps a d = by_if (Keeps a d) (d.event_main_base == 0) (λ idle. refl) (λ there. refl)

  free_accept-Keeps : (a : ℕ) (d : Driver S) → Keeps a d (free_accept d)
  unfolding free_accept held takes gives
  free_accept-Keeps a d =
      by_if (Keeps a d) (d.event_accept_base == 0) (λ idle. refl) (λ there. refl)

  pub destroy-Keeps : (a : ℕ) (d : Driver S) → Keeps a d (destroy d)
  unfolding destroy
  destroy-Keeps a d =
      let d₁ = stop_accept d in
      let d₂ = stop_main d₁ in
      let d₃ = free_listener d₂ in
      let d₄ = delete_event d₃ in
      free_accept-Keeps a (free_main d₄)
      ∙ free_main-Keeps a d₄
      ∙ delete_event-Keeps a d₃
      ∙ free_listener-Keeps a d₂
      ∙ stop_main-Keeps a d₁
      ∙ stop_accept-Keeps a d

  bufferevent_new-Tracks :
      {n : ℕ} (a : ℕ) (d : Driver S) → Tracks n d → Tracks n (calling (bufferevent_new a) d)
  unfolding held takes gives
  bufferevent_new-Tracks a d t = record {
    bases = t.bases;
    events = t.events;
    listeners = t.listeners;
    timers = t.timers;
    threads = t.threads;
    loops = t.loops;
    two_bases = t.two_bases;
    two_threads = t.two_threads;
    main_runs = t.main_runs;
    accept_runs = t.accept_runs;
  }

  -- A driver that is up stays up with a new connection.
  pub bufferevent_new-IsOpen :
      (a : ℕ) (d : Driver S) → IsOpen d → IsOpen (calling (bufferevent_new a) d)
  unfolding IsOrderly Allowed
  bufferevent_new-IsOpen a d o = record {
    main_there = o.main_there;
    accept_there = o.accept_there;
    event_there = o.event_there;
    listener_there = o.listener_there;
    main_runs = o.main_runs;
    accept_runs = o.accept_runs;
    handled = o.handled;
    tracked = bufferevent_new-Tracks a d o.tracked;
    orderly = (tt, o.orderly);
  }
