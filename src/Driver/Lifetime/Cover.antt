-- ===== src/Driver/Lifetime/Cover.antt =====
-- The part of create's error path that stops the threads, when an ID may be one of no thread.
use y_rpc.Common.{ℕ, ◌≡◌, refl, Bool, true, false, ◌==◌, by_if, arith}
use y_rpc.Driver.{Driver}
use y_rpc.Driver.Lifetime.{stop_accept, stop_main}
use y_rpc.Driver.Lifetime.Held.{
  base, event, timer, listener, loop, thread, takes, gives, held, names, runs, Tracks,
}

not_held : (b : Bool) → (b ≡ true → false ≡ true) → b ≡ false
not_held true h = absurd (let e = h refl in cc)
not_held false h = refl

module _ {S : Type 0} where
  -- As Tracks, but not all IDs have to be of threads that run.
  pub record Covers (pending : ℕ) (d : Driver S) : Type 0 where
    pub bases : (a : ℕ) → held (base a) d.calls ≡ names a d.event_main_base d.event_accept_base
    pub events : (a : ℕ) → held (event a) d.calls ≡ names a d.cycle_check_event 0
    pub listeners : (a : ℕ) → held (listener a) d.calls ≡ names a d.evcon_listener 0
    pub timers : (a : ℕ) → held (timer a) d.calls ≡ names a pending 0
    pub threads :
        (a : ℕ)
        → held (thread a) d.calls ≡ true
        → names a d.comm_main_thread_id d.comm_accept_thread_id ≡ true
    pub loops :
        (a : ℕ)
        → held (loop a) d.calls ≡ true
        → runs a d.event_main_base d.comm_main_thread_id d.event_accept_base d.comm_accept_thread_id
          ≡ true
    pub two_bases : d.event_main_base ≡ d.event_accept_base → d.event_main_base ≡ 0

  pub accept_failed-Covers :
      {p : ℕ} (a : ℕ) (d : Driver S)
      → d.comm_accept_thread_id ≡ 0
      → Tracks p d
      → Covers p (record d { comm_accept_thread_id = a })
  unfolding names runs
  accept_failed-Covers a d idle t = record {
    bases = t.bases;
    events = t.events;
    listeners = t.listeners;
    timers = t.timers;
    threads = λ x h. ground (arith, t.threads x);
    loops = λ x h. ground (arith, t.loops x);
    two_bases = t.two_bases;
  }

  pub main_failed-Covers :
      {p : ℕ} (a : ℕ) (d : Driver S)
      → d.comm_main_thread_id ≡ 0
      → Tracks p d
      → Covers p (record d { comm_main_thread_id = a })
  unfolding names runs
  main_failed-Covers a d idle t = record {
    bases = t.bases;
    events = t.events;
    listeners = t.listeners;
    timers = t.timers;
    threads = λ x h. ground (arith, t.threads x);
    loops = λ x h. ground (arith, t.loops x);
    two_bases = t.two_bases;
  }

  stop_accept-Covers : {p : ℕ} (d : Driver S) → Covers p d → Covers p (stop_accept d)
  unfolding stop_accept held takes gives names runs
  stop_accept-Covers d t =
      by_if (Covers _) (d.comm_accept_thread_id == 0) (λ there_is_none. t)
        (λ there_is. record {
          bases = λ a. t.bases a;
          events = λ a. t.events a;
          listeners = λ a. t.listeners a;
          timers = λ a. t.timers a;
          threads = λ a h. ground (arith, t.threads a);
          loops = λ a h. ground (arith, t.loops a);
          two_bases = t.two_bases;
        })

  stop_main-Covers : {p : ℕ} (d : Driver S) → Covers p d → Covers p (stop_main d)
  unfolding stop_main held takes gives names runs
  stop_main-Covers d t =
      by_if (Covers _) (d.comm_main_thread_id == 0) (λ there_is_none. t)
        (λ there_is. record {
          bases = λ a. t.bases a;
          events = λ a. t.events a;
          listeners = λ a. t.listeners a;
          timers = λ a. t.timers a;
          threads = λ a h. ground (arith, t.threads a);
          loops = λ a h. ground (arith, t.loops a);
          two_bases = t.two_bases;
        })

  Covers-Tracks :
      {p : ℕ} (d : Driver S)
      → d.comm_main_thread_id ≡ 0
      → d.comm_accept_thread_id ≡ 0
      → Covers p d
      → Tracks p d
  unfolding names runs
  Covers-Tracks d idle accept_idle t = record {
    bases = t.bases;
    events = t.events;
    listeners = t.listeners;
    timers = t.timers;
    threads = λ a. ground (arith, t.threads a);
    loops = λ a. ground (arith, t.loops a);
    two_bases = t.two_bases;
    two_threads = λ e. idle;
    main_runs = λ h. absurd (h idle);
    accept_runs = λ h. absurd (h accept_idle);
  }

  -- Behind the joins no thread runs and no loop does.
  pub stopped-Tracks : {p : ℕ} (d : Driver S) → Covers p d → Tracks p (stop_main (stop_accept d))
  unfolding stop_main stop_accept
  stopped-Tracks d t =
      let idle : (stop_main (stop_accept d)).comm_main_thread_id ≡ 0 = ground arith in
      let accept_idle : (stop_main (stop_accept d)).comm_accept_thread_id ≡ 0 = ground arith in
      Covers-Tracks (stop_main (stop_accept d)) idle accept_idle
        (stop_main-Covers (stop_accept d) (stop_accept-Covers d t))
