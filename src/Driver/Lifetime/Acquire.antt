-- ===== src/Driver/Lifetime/Acquire.antt =====
-- What create acquires, and what it leaves when one of its steps fails.
use y_rpc.Common.{ℕ, ◌≡◌, ◌≢◌, ◌∙◌, true, arith}
use y_rpc.Driver.{Driver, base_new, event_malloc, timer_add, listener_new, thread_create, calling}
use y_rpc.Driver.Lifetime.{
  free_listener, free_event, free_main, free_accept, init_event_failed, malloc_event_failed,
}
use y_rpc.Driver.Lifetime.Held.{takes, gives, held, IsOrderly, names, runs, Tracks}
use y_rpc.Driver.Lifetime.Release.{
  free_listener-Tracks, free_event-Tracks, free_main-Tracks, free_accept-Tracks,
  free_listener-IsOrderly, free_event-IsOrderly, free_main-IsOrderly, free_accept-IsOrderly,
}
use y_rpc.Driver.Lifetime.Laws.{IsClosed}

module _ {S : Type 0} where
  pub main_base-Tracks :
      {p : ℕ} (a : ℕ) (d : Driver S)
      → IsClosed d
      → a ≢ 0
      → Tracks p d
      → Tracks p (calling (base_new a) (record d { event_main_base = a }))
  unfolding held takes gives names runs
  main_base-Tracks a d c real t = record {
    bases = λ x. ground (arith, t.bases x, c.no_main);
    events = λ x. t.events x;
    listeners = λ x. t.listeners x;
    timers = λ x. t.timers x;
    threads = λ x. t.threads x;
    loops = λ x. ground (arith, t.loops x, c.no_main_thread);
    two_bases = λ e. absurd (real (e ∙ c.no_accept));
    two_threads = t.two_threads;
    main_runs = λ h. absurd (h c.no_main_thread);
    accept_runs = t.accept_runs;
  }

  pub accept_base-Tracks :
      {p : ℕ} (a : ℕ) (d : Driver S)
      → d.event_accept_base ≡ 0
      → d.comm_accept_thread_id ≡ 0
      → a ≢ 0
      → d.event_main_base ≢ a
      → Tracks p d
      → Tracks p (calling (base_new a) (record d { event_accept_base = a }))
  unfolding held takes gives names runs
  accept_base-Tracks a d none idle real other t = record {
    bases = λ x. ground (arith, t.bases x, none);
    events = λ x. t.events x;
    listeners = λ x. t.listeners x;
    timers = λ x. t.timers x;
    threads = λ x. t.threads x;
    loops = λ x. ground (arith, t.loops x, idle);
    two_bases = λ e. absurd (other e);
    two_threads = t.two_threads;
    main_runs = t.main_runs;
    accept_runs = λ h. absurd (h idle);
  }

  pub event-Tracks :
      {p : ℕ} (a : ℕ) (d : Driver S)
      → d.cycle_check_event ≡ 0
      → Tracks p d
      → a ≢ 0
      → Tracks p (calling (event_malloc a) (record d { cycle_check_event = a }))
  unfolding held takes gives names runs
  event-Tracks a d none t real = record {
    bases = λ x. t.bases x;
    events = λ x. ground (arith, t.events x, none);
    listeners = λ x. t.listeners x;
    timers = λ x. t.timers x;
    threads = λ x. t.threads x;
    loops = λ x. t.loops x;
    two_bases = t.two_bases;
    two_threads = t.two_threads;
    main_runs = t.main_runs;
    accept_runs = t.accept_runs;
  }

  pub listener-Tracks :
      {p : ℕ} (a b : ℕ) (d : Driver S)
      → d.evcon_listener ≡ 0
      → Tracks p d
      → a ≢ 0
      → Tracks p (calling (listener_new a b) (record d { evcon_listener = a }))
  unfolding held takes gives names runs
  listener-Tracks a b d none t real = record {
    bases = λ x. t.bases x;
    events = λ x. t.events x;
    listeners = λ x. ground (arith, t.listeners x, none);
    timers = λ x. t.timers x;
    threads = λ x. t.threads x;
    loops = λ x. t.loops x;
    two_bases = t.two_bases;
    two_threads = t.two_threads;
    main_runs = t.main_runs;
    accept_runs = t.accept_runs;
  }

  pub timer-Tracks :
      (a : ℕ) (d : Driver S)
      → Tracks 0 d
      → a ≢ 0
      → Tracks a (record (calling (timer_add a) d) { has_handler = true })
  unfolding held takes gives names runs
  timer-Tracks a d t real = record {
    bases = λ x. t.bases x;
    events = λ x. t.events x;
    listeners = λ x. t.listeners x;
    timers = λ x. ground (arith, t.timers x);
    threads = λ x. t.threads x;
    loops = λ x. t.loops x;
    two_bases = t.two_bases;
    two_threads = t.two_threads;
    main_runs = t.main_runs;
    accept_runs = t.accept_runs;
  }

  pub main_thread-Tracks :
      {p : ℕ} (a : ℕ) (d : Driver S)
      → d.comm_main_thread_id ≡ 0
      → d.comm_accept_thread_id ≡ 0
      → d.event_main_base ≢ 0
      → a ≢ 0
      → Tracks p d
      → Tracks p
          (calling (thread_create a d.event_main_base) (record d { comm_main_thread_id = a }))
  unfolding held takes gives names runs
  main_thread-Tracks a d idle accept_idle there real t = record {
    bases = λ x. t.bases x;
    events = λ x. t.events x;
    listeners = λ x. t.listeners x;
    timers = λ x. t.timers x;
    threads = λ x. ground (arith, t.threads x, idle);
    loops = λ x. ground (arith, t.loops x, idle);
    two_bases = t.two_bases;
    two_threads = λ e. absurd (real (e ∙ accept_idle));
    main_runs = λ h. there;
    accept_runs = t.accept_runs;
  }

  pub accept_thread-Tracks :
      {p : ℕ} (a : ℕ) (d : Driver S)
      → d.comm_accept_thread_id ≡ 0
      → d.event_accept_base ≢ 0
      → a ≢ 0
      → d.comm_main_thread_id ≢ a
      → Tracks p d
      → Tracks p
          (calling (thread_create a d.event_accept_base) (record d { comm_accept_thread_id = a }))
  unfolding held takes gives names runs
  accept_thread-Tracks a d idle there real other t = record {
    bases = λ x. t.bases x;
    events = λ x. t.events x;
    listeners = λ x. t.listeners x;
    timers = λ x. t.timers x;
    threads = λ x. ground (arith, t.threads x, idle);
    loops = λ x. ground (arith, t.loops x, idle);
    two_bases = t.two_bases;
    two_threads = λ e. absurd (other e);
    main_runs = t.main_runs;
    accept_runs = λ h. there;
  }

  pub malloc_event_failed-IsClosed :
      (d : Driver S)
      → d.comm_main_thread_id ≡ 0
      → d.comm_accept_thread_id ≡ 0
      → IsClosed (malloc_event_failed d).1
  unfolding malloc_event_failed init_event_failed free_listener free_event free_main free_accept
  malloc_event_failed-IsClosed d idle accept_idle = record {
    no_main = ground arith;
    no_accept = ground arith;
    no_event = ground arith;
    no_listener = ground arith;
    no_main_thread = ground arith;
    no_accept_thread = ground arith;
  }

  pub malloc_event_failed-Tracks :
      {p : ℕ} (d : Driver S)
      → d.comm_main_thread_id ≡ 0
      → d.comm_accept_thread_id ≡ 0
      → Tracks p d
      → Tracks p (malloc_event_failed d).1
  unfolding malloc_event_failed init_event_failed free_listener free_event free_main free_accept
  malloc_event_failed-Tracks d idle accept_idle t =
      let d₁ = free_listener d in
      let d₂ = free_event d₁ in
      let d₃ = free_main d₂ in
      let idle₂ : d₂.comm_main_thread_id ≡ 0 = ground arith in
      let idle₃ : d₃.comm_accept_thread_id ≡ 0 = ground arith in
      free_accept-Tracks d₃ idle₃
        (free_main-Tracks d₂ idle₂ (free_event-Tracks d₁ (free_listener-Tracks d t)))

  pub malloc_event_failed-IsOrderly :
      (d : Driver S)
      → d.comm_main_thread_id ≡ 0
      → d.comm_accept_thread_id ≡ 0
      → Tracks 0 d
      → IsOrderly d.calls
      → IsOrderly (malloc_event_failed d).1.calls
  unfolding malloc_event_failed init_event_failed free_listener free_event free_main free_accept
  malloc_event_failed-IsOrderly d idle accept_idle t o =
      let d₁ = free_listener d in
      let t₁ = free_listener-Tracks d t in
      let d₂ = free_event d₁ in
      let t₂ = free_event-Tracks d₁ t₁ in
      let d₃ = free_main d₂ in
      let idle₂ : d₂.comm_main_thread_id ≡ 0 = ground arith in
      let idle₃ : d₃.comm_accept_thread_id ≡ 0 = ground arith in
      free_accept-IsOrderly d₃ idle₃ (free_main-Tracks d₂ idle₂ t₂) (
        free_main-IsOrderly d₂ idle₂ t₂
          (free_event-IsOrderly d₁ t₁ (free_listener-IsOrderly d t o)))
