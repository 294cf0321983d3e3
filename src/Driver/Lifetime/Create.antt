-- ===== src/Driver/Lifetime/Create.antt =====
-- How create ends, whatever its surroundings answer, and that destroy undoes it.
use y_rpc.Common.{
  ℕ, ◌≡◌, ◌≢◌, refl, sym, ap, ◌∙◌, true, false, ◌&&◌, ◌==◌, inl, inr, is_zero, is_negative, by_if,
  arith,
}
use y_rpc.Driver.{Driver, base_new, event_malloc, calling}
use y_rpc.Driver.Lifetime.{
  Answers, create_accept, create_threads, create_timer, create_listener, create_event,
  create_accept_base, create,
}
use y_rpc.Driver.Lifetime.Held.{Allowed, IsOrderly, Tracks}
use y_rpc.Driver.Lifetime.Laws.{IsPlausible, IsClosed}
use y_rpc.Driver.Lifetime.Cover.{accept_failed-Covers, main_failed-Covers}
use y_rpc.Driver.Lifetime.Acquire.{
  main_base-Tracks, accept_base-Tracks, event-Tracks, listener-Tracks, timer-Tracks,
  main_thread-Tracks, accept_thread-Tracks,
}
use y_rpc.Driver.Lifetime.Outcome.{
  Outcome, create_thread_failed-IsDangling, malloc_event_failed-IsUndone,
  init_event_failed-IsUndone,
}

module _ {S : Type 0} where
  -- Behind evtimer_add
  record IsReady (a : Answers) (d : Driver S) : Type 0 where
    main_there : d.event_main_base ≢ 0
    accept_there : d.event_accept_base ≢ 0
    event_there : d.cycle_check_event ≢ 0
    listener_there : d.evcon_listener ≢ 0
    same_event : d.cycle_check_event ≡ a.cycle_event
    accept_idle : d.comm_accept_thread_id ≡ 0
    handled : d.has_handler ≡ true
    tracked : Tracks d.cycle_check_event d
    orderly : IsOrderly d.calls

  create_accept-Outcome :
      (a : Answers) (d : Driver S)
      → IsPlausible a
      → is_zero a.main_thread.0 ≡ true
      → d.comm_main_thread_id ≡ a.main_thread.1
      → IsReady a d
      → Outcome a (create_accept a d)
  unfolding create_accept IsOrderly Allowed
  create_accept-Outcome a d h started id r =
      by_if (Outcome a) (is_zero a.accept_thread.0)
        (λ ok. inl (
          refl,
          record {
            main_there = r.main_there;
            accept_there = r.accept_there;
            event_there = r.event_there;
            listener_there = r.listener_there;
            main_runs = λ e. h.main_started started (sym id ∙ e);
            accept_runs = h.accept_started ok;
            handled = r.handled;
            tracked =
                accept_thread-Tracks a.accept_thread.1 d r.accept_idle r.accept_there
                  (h.accept_started ok) (λ e. h.two_threads started ok (sym id ∙ e)) r.tracked;
            orderly = (tt, r.orderly);
          },
        ))
        (λ failed.
          let none_starts : (is_zero a.main_thread.0 && is_zero a.accept_thread.0) ≡ false =
            ground arith in
          inr (
            inr (
              create_thread_failed-IsDangling a _
                (accept_failed-Covers a.accept_thread.1 d r.accept_idle r.tracked) r.same_event
                (λ e. r.event_there (r.same_event ∙ e)) none_starts)))

  create_threads-Outcome :
      (a : Answers) (d : Driver S)
      → IsPlausible a
      → d.comm_main_thread_id ≡ 0
      → IsReady a d
      → Outcome a (create_threads a d)
  unfolding create_threads IsOrderly Allowed
  create_threads-Outcome a d h idle r =
      by_if (Outcome a) (is_zero a.main_thread.0)
        (λ ok. create_accept-Outcome a _ h ok refl (record {
          main_there = r.main_there;
          accept_there = r.accept_there;
          event_there = r.event_there;
          listener_there = r.listener_there;
          same_event = r.same_event;
          accept_idle = r.accept_idle;
          handled = r.handled;
          tracked =
              main_thread-Tracks a.main_thread.1 d idle r.accept_idle r.main_there
                (h.main_started ok) r.tracked;
          orderly = (tt, r.orderly);
        }))
        (λ failed.
          let none_starts : (is_zero a.main_thread.0 && is_zero a.accept_thread.0) ≡ false =
            ground arith in
          inr (
            inr (
              create_thread_failed-IsDangling a _
                (main_failed-Covers a.main_thread.1 d idle r.tracked) r.same_event
                (λ e. r.event_there (r.same_event ∙ e)) none_starts)))

  create_timer-Outcome :
      (a : Answers) (d : Driver S)
      → IsPlausible a
      → d.event_main_base ≢ 0
      → d.event_accept_base ≢ 0
      → d.cycle_check_event ≢ 0
      → d.evcon_listener ≢ 0
      → d.cycle_check_event ≡ a.cycle_event
      → d.comm_main_thread_id ≡ 0
      → d.comm_accept_thread_id ≡ 0
      → Tracks 0 d
      → IsOrderly d.calls
      → Outcome a (create_timer a d)
  unfolding create_timer IsOrderly Allowed
  create_timer-Outcome a d h main accept event_there listener_there same idle accept_idle t o =
      let undone = malloc_event_failed-IsUndone d idle accept_idle t o in
      by_if (Outcome a) (is_negative a.assigned) (λ failed. inr (inl undone))
        (λ assigned.
          by_if (Outcome a) (is_negative a.added) (λ failed. inr (inl undone))
            (λ added. create_threads-Outcome a _ h idle (record {
              main_there = main;
              accept_there = accept;
              event_there = event_there;
              listener_there = listener_there;
              same_event = same;
              accept_idle = accept_idle;
              handled = refl;
              tracked = timer-Tracks d.cycle_check_event d t event_there;
              orderly = (tt, o);
            })))

  create_event-Outcome :
      (a : Answers) (d : Driver S)
      → IsPlausible a
      → d.event_main_base ≢ 0
      → d.event_accept_base ≢ 0
      → d.cycle_check_event ≡ 0
      → d.evcon_listener ≡ 0
      → d.comm_main_thread_id ≡ 0
      → d.comm_accept_thread_id ≡ 0
      → Tracks 0 d
      → IsOrderly d.calls
      → Outcome a (create_event a d)
  unfolding create_event create_listener IsOrderly Allowed
  create_event-Outcome a d h main accept no_event no_listener idle accept_idle t o =
      let event_same : a.cycle_event ≡ 0 → record d { cycle_check_event = a.cycle_event } ≡ d =
        λ e. ap (λ (i : ℕ). record d { cycle_check_event = i }) (e ∙ sym no_event) in
      by_if (Outcome a) (a.cycle_event == 0)
        (λ failed.
          let null : a.cycle_event ≡ 0 = ground arith in
          rw (event_same null) (inr (inl (malloc_event_failed-IsUndone d idle accept_idle t o))))
        (λ ok.
          let there : a.cycle_event ≢ 0 = ground arith in
          let d₁ : Driver S =
            calling (event_malloc a.cycle_event) (record d { cycle_check_event = a.cycle_event }) in
          let t₁ = event-Tracks a.cycle_event d no_event t there in
          by_if (Outcome a) (a.listener == 0)
            (λ failed.
              let null : a.listener ≡ 0 = ground arith in
              let unchanged : record d₁ { evcon_listener = a.listener } ≡ d₁ =
                ap (λ (i : ℕ). record d₁ { evcon_listener = i }) (null ∙ sym no_listener) in
              rw unchanged
                (inr (inl (malloc_event_failed-IsUndone d₁ idle accept_idle t₁ (tt, o)))))
            (λ ok'.
              let there' : a.listener ≢ 0 = ground arith in
              create_timer-Outcome a _ h main accept there there' refl idle accept_idle
                (listener-Tracks a.listener d.event_accept_base d₁ no_listener t₁ there')
                (tt, (tt, o))))

  -- On a driver whose variables are NULL and that holds nothing, behind calls in an allowed order
  -- and with plausible answers, create ends in one of three ways. It returns 0, all variables are
  -- set, the handler too, and what they name is what is held. Or it returns -1, all variables are
  -- NULL, and everything that it got was given back, in an allowed order. Or it returns -1 and a
  -- thread did not start: then too all variables are NULL and everything else was given back, but
  -- the timer of the event still pends, and the calls were not in an allowed order.
  pub create-Outcome :
      (a : Answers) (d : Driver S)
      → IsPlausible a
      → IsClosed d
      → Tracks 0 d
      → IsOrderly d.calls
      → Outcome a (create a d)
  unfolding create create_accept_base IsOrderly Allowed
  create-Outcome a d h c t o =
      by_if (Outcome a) (a.main_base == 0)
        (λ failed.
          let null : a.main_base ≡ 0 = ground arith in
          let unchanged : record d { event_main_base = a.main_base } ≡ d =
            ap (λ (i : ℕ). record d { event_main_base = i }) (null ∙ sym c.no_main) in
          rw unchanged (
            inr (
              inl (
                init_event_failed-IsUndone d c.no_event c.no_listener c.no_main_thread
                  c.no_accept_thread t o))))
        (λ ok.
          let there : a.main_base ≢ 0 = ground arith in
          let d₁ : Driver S =
            calling (base_new a.main_base) (record d { event_main_base = a.main_base }) in
          let t₁ = main_base-Tracks a.main_base d c there t in
          by_if (Outcome a) (a.accept_base == 0)
            (λ failed.
              let null : a.accept_base ≡ 0 = ground arith in
              let unchanged : record d₁ { event_accept_base = a.accept_base } ≡ d₁ =
                ap (λ (i : ℕ). record d₁ { event_accept_base = i }) (null ∙ sym c.no_accept) in
              rw unchanged (
                inr (
                  inl (
                    init_event_failed-IsUndone d₁ c.no_event c.no_listener c.no_main_thread
                      c.no_accept_thread t₁ (tt, o)))))
            (λ ok'.
              let there' : a.accept_base ≢ 0 = ground arith in
              create_event-Outcome a _ h there there' c.no_event c.no_listener c.no_main_thread
                c.no_accept_thread
                (accept_base-Tracks a.accept_base d₁ c.no_accept c.no_accept_thread there'
                  (λ e. there (h.two_bases e)) t₁)
                (tt, (tt, o))))
