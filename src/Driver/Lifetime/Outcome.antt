-- ===== src/Driver/Lifetime/Outcome.antt =====
-- The ways in which create can end, and its error paths.
use y_rpc.Common.{
  ◌≡◌, ◌≢◌, refl, sym, ◌∙◌, true, false, ◌&&◌, ◌==◌, ◌⊎◌, ℤ, pos, negsuc, is_zero, by_if, arith,
}
use y_rpc.Driver.{Driver}
use y_rpc.Driver.Lifetime.{
  Answers, stop_accept, stop_main, free_listener, free_event, free_main, free_accept,
  init_event_failed, malloc_event_failed, create_thread_failed,
}
use y_rpc.Driver.Lifetime.Held.{takes, gives, held, Allowed, IsOrderly, names, Tracks}
use y_rpc.Driver.Lifetime.Release.{
  free_listener-Tracks, free_main-Tracks, free_accept-Tracks, free_main-IsOrderly,
  free_accept-IsOrderly,
}
use y_rpc.Driver.Lifetime.Laws.{IsClosed}
use y_rpc.Driver.Lifetime.Cover.{Covers, stopped-Tracks}
use y_rpc.Driver.Lifetime.Acquire.{
  malloc_event_failed-IsClosed, malloc_event_failed-Tracks, malloc_event_failed-IsOrderly,
}

module _ {S : Type 0} where
  -- The driver runs: every variable is set, and what is held can be given back.
  pub record IsOpen (d : Driver S) : Type 0 where
    pub main_there : d.event_main_base ≢ 0
    pub accept_there : d.event_accept_base ≢ 0
    pub event_there : d.cycle_check_event ≢ 0
    pub listener_there : d.evcon_listener ≢ 0
    pub main_runs : d.comm_main_thread_id ≢ 0
    pub accept_runs : d.comm_accept_thread_id ≢ 0
    pub handled : d.has_handler ≡ true
    pub tracked : Tracks d.cycle_check_event d
    pub orderly : IsOrderly d.calls

  -- It did not come up, and gave everything back.
  pub record IsUndone (r : ℤ × Driver S) : Type 0 where
    pub code : r.0 ≡ negsuc 0
    pub closed : IsClosed r.1
    pub tracked : Tracks 0 r.1
    pub orderly : IsOrderly r.1.calls

  -- A thread did not start: the block of the event is freed while its timer pends.
  pub record IsDangling (a : Answers) (r : ℤ × Driver S) : Type 0 where
    pub code : r.0 ≡ negsuc 0
    pub closed : IsClosed r.1
    pub no_thread : (is_zero a.main_thread.0 && is_zero a.accept_thread.0) ≡ false
    pub event_there : a.cycle_event ≢ 0
    pub tracked : Tracks a.cycle_event r.1
    pub disorderly : IsOrderly r.1.calls → ⊥

  abbrev pub Outcome : Answers → ℤ × Driver S → Type 0
  Outcome a r = ((r.0 ≡ pos 0) × IsOpen r.1) ⊎ (IsUndone r ⊎ IsDangling a r)

  free_event-disorder :
      (d : Driver S)
      → Tracks d.cycle_check_event d
      → d.cycle_check_event ≢ 0
      → IsOrderly (free_event d).calls
      → ⊥
  unfolding free_event IsOrderly Allowed held takes gives names
  free_event-disorder d t there o = ground (arith, t.timers d.cycle_check_event)

  free_main-before : (d : Driver S) → IsOrderly (free_main d).calls → IsOrderly d.calls
  unfolding free_main IsOrderly
  free_main-before d =
      by_if (λ (d' : Driver S). IsOrderly d'.calls → IsOrderly d.calls) (d.event_main_base == 0)
        (λ none o. o) (λ there o. o.1)

  free_accept-before : (d : Driver S) → IsOrderly (free_accept d).calls → IsOrderly d.calls
  unfolding free_accept IsOrderly
  free_accept-before d =
      by_if (λ (d' : Driver S). IsOrderly d'.calls → IsOrderly d.calls) (d.event_accept_base == 0)
        (λ none o. o) (λ there o. o.1)

  -- The error path behind evtimer_add
  pub create_thread_failed-IsDangling :
      (a : Answers) (d : Driver S)
      → Covers d.cycle_check_event d
      → d.cycle_check_event ≡ a.cycle_event
      → a.cycle_event ≢ 0
      → (is_zero a.main_thread.0 && is_zero a.accept_thread.0) ≡ false
      → IsDangling a (create_thread_failed d)
  unfolding create_thread_failed malloc_event_failed init_event_failed free_listener stop_main
      stop_accept
  create_thread_failed-IsDangling a d t same there fails =
      let d₁ = stop_accept d in
      let d₂ = stop_main d₁ in
      let t₂ = stopped-Tracks d t in
      let idle : d₂.comm_main_thread_id ≡ 0 = ground arith in
      let accept_idle : d₂.comm_accept_thread_id ≡ 0 = ground arith in
      let d₃ = free_listener d₂ in
      let t₃ = free_listener-Tracks d₂ t₂ in
      let kept : d.cycle_check_event ≡ d₃.cycle_check_event = ground arith in
      record {
        code = refl;
        closed = malloc_event_failed-IsClosed d₂ idle accept_idle;
        no_thread = fails;
        event_there = there;
        tracked = rw (← same) (malloc_event_failed-Tracks d₂ idle accept_idle t₂);
        disorderly = λ o.
            free_event-disorder d₃ (rw (← kept) t₃) (λ e. there (sym same ∙ kept ∙ e))
              (free_main-before (free_event d₃) (free_accept-before (free_main (free_event d₃)) o));
      }

  pub malloc_event_failed-IsUndone :
      (d : Driver S)
      → d.comm_main_thread_id ≡ 0
      → d.comm_accept_thread_id ≡ 0
      → Tracks 0 d
      → IsOrderly d.calls
      → IsUndone (malloc_event_failed d)
  unfolding malloc_event_failed init_event_failed
  malloc_event_failed-IsUndone d idle accept_idle t o = record {
    code = refl;
    closed = malloc_event_failed-IsClosed d idle accept_idle;
    tracked = malloc_event_failed-Tracks d idle accept_idle t;
    orderly = malloc_event_failed-IsOrderly d idle accept_idle t o;
  }

  pub init_event_failed-IsUndone :
      (d : Driver S)
      → d.cycle_check_event ≡ 0
      → d.evcon_listener ≡ 0
      → d.comm_main_thread_id ≡ 0
      → d.comm_accept_thread_id ≡ 0
      → Tracks 0 d
      → IsOrderly d.calls
      → IsUndone (init_event_failed d)
  unfolding init_event_failed free_main free_accept
  init_event_failed-IsUndone d no_event no_listener idle accept_idle t o =
      let d₁ = free_main d in
      let t₁ = free_main-Tracks d idle t in
      let idle₁ : d₁.comm_accept_thread_id ≡ 0 = ground arith in
      record {
        code = refl;
        closed = record {
          no_main = ground arith;
          no_accept = ground arith;
          no_event = ground arith;
          no_listener = ground arith;
          no_main_thread = ground arith;
          no_accept_thread = ground arith;
        };
        tracked = free_accept-Tracks d₁ idle₁ t₁;
        orderly = free_accept-IsOrderly d₁ idle₁ t₁ (free_main-IsOrderly d idle t o);
      }
