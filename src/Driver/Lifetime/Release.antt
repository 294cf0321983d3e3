-- ===== src/Driver/Lifetime/Release.antt =====
-- What each part of create's error path and of destroy gives back.
use y_rpc.Common.{ℕ, ◌≡◌, refl, ◌==◌, by_if, arith}
use y_rpc.Driver.{Driver}
use y_rpc.Driver.Lifetime.{
  stop_accept, stop_main, free_listener, free_event, delete_event, free_main, free_accept,
}
use y_rpc.Driver.Lifetime.Held.{takes, gives, held, Allowed, IsOrderly, names, runs, Tracks}

module _ {S : Type 0} where
  pub stop_accept-Tracks : {p : ℕ} (d : Driver S) → Tracks p d → Tracks p (stop_accept d)
  unfolding stop_accept held takes gives names runs
  stop_accept-Tracks d t =
      by_if (Tracks _) (d.comm_accept_thread_id == 0) (λ none_runs. t)
        (λ one_runs. record {
          bases = λ a. t.bases a;
          events = λ a. t.events a;
          listeners = λ a. t.listeners a;
          timers = λ a. t.timers a;
          threads = λ a. ground (arith, t.threads a, t.two_threads);
          loops = λ a. ground (arith, t.loops a, t.two_bases, t.main_runs, t.accept_runs);
          two_bases = t.two_bases;
          two_threads = λ e. e;
          main_runs = t.main_runs;
          accept_runs = λ h. absurd (h refl);
        })

  pub stop_main-Tracks : {p : ℕ} (d : Driver S) → Tracks p d → Tracks p (stop_main d)
  unfolding stop_main held takes gives names runs
  stop_main-Tracks d t =
      by_if (Tracks _) (d.comm_main_thread_id == 0) (λ there_is_none. t)
        (λ there_is. record {
          bases = λ a. t.bases a;
          events = λ a. t.events a;
          listeners = λ a. t.listeners a;
          timers = λ a. t.timers a;
          threads = λ a. ground (arith, t.threads a, t.two_threads);
          loops = λ a. ground (arith, t.loops a, t.two_bases, t.main_runs, t.accept_runs);
          two_bases = t.two_bases;
          two_threads = λ e. refl;
          main_runs = λ h. absurd (h refl);
          accept_runs = t.accept_runs;
        })

  pub free_listener-Tracks : {p : ℕ} (d : Driver S) → Tracks p d → Tracks p (free_listener d)
  unfolding free_listener held takes gives names runs
  free_listener-Tracks d t =
      by_if (Tracks _) (d.evcon_listener == 0) (λ there_is_none. t)
        (λ there_is. record {
          bases = λ a. t.bases a;
          events = λ a. t.events a;
          listeners = λ a. ground (arith, t.listeners a);
          timers = λ a. t.timers a;
          threads = λ a. t.threads a;
          loops = λ a. t.loops a;
          two_bases = t.two_bases;
          two_threads = t.two_threads;
          main_runs = t.main_runs;
          accept_runs = t.accept_runs;
        })

  pub free_event-Tracks : {p : ℕ} (d : Driver S) → Tracks p d → Tracks p (free_event d)
  unfolding free_event held takes gives names runs
  free_event-Tracks d t =
      by_if (Tracks _) (d.cycle_check_event == 0) (λ there_is_none. t)
        (λ there_is. record {
          bases = λ a. t.bases a;
          events = λ a. ground (arith, t.events a);
          listeners = λ a. t.listeners a;
          timers = λ a. t.timers a;
          threads = λ a. t.threads a;
          loops = λ a. t.loops a;
          two_bases = t.two_bases;
          two_threads = t.two_threads;
          main_runs = t.main_runs;
          accept_runs = t.accept_runs;
        })

  pub free_main-Tracks :
      {p : ℕ} (d : Driver S) → d.comm_main_thread_id ≡ 0 → Tracks p d → Tracks p (free_main d)
  unfolding free_main held takes gives names runs
  free_main-Tracks d idle t =
      by_if (Tracks _) (d.event_main_base == 0) (λ there_is_none. t)
        (λ there_is. record {
          bases = λ a. ground (arith, t.bases a, t.two_bases);
          events = λ a. t.events a;
          listeners = λ a. t.listeners a;
          timers = λ a. t.timers a;
          threads = λ a. t.threads a;
          loops = λ a. ground (arith, t.loops a, idle);
          two_bases = λ e. refl;
          two_threads = t.two_threads;
          main_runs = λ h. absurd (h idle);
          accept_runs = t.accept_runs;
        })

  pub free_accept-Tracks :
      {p : ℕ} (d : Driver S) → d.comm_accept_thread_id ≡ 0 → Tracks p d → Tracks p (free_accept d)
  unfolding free_accept held takes gives names runs
  free_accept-Tracks d idle t =
      by_if (Tracks _) (d.event_accept_base == 0) (λ there_is_none. t)
        (λ there_is. record {
          bases = λ a. ground (arith, t.bases a, t.two_bases);
          events = λ a. t.events a;
          listeners = λ a. t.listeners a;
          timers = λ a. t.timers a;
          threads = λ a. t.threads a;
          loops = λ a. ground (arith, t.loops a, idle);
          two_bases = λ e. e;
          two_threads = t.two_threads;
          main_runs = t.main_runs;
          accept_runs = λ h. absurd (h idle);
        })

  pub delete_event-Tracks :
      {p : ℕ} (d : Driver S) → p ≡ d.cycle_check_event → Tracks p d → Tracks 0 (delete_event d)
  unfolding delete_event held takes gives names runs
  delete_event-Tracks d e t =
      by_if (Tracks 0) (d.cycle_check_event == 0)
        (λ there_is_none. record {
          bases = λ a. t.bases a;
          events = λ a. t.events a;
          listeners = λ a. t.listeners a;
          timers = λ a. ground (arith, t.timers a);
          threads = λ a. t.threads a;
          loops = λ a. t.loops a;
          two_bases = t.two_bases;
          two_threads = t.two_threads;
          main_runs = t.main_runs;
          accept_runs = t.accept_runs;
        })
        (λ there_is. record {
          bases = λ a. t.bases a;
          events = λ a. ground (arith, t.events a);
          listeners = λ a. t.listeners a;
          timers = λ a. ground (arith, t.timers a);
          threads = λ a. t.threads a;
          loops = λ a. t.loops a;
          two_bases = t.two_bases;
          two_threads = t.two_threads;
          main_runs = t.main_runs;
          accept_runs = t.accept_runs;
        })

  pub stop_accept-IsOrderly :
      {p : ℕ} (d : Driver S) → Tracks p d → IsOrderly d.calls → IsOrderly (stop_accept d).calls
  unfolding stop_accept IsOrderly Allowed held takes gives names runs
  stop_accept-IsOrderly d t o =
      by_if (λ (d' : Driver S). IsOrderly d'.calls) (d.comm_accept_thread_id == 0)
        (λ there_is_none. o)
        (λ there_is. (
          ground (arith, t.threads d.comm_accept_thread_id),
          (ground (arith, t.loops d.event_accept_base, t.accept_runs), o),
        ))

  pub stop_main-IsOrderly :
      {p : ℕ} (d : Driver S) → Tracks p d → IsOrderly d.calls → IsOrderly (stop_main d).calls
  unfolding stop_main IsOrderly Allowed held takes gives names runs
  stop_main-IsOrderly d t o =
      by_if (λ (d' : Driver S). IsOrderly d'.calls) (d.comm_main_thread_id == 0)
        (λ there_is_none. o)
        (λ there_is. (
          ground (arith, t.threads d.comm_main_thread_id),
          (ground (arith, t.loops d.event_main_base, t.main_runs), o),
        ))

  pub free_listener-IsOrderly :
      {p : ℕ} (d : Driver S) → Tracks p d → IsOrderly d.calls → IsOrderly (free_listener d).calls
  unfolding free_listener IsOrderly Allowed held takes gives names runs
  free_listener-IsOrderly d t o =
      by_if (λ (d' : Driver S). IsOrderly d'.calls) (d.evcon_listener == 0) (λ there_is_none. o)
        (λ there_is. (ground (arith, t.listeners d.evcon_listener), o))

  pub free_event-IsOrderly :
      (d : Driver S) → Tracks 0 d → IsOrderly d.calls → IsOrderly (free_event d).calls
  unfolding free_event IsOrderly Allowed held takes gives names runs
  free_event-IsOrderly d t o =
      by_if (λ (d' : Driver S). IsOrderly d'.calls) (d.cycle_check_event == 0) (λ there_is_none. o)
        (λ there_is. (
          (
            ground (arith, t.events d.cycle_check_event),
            ground (arith, t.timers d.cycle_check_event),
          ),
          o,
        ))

  pub delete_event-IsOrderly :
      {p : ℕ} (d : Driver S)
      → p ≡ d.cycle_check_event
      → Tracks p d
      → IsOrderly d.calls
      → IsOrderly (delete_event d).calls
  unfolding delete_event IsOrderly Allowed held takes gives names runs
  delete_event-IsOrderly d e t o =
      by_if (λ (d' : Driver S). IsOrderly d'.calls) (d.cycle_check_event == 0) (λ there_is_none. o)
        (λ there_is. (
          (
            ground (arith, t.events d.cycle_check_event),
            ground (arith, t.timers d.cycle_check_event),
          ),
          (ground (arith, t.timers d.cycle_check_event), o),
        ))

  pub free_main-IsOrderly :
      {p : ℕ} (d : Driver S)
      → d.comm_main_thread_id ≡ 0
      → Tracks p d
      → IsOrderly d.calls
      → IsOrderly (free_main d).calls
  unfolding free_main IsOrderly Allowed held takes gives names runs
  free_main-IsOrderly d idle t o =
      by_if (λ (d' : Driver S). IsOrderly d'.calls) (d.event_main_base == 0) (λ there_is_none. o)
        (λ there_is. (
          (
            ground (arith, t.bases d.event_main_base),
            ground (arith, t.loops d.event_main_base, t.two_bases, idle),
          ),
          o,
        ))

  pub free_accept-IsOrderly :
      {p : ℕ} (d : Driver S)
      → d.comm_accept_thread_id ≡ 0
      → Tracks p d
      → IsOrderly d.calls
      → IsOrderly (free_accept d).calls
  unfolding free_accept IsOrderly Allowed held takes gives names runs
  free_accept-IsOrderly d idle t o =
      by_if (λ (d' : Driver S). IsOrderly d'.calls) (d.event_accept_base == 0) (λ there_is_none. o)
        (λ there_is. (
          (
            ground (arith, t.bases d.event_accept_base),
            ground (arith, t.loops d.event_accept_base, t.two_bases, idle),
          ),
          o,
        ))
