-- ===== src/Driver/Lifetime/Client.antt =====
-- create and destroy do not touch the state of the callback.
use y_rpc.Common.{◌≡◌, refl, ◌∙◌, ◌==◌, ℤ, is_zero, is_negative, by_if, arith}
use y_rpc.Driver.{Driver}
use y_rpc.Driver.Lifetime.{
  Answers, stop_accept, stop_main, free_listener, free_event, free_main, free_accept,
  init_event_failed, malloc_event_failed, create_thread_failed, create_accept, create_threads,
  create_timer, create_listener, create_event, create_accept_base, create, destroy,
}

module _ {S : Type 0} where
  pub client-destroy : (d : Driver S) → (destroy d).client ≡ d.client
  unfolding destroy
  client-destroy d = ground arith

  -- A result that left the client alone
  abbrev Leaves : S → ℤ × Driver S → Type 0
  Leaves c r = r.1.client ≡ c

  client-init_event_failed : (d : Driver S) → Leaves d.client (init_event_failed d)
  unfolding init_event_failed free_main free_accept
  client-init_event_failed d = ground arith

  client-malloc_event_failed : (d : Driver S) → Leaves d.client (malloc_event_failed d)
  unfolding malloc_event_failed free_listener free_event
  client-malloc_event_failed d =
      client-init_event_failed (free_event (free_listener d)) ∙ ground arith

  client-create_thread_failed : (d : Driver S) → Leaves d.client (create_thread_failed d)
  unfolding create_thread_failed stop_main stop_accept
  client-create_thread_failed d =
      client-malloc_event_failed (stop_main (stop_accept d)) ∙ ground arith

  client-create_accept : (a : Answers) (d : Driver S) → Leaves d.client (create_accept a d)
  unfolding create_accept
  client-create_accept a d =
      by_if (Leaves d.client) (is_zero a.accept_thread.0) (λ ok. refl)
        (λ failed. client-create_thread_failed _)

  client-create_threads : (a : Answers) (d : Driver S) → Leaves d.client (create_threads a d)
  unfolding create_threads
  client-create_threads a d =
      by_if (Leaves d.client) (is_zero a.main_thread.0) (λ ok. client-create_accept a _)
        (λ failed. client-create_thread_failed _)

  client-create_timer : (a : Answers) (d : Driver S) → Leaves d.client (create_timer a d)
  unfolding create_timer
  client-create_timer a d =
      by_if (Leaves d.client) (is_negative a.assigned) (λ failed. client-malloc_event_failed d)
        (λ ok.
          by_if (Leaves d.client) (is_negative a.added) (λ failed. client-malloc_event_failed d)
            (λ ok'. client-create_threads a _))

  client-create_event : (a : Answers) (d : Driver S) → Leaves d.client (create_event a d)
  unfolding create_event create_listener
  client-create_event a d =
      by_if (Leaves d.client) (a.cycle_event == 0) (λ failed. client-malloc_event_failed _)
        (λ ok.
          by_if (Leaves d.client) (a.listener == 0) (λ failed. client-malloc_event_failed _)
            (λ ok'. client-create_timer a _))

  pub client-create : (a : Answers) (d : Driver S) → (create a d).1.client ≡ d.client
  unfolding create create_accept_base
  client-create a d =
      by_if (Leaves d.client) (a.main_base == 0) (λ failed. client-init_event_failed _)
        (λ ok.
          by_if (Leaves d.client) (a.accept_base == 0) (λ failed. client-init_event_failed _)
            (λ ok'. client-create_event a _))
