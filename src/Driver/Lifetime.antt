-- ===== src/Driver/Lifetime.antt =====
-- libevent/comm_driver.cpp: create and destroy.
pub mod Held
pub mod Release
pub mod Laws
pub mod Acquire
pub mod Cover
pub mod Outcome
pub mod Create
pub mod Client
pub mod Connections
use y_rpc.Common.{
  ℕ, Bool, true, false, List, [], ◌∷◌, ◌==◌, ℤ, pos, negsuc, is_zero, is_negative, if◌then◌else◌,
}
use y_rpc.Driver.{
  Driver, Call, base_new, base_free, event_malloc, event_free, timer_add, timer_del, listener_new,
  listener_free, thread_create, loop_exit, thread_join, calling,
}

-- What the surroundings answer to create: the new objects (0 for NULL), the results of
-- evtimer_assign and evtimer_add, and of each pthread_create the result and the ID that stands in
-- the member afterwards.
pub record Answers : Type 0 where
  pub main_base : ℕ
  pub accept_base : ℕ
  pub cycle_event : ℕ
  pub listener : ℕ
  pub assigned : ℤ
  pub added : ℤ
  pub main_thread : ℤ × ℕ
  pub accept_thread : ℤ × ℕ

module _ {S : Type 0} where
  unfoldable pub stop_accept : Driver S → Driver S
  stop_accept d =
      if d.comm_accept_thread_id == 0
      then d
      else calling (thread_join d.comm_accept_thread_id)
          (calling (loop_exit d.event_accept_base) (record d { comm_accept_thread_id = 0 }))

  unfoldable pub stop_main : Driver S → Driver S
  stop_main d =
      if d.comm_main_thread_id == 0
      then d
      else calling (thread_join d.comm_main_thread_id)
          (calling (loop_exit d.event_main_base) (record d { comm_main_thread_id = 0 }))

  unfoldable pub free_listener : Driver S → Driver S
  free_listener d =
      if d.evcon_listener == 0
      then d
      else calling (listener_free d.evcon_listener) (record d { evcon_listener = 0 })

  -- In the error path the timer is not deleted.
  unfoldable pub free_event : Driver S → Driver S
  free_event d =
      if d.cycle_check_event == 0
      then d
      else calling (event_free d.cycle_check_event) (record d { cycle_check_event = 0 })

  unfoldable pub delete_event : Driver S → Driver S
  delete_event d =
      if d.cycle_check_event == 0
      then d
      else calling (event_free d.cycle_check_event)
          (calling (timer_del d.cycle_check_event) (record d { cycle_check_event = 0 }))

  unfoldable pub free_main : Driver S → Driver S
  free_main d =
      if d.event_main_base == 0
      then d
      else calling (base_free d.event_main_base) (record d { event_main_base = 0 })

  unfoldable pub free_accept : Driver S → Driver S
  free_accept d =
      if d.event_accept_base == 0
      then d
      else calling (base_free d.event_accept_base) (record d { event_accept_base = 0 })

  -- The three labels of the error path
  unfoldable pub init_event_failed : Driver S → ℤ × Driver S
  init_event_failed d = (negsuc 0, free_accept (free_main d))

  unfoldable pub malloc_event_failed : Driver S → ℤ × Driver S
  malloc_event_failed d = init_event_failed (free_event (free_listener d))

  unfoldable pub create_thread_failed : Driver S → ℤ × Driver S
  create_thread_failed d = malloc_event_failed (stop_main (stop_accept d))

  unfoldable pub create_accept : Answers → Driver S → ℤ × Driver S
  create_accept a d =
      let with_id = record d { comm_accept_thread_id = a.accept_thread.1 } in
      if is_zero a.accept_thread.0
      then (pos 0, calling (thread_create a.accept_thread.1 d.event_accept_base) with_id)
      else create_thread_failed with_id

  unfoldable pub create_threads : Answers → Driver S → ℤ × Driver S
  create_threads a d =
      let with_id = record d { comm_main_thread_id = a.main_thread.1 } in
      if is_zero a.main_thread.0
      then create_accept a (calling (thread_create a.main_thread.1 d.event_main_base) with_id)
      else create_thread_failed with_id

  unfoldable pub create_timer : Answers → Driver S → ℤ × Driver S
  create_timer a d =
      if is_negative a.assigned
      then malloc_event_failed d
      else (if is_negative a.added
          then malloc_event_failed d
          else create_threads a
              (record (calling (timer_add d.cycle_check_event) d) { has_handler = true }))

  unfoldable pub create_listener : Answers → Driver S → ℤ × Driver S
  create_listener a d =
      let with_listener = record d { evcon_listener = a.listener } in
      if a.listener == 0
      then malloc_event_failed with_listener
      else create_timer a (calling (listener_new a.listener d.event_accept_base) with_listener)

  unfoldable pub create_event : Answers → Driver S → ℤ × Driver S
  create_event a d =
      let with_event = record d { cycle_check_event = a.cycle_event } in
      if a.cycle_event == 0
      then malloc_event_failed with_event
      else create_listener a (calling (event_malloc a.cycle_event) with_event)

  unfoldable pub create_accept_base : Answers → Driver S → ℤ × Driver S
  create_accept_base a d =
      let with_base = record d { event_accept_base = a.accept_base } in
      if a.accept_base == 0
      then init_event_failed with_base
      else create_event a (calling (base_new a.accept_base) with_base)

  unfoldable pub create : Answers → Driver S → ℤ × Driver S
  create a d =
      let with_base = record d { event_main_base = a.main_base } in
      if a.main_base == 0
      then init_event_failed with_base
      else create_accept_base a (calling (base_new a.main_base) with_base)

  unfoldable pub destroy : Driver S → Driver S
  unfolding stop_accept stop_main free_listener delete_event free_main free_accept
  destroy d = free_accept (free_main (delete_event (free_listener (stop_main (stop_accept d)))))
