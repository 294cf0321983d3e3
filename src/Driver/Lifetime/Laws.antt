-- ===== src/Driver/Lifetime/Laws.antt =====
-- What create and destroy hold, free and leave.
use y_rpc.Common.{◌≡◌, ◌≢◌, true, is_zero, arith}
use y_rpc.Driver.{Driver}
use y_rpc.Driver.Lifetime.{
  Answers, stop_accept, stop_main, free_listener, delete_event, free_main, destroy,
}
use y_rpc.Driver.Lifetime.Held.{IsOrderly, Tracks}
use y_rpc.Driver.Lifetime.Release.{
  stop_accept-Tracks, stop_main-Tracks, free_listener-Tracks, delete_event-Tracks, free_main-Tracks,
  free_accept-Tracks, stop_accept-IsOrderly, stop_main-IsOrderly, free_listener-IsOrderly,
  delete_event-IsOrderly, free_main-IsOrderly, free_accept-IsOrderly,
}

-- Objects that exist at the same time have different addresses and IDs. A pthread_create that
-- succeeds writes an ID that is not 0, as the tests of the code want it; one that fails may leave
-- any ID.
pub record IsPlausible (a : Answers) : Type 0 where
  pub two_bases : a.main_base ≡ a.accept_base → a.main_base ≡ 0
  pub two_threads :
      is_zero a.main_thread.0 ≡ true
      → is_zero a.accept_thread.0 ≡ true
      → a.main_thread.1 ≢ a.accept_thread.1
  pub main_started : is_zero a.main_thread.0 ≡ true → a.main_thread.1 ≢ 0
  pub accept_started : is_zero a.accept_thread.0 ≡ true → a.accept_thread.1 ≢ 0

module _ {S : Type 0} where
  -- All the variables are NULL.
  pub record IsClosed (d : Driver S) : Type 0 where
    pub no_main : d.event_main_base ≡ 0
    pub no_accept : d.event_accept_base ≡ 0
    pub no_event : d.cycle_check_event ≡ 0
    pub no_listener : d.evcon_listener ≡ 0
    pub no_main_thread : d.comm_main_thread_id ≡ 0
    pub no_accept_thread : d.comm_accept_thread_id ≡ 0

  pub destroy-IsClosed : (d : Driver S) → IsClosed (destroy d)
  unfolding destroy
  destroy-IsClosed d = record {
    no_main = ground arith;
    no_accept = ground arith;
    no_event = ground arith;
    no_listener = ground arith;
    no_main_thread = ground arith;
    no_accept_thread = ground arith;
  }

  -- Whatever is held is given back by destroy, in an allowed order.
  pub destroy-Tracks :
      (d : Driver S)
      → Tracks d.cycle_check_event d
      → IsOrderly d.calls
      → Tracks 0 (destroy d) × IsOrderly (destroy d).calls
  unfolding destroy
  destroy-Tracks d t o =
      let t₁ = stop_accept-Tracks d t in
      let o₁ = stop_accept-IsOrderly d t o in
      let d₁ = stop_accept d in
      let t₂ = stop_main-Tracks d₁ t₁ in
      let o₂ = stop_main-IsOrderly d₁ t₁ o₁ in
      let d₂ = stop_main d₁ in
      let t₃ = free_listener-Tracks d₂ t₂ in
      let o₃ = free_listener-IsOrderly d₂ t₂ o₂ in
      let d₃ = free_listener d₂ in
      let kept : d.cycle_check_event ≡ d₃.cycle_check_event = ground arith in
      let t₄ = delete_event-Tracks d₃ kept t₃ in
      let o₄ = delete_event-IsOrderly d₃ kept t₃ o₃ in
      let d₄ = delete_event d₃ in
      let main_idle : d₄.comm_main_thread_id ≡ 0 = ground arith in
      let t₅ = free_main-Tracks d₄ main_idle t₄ in
      let o₅ = free_main-IsOrderly d₄ main_idle t₄ o₄ in
      let d₅ = free_main d₄ in
      let accept_idle : d₅.comm_accept_thread_id ≡ 0 = ground arith in
      (free_accept-Tracks d₅ accept_idle t₅, free_accept-IsOrderly d₅ accept_idle t₅ o₅)
