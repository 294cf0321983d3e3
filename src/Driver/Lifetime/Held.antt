-- ===== src/Driver/Lifetime/Held.antt =====
-- What the driver has to give back, by its calls of libevent, malloc and pthread, and the rules
-- that these calls follow.
use y_rpc.Common.{
  ℕ, ◌≡◌, ◌≢◌, Bool, true, false, not, ◌&&◌, ◌||◌, List, [], ◌∷◌, ◌==◌, if◌then◌else◌,
}
use y_rpc.Driver.{
  Driver, Call, base_new, base_free, event_malloc, event_free, timer_add, timer_del, listener_new,
  listener_free, thread_create, loop_exit, thread_join, bufferevent_new, bufferevent_free,
}

-- What a call gives, and has to be given back. A timer is a pending event, a loop a running base,
-- and a bufferevent a connection.
pub data Resource : Type 0 where
  base event timer listener loop thread connection : ℕ → Resource

unfoldable pub takes : Resource → Call → Bool
takes (base a) (base_new b) = a == b
takes (event a) (event_malloc b) = a == b
takes (timer a) (timer_add b) = a == b
takes (listener a) (listener_new b c) = a == b
takes (loop a) (thread_create b c) = a == c
takes (thread a) (thread_create b c) = a == b
takes (connection a) (bufferevent_new b) = a == b
takes r c = false

unfoldable pub gives : Resource → Call → Bool
gives (base a) (base_free b) = a == b
gives (event a) (event_free b) = a == b
gives (timer a) (timer_del b) = a == b
gives (listener a) (listener_free b) = a == b
gives (loop a) (loop_exit b) = a == b
gives (thread a) (thread_join b) = a == b
gives (connection a) (bufferevent_free b) = a == b
gives r c = false

-- By the latest call that takes or gives it.
unfoldable pub held : Resource → List Call → Bool
unfolding takes gives
held r [] = false
held r (c ∷ cs) = if takes r c then true else (if gives r c then false else held r cs)

-- The rules of libevent, malloc and pthread that these calls have to follow: nothing is given back
-- that is not held, a base is not freed while its loop runs, nor an event while its timer pends.
unfoldable pub Allowed : Call → List Call → Type 0
unfolding held
Allowed (base_free a) cs = (held (base a) cs ≡ true) × (held (loop a) cs ≡ false)
Allowed (event_free a) cs = (held (event a) cs ≡ true) × (held (timer a) cs ≡ false)
Allowed (timer_del a) cs = held (timer a) cs ≡ true
Allowed (listener_free a) cs = held (listener a) cs ≡ true
Allowed (loop_exit a) cs = held (loop a) cs ≡ true
Allowed (thread_join a) cs = held (thread a) cs ≡ true
Allowed (bufferevent_free a) cs = held (connection a) cs ≡ true
Allowed c cs = Unit {0}

unfoldable pub IsOrderly : List Call → Type 0
unfolding Allowed
IsOrderly [] = Unit {0}
IsOrderly (c ∷ cs) = Allowed c cs × IsOrderly cs

-- One of two variables that are not NULL
unfoldable pub names : ℕ → ℕ → ℕ → Bool
names a b c = not (a == 0) && (a == b || a == c)

-- One of two bases whose loops run
unfoldable pub runs : ℕ → ℕ → ℕ → ℕ → ℕ → Bool
runs a b b_id c c_id = not (a == 0) && ((a == b && not (b_id == 0)) || (a == c && not (c_id == 0)))

module _ {S : Type 0} where
  -- The driver holds exactly what its variables name, and a timer if one pends.
  pub record Tracks (pending : ℕ) (d : Driver S) : Type 0 where
    pub bases : (a : ℕ) → held (base a) d.calls ≡ names a d.event_main_base d.event_accept_base
    pub events : (a : ℕ) → held (event a) d.calls ≡ names a d.cycle_check_event 0
    pub listeners : (a : ℕ) → held (listener a) d.calls ≡ names a d.evcon_listener 0
    pub timers : (a : ℕ) → held (timer a) d.calls ≡ names a pending 0
    pub threads :
        (a : ℕ) → held (thread a) d.calls ≡ names a d.comm_main_thread_id d.comm_accept_thread_id
    pub loops :
        (a : ℕ)
        → held (loop a) d.calls
          ≡ runs a d.event_main_base d.comm_main_thread_id d.event_accept_base
              d.comm_accept_thread_id
    pub two_bases : d.event_main_base ≡ d.event_accept_base → d.event_main_base ≡ 0
    pub two_threads : d.comm_main_thread_id ≡ d.comm_accept_thread_id → d.comm_main_thread_id ≡ 0
    pub main_runs : d.comm_main_thread_id ≢ 0 → d.event_main_base ≢ 0
    pub accept_runs : d.comm_accept_thread_id ≢ 0 → d.event_accept_base ≢ 0
