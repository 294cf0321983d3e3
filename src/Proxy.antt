-- ===== src/Proxy.antt =====
-- rpc_proxy.h and rpc_proxy.cpp: the class RPCProxy. Its member `response` is a part of the core's
-- state (Core); here are its pthread objects and the time that it waits for.
pub mod Deadline
use y_rpc.Common.{
  ℕ, suc, ◌+◌, ◌-◌, ◌*◌, Bool, true, false, ◌&&◌, List, [], ◌∷◌, leb, ◌==◌, Option, none, some, ℤ,
  pos, negsuc, is_zero, if◌then◌else◌,
}
use y_rpc.Head.{TimeVal}

-- The calls of pthread_attr, pthread_cond and pthread_mutex that succeeded
pub data ProxyCall : Type 0 where
  attr_init attr_destroy cond_init cond_destroy mutex_init mutex_destroy : ProxyCall

-- `init`, on the results of its three calls, the latest call first
unfoldable pub init_proxy : ℤ → ℤ → ℤ → List ProxyCall → ℤ × List ProxyCall
init_proxy attr cond mutex calls =
    if is_zero attr
    then (if is_zero cond
        then (if is_zero mutex
            then (pos 0, mutex_init ∷ cond_init ∷ attr_init ∷ calls)
            else (negsuc 0, cond_destroy ∷ attr_destroy ∷ cond_init ∷ attr_init ∷ calls))
        else (negsuc 0, attr_destroy ∷ attr_init ∷ calls))
    else (negsuc 0, calls)

unfoldable pub destroy_proxy : List ProxyCall → List ProxyCall
destroy_proxy calls = attr_destroy ∷ cond_destroy ∷ mutex_destroy ∷ calls

pub record TimeSpec : Type 0 where
  pub tv_sec : ℕ
  pub tv_nsec : ℕ

-- The macro tp_tvaddtp
unfoldable pub tp_tvaddtp : TimeVal → TimeSpec → TimeSpec
tp_tvaddtp tv tp =
    let tv_sec = tv.tv_sec + tp.tv_sec in
    let tv_nsec = tv.tv_usec * 1000 + tp.tv_nsec in
    if leb 1000000000 tv_nsec
    then record { tv_sec = tv_sec + 1; tv_nsec = tv_nsec - 1000000000 }
    else record { tv_sec = tv_sec; tv_nsec = tv_nsec }

-- Until when `wait` waits, if not for ever: `now` is what clock_gettime gives.
unfoldable pub wait_until : TimeVal → TimeSpec → Option TimeSpec
unfolding tp_tvaddtp
wait_until tv now = if tv.tv_sec == 0 && tv.tv_usec == 0 then none else some (tp_tvaddtp tv now)

-- The result of `wait`, by the result of the pthread_cond_wait or pthread_cond_timedwait
unfoldable pub wait_result : ℤ → ℤ
wait_result result = if is_zero result then pos 0 else negsuc 0
