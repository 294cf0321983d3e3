-- ===== src/Proxy/Deadline.antt =====
-- rpc_proxy.cpp: the deadline of RPCProxy::wait.
use y_rpc.Common.{ℕ, ◌+◌, ◌*◌, ◌<◌, ◌≡◌, ◌↔◌, some, arith}
use y_rpc.Head.{TimeVal}
use y_rpc.Proxy.{TimeSpec, tp_tvaddtp, wait_until}

-- A time in nanoseconds
abbrev nanoseconds : TimeSpec → ℕ
nanoseconds t = t.tv_sec * 1000000000 + t.tv_nsec

-- For a timeout that is not zero, and a clock whose nanoseconds are below a second, the deadline is
-- exactly the timeout behind the time of the clock. Its nanoseconds are below a second, as
-- pthread_cond_timedwait wants them, exactly if those of the timeout and the clock are together
-- below two seconds.
pub wait_until_lem :
    (tv : TimeVal) (now : TimeSpec)
    → 0 < tv.tv_sec + tv.tv_usec
    → now.tv_nsec < 1000000000
    → (t : TimeSpec) × (wait_until tv now ≡ some t)
      × (nanoseconds t ≡ tv.tv_sec * 1000000000 + tv.tv_usec * 1000 + nanoseconds now)
      × ((t.tv_nsec < 1000000000) ↔ (tv.tv_usec * 1000 + now.tv_nsec < 2000000000))
unfolding wait_until
wait_until_lem tv now some_time normal =
    (tp_tvaddtp tv now, ground arith, ground arith, (λ h. ground arith, λ h. ground arith))
