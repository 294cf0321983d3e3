-- ===== src/Start/Units.antt =====
-- rpc_core.cpp: the timeouts that start takes from the configuration, which are in milliseconds.
use y_rpc.Common.{ℕ, zero, suc, ◌+◌, ◌*◌, ◌%◌, ◌<◌, ◌≤◌, ◌≡◌, ◌↔◌, pos, arith}
use y_rpc.Head.{TimeVal}
use y_rpc.Start.{Process, set_times, timeout_of}

abbrev microseconds : TimeVal → ℕ
microseconds tv = tv.tv_sec * 1000000 + tv.tv_usec

-- `tv` stands for `ms` milliseconds as start computes it.
abbrev pub Shortens : ℕ → TimeVal → Type 0
Shortens ms tv =
    (microseconds tv ≤ ms * 1000)
    × ((microseconds tv ≡ ms * 1000) ↔ (ms % 1000 ≡ 0))
    × (tv.tv_usec < 1000)

timeout_of-Shortens : (ms : ℕ) → 0 < ms → Shortens ms (timeout_of (pos ms))
unfolding timeout_of
timeout_of-Shortens zero h = absurd (omega arith)
timeout_of-Shortens (suc n) h = (grind arith, (λ e. grind arith, λ e. grind arith), grind arith)

-- Of configured timeouts of so many milliseconds, neither of them 0, both timevals are at most as
-- long as configured, and exactly as long only for a number of whole seconds: the rest of less than
-- a second is taken as so many microseconds, fewer than 1000.
pub set_times-Shortens :
    {File L : Type 0} (connect interactive : ℕ) (p : Process File L)
    → p.process_conf.connect_timeout ≡ pos connect
    → p.process_conf.interactive_timeout ≡ pos interactive
    → 0 < connect
    → 0 < interactive
    → Shortens connect (set_times p).conn_tv × Shortens interactive (set_times p).comm_tv
unfolding set_times
set_times-Shortens connect interactive p e f some_time some_time' =
    rw (e, f) (timeout_of-Shortens connect some_time, timeout_of-Shortens interactive some_time')
