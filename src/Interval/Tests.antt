-- ===== src/Interval/Tests.antt =====
-- The periodic caller at concrete inputs.
use dtmc_base.Common.{ℕ, ◌+◌, ◌≤◌, ◌==◌, refl, [], none, true, false, arith, if◌then◌else◌}
use dtmc_base.Interval.{Callback, IntervalScheduled, zeroed, start}
use dtmc_base.Interval.Phase.{Timeline, exact, timed, EndsOnSchedule, start-EndsOnSchedule}

abbrev tenth : IntervalScheduled Timeline
tenth = record zeroed { interval_milliseconds = 10 }

-- The call at 110 takes longer than two intervals.
abbrev cost : ℕ → ℕ
cost t = if t == 110 then 25 else 3

cost_most : (t : ℕ) → cost t ≤ 25
cost_most t = ground arith

start-EndsOnSchedule_example :
    EndsOnSchedule 110 10 cost tenth 3 (start exact 4 (timed cost 3) tenth (100, []))
start-EndsOnSchedule_example =
    start-EndsOnSchedule cost 25 2 100 tenth refl (omega arith) cost_most (omega arith)

-- Somebody calls `pause` during every call.
abbrev disturbed : Callback Timeline
disturbed w = (none, false, true, (w.0 + 3, w.1))
