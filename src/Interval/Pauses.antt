-- ===== src/Interval/Pauses.antt =====
-- Pauses of the periodic caller of dtinterval_scheduled.c.
use dtmc_base.Common.{ℕ, zero, suc, ◌≡◌, refl, none, false, Bool-cases, inl, inr}
use dtmc_base.Interval.{Clock, Callback, IntervalScheduled, next_tick_after, sleep_until, rounds}

-- The callback without the pauses that come while it runs.
abbrev pub quiet : {W : Type 0} → Callback W → Callback W
quiet callback w = let (e, should_pause, pausing, w') = callback w in (e, should_pause, false, w')

-- A call of `pause` while a callback runs that succeeds is lost: with callbacks that always succeed, the
-- run is the same, step by step, as if nobody called `pause` while they ran.
pub rounds-quiet :
    {W : Type 0} (clock : Clock W) (callback : Callback W)
    → ((w : W) → (callback w).0 ≡ none)
    → (fuel start_tick next_tick : ℕ) (self : IntervalScheduled W) (w : W)
    → rounds clock fuel callback start_tick next_tick self w
      ≡ rounds clock fuel (quiet callback) start_tick next_tick self w
unfolding rounds
rounds-quiet clock callback fine zero start_tick next_tick self w = refl
rounds-quiet clock callback fine (suc fuel) start_tick next_tick self w =
    elim (Bool-cases self.should_pause) [
      | inl stops ↦ rw (rounds, stops) refl
      | inr goes_on ↦
          let (paused, w1) = sleep_until clock next_tick w in
          elim (Bool-cases paused) [
            | inl stops ↦ rw (rounds, goes_on, stops) refl
            | inr wakes ↦
                let (_, should_pause, _, w2) = callback w1 in
                rw (rounds, goes_on, wakes, fine w1)
                  (rounds-quiet clock callback fine fuel start_tick
                    (next_tick_after start_tick self.interval_milliseconds (clock.now w2))
                    (record self { should_pause = should_pause }) w2)
          ]
    ]
