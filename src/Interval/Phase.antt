-- ===== src/Interval/Phase.antt =====
-- The ticks of dtinterval_scheduled.c, on a clock that tells the time and sleeps exactly.
use native.Mathlib.Nat.{div-mul-le_self, lt-div-mul-add, div-le_self, add-mul, one-mul}
use dtmc_base.Common.{
  ℕ, zero, suc, ◌+◌, ◌-◌, ◌*◌, ◌/◌, ◌%◌, ◌^◌, ◌<◌, ◌≤◌, ◌≡◌, ◌∙◌, ap, refl, List, [], ◌∷◌, Option,
  none, some, Dterr, true, false, ◌==◌, arith, length, add32, sub32, u32_mod, ltb,
}
use dtmc_base.Interval.{
  Clock, Callback, IntervalScheduled, next_tick_after, sleep_until, rounds, start,
}

-- On a clock that has not wrapped around since the start and will not within an interval, the next
-- tick is a whole number of intervals behind the first, behind the present, and at most an interval
-- behind it: ticks that were missed are skipped, and the phase stays.
pub next_tick_after_lem :
    (start_tick interval now : ℕ)
    → 0 < interval
    → start_tick ≤ now
    → now + interval < 2 ^ 32
    → let next = next_tick_after start_tick interval now in
      ((k : ℕ) × (next ≡ start_tick + k * interval)) × (now < next) × (next ≤ now + interval)
unfolding next_tick_after
next_tick_after_lem start_tick interval now p s b =
    let since : ℕ = now - start_tick in
    let q : ℕ = since / interval in
    let e : sub32 now start_tick ≡ since = omega arith in
    let low : q * interval ≤ since = div-mul-le_self since interval in
    let high : since < q * interval + interval = lt-div-mul-add p in
    let few : q ≤ since = div-le_self since interval in
    let product : (q + 1) * interval ≡ q * interval + interval =
      add-mul q 1 interval ∙ ap (λ x. q * interval + x) (one-mul interval) in
    let count : add32 q 1 ≡ q + 1 = omega arith in
    let next : next_tick_after start_tick interval now ≡ start_tick + (q + 1) * interval =
      rw (next_tick_after, e, count) (rw product (omega arith)) in
    rw next ((q + 1, refl), omega (arith, product), omega (arith, product))

-- The present, and the times of the calls, the last one first.
abbrev pub Timeline : Type 0
Timeline = ℕ × List ℕ

abbrev pub exact : Clock Timeline
exact = record { now = λ w. w.0 % u32_mod; sleep = λ n w. (false, (w.0 + n, w.1)) }

-- A callback that takes some time, depending on when it is called, and asks to pause at the `n`th call.
abbrev pub timed : (ℕ → ℕ) → ℕ → Callback Timeline
timed cost n w = (none, suc (length w.1) == n, false, (w.0 + cost w.0, w.0 ∷ w.1))

module _ (start_tick interval : ℕ) (cost : ℕ → ℕ) where
  -- The first call is at the first tick. Each later call is on the phase of the first, behind the end
  -- of the call before and at most an interval behind it.
  abbrev pub Scheduled : List ℕ → Type 0
  Scheduled [] = Unit
  Scheduled (t ∷ []) = t ≡ start_tick
  Scheduled (t' ∷ t ∷ ts) =
      ((k : ℕ) × (t' ≡ start_tick + k * interval))
      × (t + cost t < t')
      × (t' ≤ t + cost t + interval)
      × Scheduled (t ∷ ts)

  on_phase : (t : ℕ) (ts : List ℕ) → Scheduled (t ∷ ts) → (k : ℕ) × (t ≡ start_tick + k * interval)
  on_phase t [] h = (0, omega arith)
  on_phase t (u ∷ us) h = h.0

  -- The run ended, asked to, behind `n` calls on schedule.
  abbrev pub EndsOnSchedule :
      IntervalScheduled Timeline
      → ℕ
      → Option (Dterr × IntervalScheduled Timeline × Timeline)
      → Type 0
  EndsOnSchedule self n out =
      (w : Timeline) × (out ≡ some (none, record self { should_pause = true }, w))
      × Scheduled w.1
      × (length w.1 ≡ n)

sleep_until-exact :
    (time tick : ℕ) (log : List ℕ)
    → time < tick
    → tick < 2 ^ 32
    → sleep_until exact tick (time, log) ≡ (false, (tick, log))
unfolding sleep_until
sleep_until-exact time tick log before b =
    let now : time % u32_mod ≡ time = omega arith in
    let sleeps : ltb time tick ≡ true = ground arith in
    let wakes : time + (tick - time) ≡ tick = omega arith in
    rw (sleep_until, now, sleeps, wakes) refl

module _ (interval : ℕ) (cost : ℕ → ℕ) (longest : ℕ) (n start_tick : ℕ) where
  -- A round that begins before its tick calls the callback at the tick.
  rounds-tick :
      (fuel time tick : ℕ) (log : List ℕ) (self : IntervalScheduled Timeline)
      → self.should_pause ≡ false
      → time < tick
      → tick < 2 ^ 32
      → rounds exact (suc fuel) (timed cost n) start_tick tick self (time, log)
        ≡ rounds exact fuel
            (timed cost n)
            start_tick
            (next_tick_after start_tick self.interval_milliseconds ((tick + cost tick) % u32_mod))
            (record self { should_pause = suc (length log) == n })
            (tick + cost tick, tick ∷ log)
  unfolding rounds
  rounds-tick fuel time tick log self go before b =
      let sleeps = sleep_until-exact time tick log before b in rw (rounds, go, sleeps, sleeps) refl

  -- What the next round begins with.
  next_round :
      (tick : ℕ) (log : List ℕ)
      → 0 < interval
      → cost tick ≤ longest
      → Scheduled start_tick interval cost (tick ∷ log)
      → tick + (longest + interval) < 2 ^ 32
      → let done = tick + cost tick in
        let tick' = next_tick_after start_tick interval (tick + cost tick) in
        (done % u32_mod ≡ done)
        × (done < tick')
        × Scheduled start_tick interval cost (tick' ∷ tick ∷ log)
        × (tick' ≤ tick + (longest + interval))
  next_round tick log p c s b =
      let (k, phase) = on_phase start_tick interval cost tick log s in
      let (phase', after, soon) =
        next_tick_after_lem start_tick interval (tick + cost tick) p (omega arith) (omega arith) in
      (omega arith, after, (phase', after, soon, s), omega arith)

  rounds-EndsOnSchedule :
      (m time tick : ℕ) (log : List ℕ) (self : IntervalScheduled Timeline)
      → self.should_pause ≡ false
      → self.interval_milliseconds ≡ interval
      → 0 < interval
      → ((t : ℕ) → cost t ≤ longest)
      → length log + suc m ≡ n
      → time < tick
      → Scheduled start_tick interval cost (tick ∷ log)
      → tick + (m + 1) * (longest + interval) < 2 ^ 32
      → EndsOnSchedule start_tick interval cost self n
          (rounds exact (suc (suc m)) (timed cost n) start_tick tick self (time, log))
  unfolding rounds
  rounds-EndsOnSchedule zero time tick log self go iv p c l before s b =
      let last : (suc (length log) == n) ≡ true = ground arith in
      rw (rounds-tick 1 time tick log self go before (omega arith), last)
        ((tick + cost tick, tick ∷ log), refl, s, omega arith)
  rounds-EndsOnSchedule (suc m) time tick log self go iv p c l before s b =
      let k : ℕ = longest + interval in
      let step : (suc m + 1) * k ≡ (m + 1) * k + k =
        ap (λ x. x * k) (omega arith)
        ∙ add-mul (m + 1) 1 k
        ∙ ap (λ x. (m + 1) * k + x) (one-mul k) in
      let (now, after, s', soon) = next_round tick log p (c tick) s (omega arith) in
      let more : (suc (length log) == n) ≡ false = ground arith in
      rw (rounds-tick (suc (suc m)) time tick log self go before (omega arith), more, iv, now)
        (rounds-EndsOnSchedule m (tick + cost tick)
          (next_tick_after start_tick interval (tick + cost tick)) (tick ∷ log)
          (record self { interval_milliseconds = interval; should_pause = false }) refl refl p c
          (omega arith) after s' (omega arith))

-- With a callback that asks to pause at its `n`th call, and takes a time that depends on when it is
-- called, a start returns without an error after `n` calls, the first one exactly an interval after
-- the start. Each later call is a whole number of intervals behind the first, after the end of the call
-- before and at most an interval after it.
-- The clock starts below 2 ^ 32 and does not wrap around in `n + 1` intervals and longest calls, the
-- interval is not 0, and no pause is asked for before.
pub start-EndsOnSchedule :
    (cost : ℕ → ℕ) (longest m time : ℕ) (self : IntervalScheduled Timeline)
    → self.should_pause ≡ false
    → 0 < self.interval_milliseconds
    → ((t : ℕ) → cost t ≤ longest)
    → time + (m + 2) * (longest + self.interval_milliseconds) < 2 ^ 32
    → EndsOnSchedule
        (time + self.interval_milliseconds)
        self.interval_milliseconds
        cost
        self
        (suc m)
        (start exact (suc (suc m)) (timed cost (suc m)) self (time, []))
unfolding start
start-EndsOnSchedule cost longest m time self go p c b =
    let interval : ℕ = self.interval_milliseconds in
    let k : ℕ = longest + interval in
    let step : (m + 2) * k ≡ (m + 1) * k + k =
      ap (λ x. x * k) (omega arith) ∙ add-mul (m + 1) 1 k ∙ ap (λ x. (m + 1) * k + x) (one-mul k) in
    let now : time % u32_mod ≡ time = omega arith in
    let first : add32 (time % u32_mod) interval ≡ time + interval = omega arith in
    rw (start, first)
      (rounds-EndsOnSchedule interval cost longest (suc m) (time + interval) m time
        (time + interval) [] self go refl p c (omega arith) (omega arith) refl (omega arith))
