-- ===== src/Interval.antt =====
-- The periodic caller of dtmc_base_library/src/dtinterval_scheduled.c.
pub mod Phase
pub mod Pauses
pub mod Tests
use dtmc_base.Common.{
  ℕ, zero, suc, ◌+◌, ◌-◌, ◌*◌, ◌/◌, ◌%◌, List, Option, none, some, Dterr, nomem, fail, Bool, true,
  false, ◌||◌, ltb, add32, sub32, u32_mod, if◌then◌else◌,
}

-- The platform, on the state `W` of the world. `now` is `dtruntime_now_milliseconds`. A sleep says
-- whether another task called `pause` meanwhile.
pub record Clock (W : Type 0) : Type 0 where
  pub now : W → ℕ
  pub sleep : ℕ → W → Bool × W

-- What a callback, closed over its context, does: its result, what it stores in `*should_pause`,
-- whether it or another task called `pause` meanwhile, and the world.
abbrev pub Callback : Type 0 → Type 0
Callback W = W → Dterr × Bool × Bool × W

-- `dtinterval_scheduled_t`, with `dtinterval_scheduled_config_t`. Times are `uint32_t`.
pub record IntervalScheduled (W : Type 0) : Type 0 where
  pub model_number : ℕ
  pub interval_milliseconds : ℕ
  pub callback_fn : Option (Callback W)
  pub should_pause : Bool
  pub is_malloced : Bool

-- `DTMC_BASE_CONSTANTS_INTERVAL_MODEL_SCHEDULED`, and the constant that `init` uses,
-- `DTMC_BASE_CONSTANTS_INTERVAL_MODEL_ESPIDF`.
abbrev pub interval_model_scheduled : ℕ
interval_model_scheduled = 21101

abbrev pub interval_model_espidf : ℕ
interval_model_espidf = 21102

abbrev pub zeroed : {W : Type 0} → IntervalScheduled W
zeroed = record {
  model_number = 0;
  interval_milliseconds = 0;
  callback_fn = none;
  should_pause = false;
  is_malloced = false;
}

module _ {W : Type 0} where
  -- `set_vtable` is `dtinterval_set_vtable`.
  unfoldable pub init : (ℕ → Dterr) → Dterr × IntervalScheduled W
  init set_vtable = (
    elim (set_vtable interval_model_espidf) [ none ↦ none | some c ↦ some fail ],
    record zeroed { model_number = interval_model_espidf },
  )

  -- `allocate` is the result of `dtheaper_alloc_and_zero`. The object is `none` where there is none to
  -- use.
  unfoldable pub create : Dterr → (ℕ → Dterr) → Dterr × Option (IntervalScheduled W)
  create (some c) set_vtable = (some c, none)
  create none set_vtable =
      let (e, self) = init set_vtable in
      elim e [ some c ↦ (some c, none) | none ↦ (none, some (record self { is_malloced = true })) ]

  unfoldable pub configure : IntervalScheduled W → ℕ → Dterr × IntervalScheduled W
  configure self interval = (none, record self { interval_milliseconds = interval })

  -- The callback and its context are never NULL here.
  unfoldable pub set_callback : IntervalScheduled W → Callback W → Dterr × IntervalScheduled W
  set_callback self callback = (none, record self { callback_fn = some callback })

  unfoldable pub pause : IntervalScheduled W → Dterr × IntervalScheduled W
  pause self = (none, record self { should_pause = true })

  -- `none`: the object was freed.
  unfoldable pub dispose : IntervalScheduled W → Option (IntervalScheduled W)
  dispose self = if self.is_malloced then none else some zeroed

-- The next tick behind `now_after`. The interval is not 0, by which the source divides.
unfoldable pub next_tick_after : ℕ → ℕ → ℕ → ℕ
next_tick_after start_tick interval now_after =
    let ticks_elapsed = add32 (sub32 now_after start_tick / interval) 1 in
    add32 start_tick ((ticks_elapsed * interval) % u32_mod)

module _ {W : Type 0} (clock : Clock W) where
  -- The sleep in front of a tick.
  unfoldable pub sleep_until : ℕ → W → Bool × W
  sleep_until next_tick w =
      let now = clock.now w in
      if ltb now next_tick then clock.sleep (next_tick - now) w else (false, w)

  -- The `while` loop, for as many rounds as there is fuel; `none`: it goes on. What `*should_pause`
  -- says replaces a pause that came while the callback ran.
  unfoldable pub rounds :
      ℕ → Callback W → ℕ → ℕ → IntervalScheduled W → W → Option (Dterr × IntervalScheduled W × W)
  rounds zero callback start_tick next_tick self w = none
  rounds (suc fuel) callback start_tick next_tick self w = elim self.should_pause [
    | true ↦ some (none, self, w)
    | false ↦
        let (paused, w1) = sleep_until next_tick w in
        elim paused [
          | true ↦ some (none, record self { should_pause = true }, w1)
          | false ↦
              let (e, should_pause, pausing, w2) = callback w1 in
              elim e [
                | some c ↦
                    some (some c, record self { should_pause = self.should_pause || pausing }, w2)
                | none ↦
                    rounds fuel callback start_tick
                      (next_tick_after start_tick self.interval_milliseconds (clock.now w2))
                      (record self { should_pause = should_pause }) w2
              ]
        ]
  ]

  -- `start` with a callback that was set.
  unfoldable pub start :
      ℕ → Callback W → IntervalScheduled W → W → Option (Dterr × IntervalScheduled W × W)
  start fuel callback self w =
      let start_tick = add32 (clock.now w) self.interval_milliseconds in
      rounds fuel callback start_tick start_tick self w
