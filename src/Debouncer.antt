-- ===== src/Debouncer.antt =====
-- The debounce filter of dtmc_base_library/src/dtdebouncer.c: its type and its two functions. The
-- object's address is never NULL here. The callback gets the context and no pointer to the filter.
pub mod Reports
pub mod Pulses
pub mod Tests
use dtmc_base.Common.{
  ℕ, Option, none, some, Bool, true, false, not, ◌&&◌, Dterr, argument_null, leb, add32, sub32,
  if◌then◌else◌,
}

-- `dtdebouncer_t` over a world `W`, which the time function and the callback may change. `none`
-- stands for a NULL function. The counters are `uint32_t`.
pub record Debouncer (W : Type 0) : Type 0 where
  pub stable_state : Bool
  pub candidate_state : Bool
  pub candidate_time_ms : ℕ
  pub debounce_ms : ℕ
  pub callback_fn : Option (Bool → ℕ → W → W)
  pub callback_context : ℕ
  pub time_now_ms : Option (W → ℕ × W)
  pub raw_edge_count : ℕ
  pub debounced_edge_count : ℕ
  pub rise_count : ℕ
  pub fall_count : ℕ

-- `a != b` for two `bool`.
abbrev pub differs : Bool → Bool → Bool
differs true b = not b
differs false b = b

module _ {W : Type 0} where
  -- `dtdebouncer_init`. The object `self` is what the storage held, which a NULL time function
  -- leaves as it is.
  unfoldable pub init :
      Debouncer W
      → Bool
      → ℕ
      → Option (Bool → ℕ → W → W)
      → ℕ
      → Option (W → ℕ × W)
      → W
      → Dterr × Debouncer W × W
  init self initial_state debounce callback context none w = (some argument_null, self, w)
  init self initial_state debounce callback context (some time_fn) w =
      let (now, w') = time_fn w in
      (
        none,
        record {
          stable_state = initial_state;
          candidate_state = initial_state;
          candidate_time_ms = now;
          debounce_ms = debounce;
          callback_fn = callback;
          callback_context = context;
          time_now_ms = some time_fn;
          raw_edge_count = 0;
          debounced_edge_count = 0;
          rise_count = 0;
          fall_count = 0;
        },
        w',
      )

  -- The candidate becomes the stable state.
  unfoldable pub accept : Debouncer W → Debouncer W
  accept self =
      let old = self.stable_state in
      let new = self.candidate_state in
      record self {
        stable_state = new;
        debounced_edge_count = add32 self.debounced_edge_count 1;
        rise_count = if not old && new then add32 self.rise_count 1 else self.rise_count;
        fall_count =
            if not old && new
            then self.fall_count
            else if old && not new
            then add32 self.fall_count 1
            else self.fall_count;
      }

  -- The call of the callback, if there is one.
  unfoldable pub notify : Debouncer W → W → W
  notify self w = elim self.callback_fn [
    | none ↦ w
    | some f ↦ f self.stable_state self.callback_context w
  ]

  -- `dtdebouncer_update` once `now` is read.
  unfoldable pub sample : Debouncer W → Bool → ℕ → W → Debouncer W × W
  sample self raw_state now w =
      if differs raw_state self.candidate_state
      then (
        record self {
          candidate_state = raw_state;
          candidate_time_ms = now;
          raw_edge_count = add32 self.raw_edge_count 1;
        },
        w,
      )
      else if differs self.candidate_state self.stable_state
          && leb self.debounce_ms (sub32 now self.candidate_time_ms)
      then (accept self, notify (accept self) w)
      else (self, w)

  -- `dtdebouncer_update`.
  unfoldable pub update : Debouncer W → Bool → W → Debouncer W × W
  update self raw_state w = elim self.time_now_ms [
    | none ↦ (self, w)
    | some time_fn ↦ let (now, w') = time_fn w in sample self raw_state now w'
  ]
