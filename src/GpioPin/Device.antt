-- ===== src/GpioPin/Device.antt =====
-- The operations of dtgpiopin_dummy.c. The pointers that it checks for NULL are never NULL here,
-- but the callback.
use dtmc_base.Common.{
  ℕ, Option, none, some, Dterr, nomem, fail, Bool, true, false, not, ◌&&◌, ◌||◌, ◌==◌,
  if◌then◌else◌,
}
use dtmc_base.GpioPin.{
  Edge, rising, falling, mode_input, mode_output, mode_inout, PinConfig, PinBehavior, Pin,
}

-- `DTMC_BASE_CONSTANTS_GPIOPIN_MODEL_DUMMY`.
abbrev pub gpiopin_model_dummy : ℕ
gpiopin_model_dummy = 21601

-- The object after `memset (self, 0, sizeof (*self))`.
abbrev pub zeroed : {W : Type 0} → Pin W
zeroed = record {
  model_number = 0;
  is_malloced = false;
  config = record { pin_number = 0; mode = mode_input; pull = 0; drive = 0 };
  level = false;
  irq_enabled = false;
  cb = none;
  caller_context = 0;
  behavior = record {
    start_level_high = false;
    auto_edge_on_write = false;
    emit_edge_on_enable = false;
    irq_enabled_snapshot = false;
    last_level_snapshot = false;
  };
}

-- `set_vtable` is `dtgpiopin_set_vtable`, the registration by model number.
unfoldable pub init : {W : Type 0} → (ℕ → Dterr) → Dterr × Pin W
init {W} set_vtable =
    let self : Pin W = zeroed in
    (
      set_vtable gpiopin_model_dummy,
      record self {
        model_number = gpiopin_model_dummy;
        behavior = record self.behavior { auto_edge_on_write = true };
      },
    )

-- `allocated` says whether `malloc` gave an object.
unfoldable pub create : {W : Type 0} → (ℕ → Dterr) → Bool → Dterr × Option (Pin W)
create set_vtable false = (some nomem, none)
create set_vtable true =
    let (e, self) = init set_vtable in
    elim e [ some c ↦ (some c, none) | none ↦ (none, some (record self { is_malloced = true })) ]

-- The edge that belongs to a level.
abbrev pub edge_of : Bool → Edge
edge_of true = rising
edge_of false = falling

-- `a != b` for two `bool`.
abbrev pub is_change : Bool → Bool → Bool
is_change true b = not b
is_change false b = b

module _ {W : Type 0} where
  unfoldable pub configure : Pin W → PinConfig → Dterr × Pin W
  configure self config =
      let b = self.behavior in
      (
        none,
        if b.start_level_high
            then record self {
              config = config;
              level = true;
              behavior = record b { last_level_snapshot = true };
            }
            else record self {
              config = config;
              level = false;
              behavior = record b { last_level_snapshot = false };
            },
      )

  unfoldable pub get_behavior : Pin W → Dterr × PinBehavior
  get_behavior self = (none, self.behavior)

  unfoldable pub set_behavior : Pin W → PinBehavior → Dterr × Pin W
  set_behavior self b = (none, record self { behavior = b })

  unfoldable pub attach : Pin W → Option (Edge → ℕ → W → W) → ℕ → Dterr × Pin W
  attach self cb context = (none, record self { cb = cb; caller_context = context })

  -- A call of the callback, if there is one.
  unfoldable pub emit : Pin W → Edge → W → W
  emit self e w = elim self.cb [ none ↦ w | some f ↦ f e self.caller_context w ]

  unfoldable pub enable : Pin W → Bool → W → Dterr × Pin W × W
  enable s on w =
      let self = record s {
        irq_enabled = on;
        behavior = record s.behavior { irq_enabled_snapshot = on };
      } in
      (
        none,
        self,
        if on && self.behavior.emit_edge_on_enable then emit self (edge_of self.level) w else w,
      )

  unfoldable pub read : Pin W → Dterr × Bool
  read self = (none, self.level)

  unfoldable pub write : Pin W → Bool → W → Dterr × Pin W × W
  write s new_level w =
      let self = record s {
        level = new_level;
        behavior = record s.behavior { last_level_snapshot = new_level };
      } in
      if not (s.config.mode == mode_output || s.config.mode == mode_inout)
      then (some fail, s, w)
      else (
        none,
        self,
        if self.irq_enabled && (self.behavior.auto_edge_on_write && is_change s.level new_level)
            then emit self (edge_of new_level) w
            else w,
      )

  -- `none`: the object was freed.
  unfoldable pub dispose : Pin W → Option (Pin W)
  dispose self = if self.is_malloced then none else some zeroed
