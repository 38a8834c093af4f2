-- ===== src/GpioPin.antt =====
-- The stand-in for a GPIO pin, dtmc_base_library/src/dtgpiopin_dummy.c: its types and those of
-- dtgpiopin.h. The operations and what holds of them stand in the children.
pub mod Device
pub mod Edges
pub mod Tests
use dtmc_base.Common.{ℕ, Option, Bool}

-- `dtgpiopin_edge_t`, without the constant for no edge, which is never reported.
pub data Edge : Type 0 where
  rising falling : Edge

-- `dtgpiopin_mode_t`, as the number of the constant, since a caller may pass any.
abbrev pub mode_input : ℕ
mode_input = 0

abbrev pub mode_output : ℕ
mode_output = 1

abbrev pub mode_inout : ℕ
mode_inout = 2

-- `dtgpiopin_dummy_config_t`. The pull and the drive are numbers of constants, too.
pub record PinConfig : Type 0 where
  pub pin_number : ℕ
  pub mode : ℕ
  pub pull : ℕ
  pub drive : ℕ

-- `dtgpiopin_dummy_behavior_t`.
pub record PinBehavior : Type 0 where
  pub start_level_high : Bool
  pub auto_edge_on_write : Bool
  pub emit_edge_on_enable : Bool
  pub irq_enabled_snapshot : Bool
  pub last_level_snapshot : Bool

-- `dtgpiopin_dummy_t`. The callback changes a world `W`; `none` stands for NULL.
pub record Pin (W : Type 0) : Type 0 where
  pub model_number : ℕ
  pub is_malloced : Bool
  pub config : PinConfig
  pub level : Bool
  pub irq_enabled : Bool
  pub cb : Option (Edge → ℕ → W → W)
  pub caller_context : ℕ
  pub behavior : PinBehavior
