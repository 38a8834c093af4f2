-- ===== src/Mcp4728.antt =====
-- The test double of the DAC, dtmc_base_library/src/dtmcp4728_dummy.c: the types of it and of
-- dtmcp4728.h. The checks, the operations and what holds of them stand in the children.
pub mod Checks
pub mod Device
pub mod Captures
pub mod Calls
pub mod Tests
use dtmc_base.Common.{ℕ, List, [], ◌∷◌, Dterr, Bool, replicate}

abbrev pub channel_count_max : ℕ
channel_count_max = 4

-- `dtmcp4728_channel_config_t`. An enumeration is a number, the `int32_t` that the checks convert
-- it to, since a caller may pass any: the constants of each count from 0.
pub record ChannelConfig : Type 0 where
  pub channel : ℕ
  pub value_12bit : ℕ
  pub vref : ℕ
  pub power_down : ℕ
  pub gain : ℕ
  pub udac : Bool

-- `dtmcp4728_dummy_t`. The configuration's one field stands for it; the counters are `int32_t`, and
-- an injected error is the error or `none` for NULL.
pub record Dummy : Type 0 where
  pub model_number : ℕ
  pub device_address_7bit : ℕ
  pub is_configured : Bool
  pub is_attached : Bool
  pub inject_attach_error : Dterr
  pub inject_fast_write_error : Dterr
  pub inject_multi_write_error : Dterr
  pub inject_sequential_write_error : Dterr
  pub inject_single_write_eeprom_error : Dterr
  pub inject_read_all_error : Dterr
  pub attach_call_count : ℕ
  pub detach_call_count : ℕ
  pub fast_write_call_count : ℕ
  pub multi_write_call_count : ℕ
  pub sequential_write_call_count : ℕ
  pub single_write_eeprom_call_count : ℕ
  pub general_call_reset_call_count : ℕ
  pub general_call_wakeup_call_count : ℕ
  pub general_call_software_update_call_count : ℕ
  pub read_all_call_count : ℕ
  pub dispose_call_count : ℕ
  pub last_fast_write : List ChannelConfig
  pub last_multi_write : ChannelConfig
  pub last_sequential_write : List ChannelConfig
  pub last_sequential_write_count : ℕ
  pub last_single_write_eeprom : ChannelConfig
  pub is_malloced : Bool
