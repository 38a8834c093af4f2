-- ===== src/Mcp4728/Device.antt =====
-- The operations of dtmcp4728_dummy.c. The pointers that it checks for NULL are never NULL here.
use dtmc_base.Common.{
  not, ℕ, List, ◌++◌, Option, none, some, Dterr, fail, badarg, badconfig, Bool, true, false, ◌||◌,
  slt, add32, take, drop, replicate, fail_if, ◌or_else◌, if◌then◌else◌,
}
use dtmc_base.Mcp4728.{ChannelConfig, Dummy, channel_count_max}
use dtmc_base.Mcp4728.Checks.{
  validate_attached, validate_channel, validate_channel_config, validate_all, validate_sequence,
}

abbrev pub zero_config : ChannelConfig
zero_config = record {
  channel = 0;
  value_12bit = 0;
  vref = 0;
  power_down = 0;
  gain = 0;
  udac = false;
}

-- The object after `memset (self, 0, sizeof (*self))`.
abbrev pub zeroed : Dummy
zeroed = record {
  model_number = 0;
  device_address_7bit = 0;
  is_configured = false;
  is_attached = false;
  inject_attach_error = none;
  inject_fast_write_error = none;
  inject_multi_write_error = none;
  inject_sequential_write_error = none;
  inject_single_write_eeprom_error = none;
  inject_read_all_error = none;
  attach_call_count = 0;
  detach_call_count = 0;
  fast_write_call_count = 0;
  multi_write_call_count = 0;
  sequential_write_call_count = 0;
  single_write_eeprom_call_count = 0;
  general_call_reset_call_count = 0;
  general_call_wakeup_call_count = 0;
  general_call_software_update_call_count = 0;
  read_all_call_count = 0;
  dispose_call_count = 0;
  last_fast_write = replicate channel_count_max zero_config;
  last_multi_write = zero_config;
  last_sequential_write = replicate channel_count_max zero_config;
  last_sequential_write_count = 0;
  last_single_write_eeprom = zero_config;
  is_malloced = false;
}

-- `DTMC_BASE_CONSTANTS_MCP4728_MODEL_DUMMY`.
abbrev pub mcp4728_model_dummy : ℕ
mcp4728_model_dummy = 22400

-- The vtable registration is code outside this component: it takes a model number.
unfoldable pub init : (ℕ → Dterr) → Dterr × Dummy
init set_vtable = (
  elim (set_vtable mcp4728_model_dummy) [ some e ↦ some fail | none ↦ none ],
  record zeroed { model_number = mcp4728_model_dummy },
)

-- `allocated` says whether `malloc` gave an object. The object is `none` where `*self_ptr` is NULL.
unfoldable pub create : (ℕ → Dterr) → Bool → Dterr × Option Dummy
create set_vtable false = (some fail, none)
create set_vtable true =
    let (e, self) = init set_vtable in
    elim e [ some c ↦ (some fail, none) | none ↦ (none, some (record self { is_malloced = true })) ]

unfoldable pub configure : Dummy → ℕ → Dterr × Dummy
configure self device_address =
    if self.is_attached
    then (some badconfig, self)
    else (none, record self { device_address_7bit = device_address; is_configured = true })

unfoldable pub attach : Dummy → Dterr × Dummy
attach s =
    let self = record s { attach_call_count = add32 s.attach_call_count 1 } in
    elim self.inject_attach_error [
      | some e ↦ (some e, record self { inject_attach_error = none })
      | none ↦
          if self.is_configured
          then (if self.is_attached
              then (some badconfig, self)
              else (none, record self { is_attached = true }))
          else (some badconfig, self)
    ]

unfoldable pub detach : Dummy → Dterr × Dummy
detach s =
    let self = record s { detach_call_count = add32 s.detach_call_count 1 } in
    if self.is_attached then (none, record self { is_attached = false }) else (none, self)

-- `none`: the object was freed.
unfoldable pub dispose : Dummy → Option Dummy
dispose s =
    let counted = record s { dispose_call_count = add32 s.dispose_call_count 1 } in
    let self = if counted.is_attached then (detach counted).1 else counted in
    if self.is_malloced
    then none
    else some (record zeroed { dispose_call_count = self.dispose_call_count })

-- `channels` is the caller's array of `DTMCP4728_CHANNEL_COUNT` entries.
unfoldable pub fast_write : Dummy → List ChannelConfig → Dterr × Dummy
fast_write s channels =
    let self = record s { fast_write_call_count = add32 s.fast_write_call_count 1 } in
    elim self.inject_fast_write_error [
      | some e ↦ (some e, record self { inject_fast_write_error = none })
      | none ↦
          elim (validate_attached self or_else validate_all (take channel_count_max channels)) [
            | some e ↦ (some e, self)
            | none ↦ (none, record self { last_fast_write = take channel_count_max channels })
          ]
    ]

unfoldable pub multi_write : Dummy → ChannelConfig → Dterr × Dummy
multi_write s channel_config =
    let self = record s { multi_write_call_count = add32 s.multi_write_call_count 1 } in
    elim self.inject_multi_write_error [
      | some e ↦ (some e, record self { inject_multi_write_error = none })
      | none ↦ elim (validate_attached self or_else validate_channel_config channel_config) [
        | some e ↦ (some e, self)
        | none ↦ (none, record self { last_multi_write = channel_config })
      ]
    ]

-- The checks of `sequential_write`. `channel_configs` is what the caller's array holds.
unfoldable pub check_sequential : Dummy → ℕ → List ChannelConfig → ℕ → Dterr
check_sequential self start_channel channel_configs channel_count =
    validate_attached self
    or_else validate_channel start_channel
    or_else fail_if (not (slt 0 channel_count) || slt channel_count_max channel_count) badarg
    or_else fail_if (slt channel_count_max (add32 start_channel channel_count)) badarg
    or_else validate_sequence start_channel (take channel_count channel_configs)

unfoldable pub sequential_write : Dummy → ℕ → List ChannelConfig → ℕ → Dterr × Dummy
sequential_write s start_channel channel_configs channel_count =
    let self = record s { sequential_write_call_count = add32 s.sequential_write_call_count 1 } in
    elim self.inject_sequential_write_error [
      | some e ↦ (some e, record self { inject_sequential_write_error = none })
      | none ↦ elim (check_sequential self start_channel channel_configs channel_count) [
        | some e ↦ (some e, self)
        | none ↦ (
          none,
          record self {
            last_sequential_write =
                take channel_count channel_configs ++ drop channel_count self.last_sequential_write;
            last_sequential_write_count = channel_count;
          },
        )
      ]
    ]

unfoldable pub single_write_eeprom : Dummy → ChannelConfig → Dterr × Dummy
single_write_eeprom s channel_config =
    let self = record s {
      single_write_eeprom_call_count = add32 s.single_write_eeprom_call_count 1;
    } in
    elim self.inject_single_write_eeprom_error [
      | some e ↦ (some e, record self { inject_single_write_eeprom_error = none })
      | none ↦ elim (validate_attached self or_else validate_channel_config channel_config) [
        | some e ↦ (some e, self)
        | none ↦ (none, record self { last_single_write_eeprom = channel_config })
      ]
    ]

unfoldable pub general_call_reset : Dummy → Dterr × Dummy
general_call_reset s =
    let self = record s {
      general_call_reset_call_count = add32 s.general_call_reset_call_count 1;
    } in
    (validate_attached self, self)

unfoldable pub general_call_wakeup : Dummy → Dterr × Dummy
general_call_wakeup s =
    let self = record s {
      general_call_wakeup_call_count = add32 s.general_call_wakeup_call_count 1;
    } in
    (validate_attached self, self)

unfoldable pub general_call_software_update : Dummy → Dterr × Dummy
general_call_software_update s =
    let self = record s {
      general_call_software_update_call_count = add32 s.general_call_software_update_call_count 1;
    } in
    (validate_attached self, self)

-- The value is what the caller's array gets, `none` where it is left alone.
unfoldable pub read_all : Dummy → Dterr × Option (List ChannelConfig) × Dummy
read_all s =
    let self = record s { read_all_call_count = add32 s.read_all_call_count 1 } in
    elim self.inject_read_all_error [
      | some e ↦ (some e, none, record self { inject_read_all_error = none })
      | none ↦ elim (validate_attached self) [
        | some e ↦ (some e, none, self)
        | none ↦ (none, some self.last_fast_write, self)
      ]
    ]
