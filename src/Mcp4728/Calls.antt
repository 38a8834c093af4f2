-- ===== src/Mcp4728/Calls.antt =====
-- Sequences of calls on the double of dtmcp4728_dummy.c.
use dtmc_base.Common.{ℕ, ◌≡◌, ◌≢◌, refl, List, [], ◌∷◌, none, Dterr, true, not, ◌||◌, arith}
use dtmc_base.Mcp4728.{ChannelConfig, Dummy}
use dtmc_base.Mcp4728.Checks.{
  validate_attached, validate_channel_config, validate_all, validate_channel,
}
use dtmc_base.Mcp4728.Device.{
  init, configure, attach, detach, fast_write, multi_write, sequential_write, single_write_eeprom,
  general_call_reset, general_call_wakeup, general_call_software_update, read_all,
}

-- A call of one of the functions, with its arguments.
pub data Call : Type 0 where
  call_configure : ℕ → Call
  call_attach call_detach call_reset call_wakeup call_software_update call_read_all : Call
  call_fast_write : List ChannelConfig → Call
  call_multi_write call_single_write_eeprom : ChannelConfig → Call
  call_sequential_write : ℕ → List ChannelConfig → ℕ → Call

unfoldable pub apply : Call → Dummy → Dterr × Dummy
apply (call_configure address) d = configure d address
apply call_attach d = attach d
apply call_detach d = detach d
apply call_reset d = general_call_reset d
apply call_wakeup d = general_call_wakeup d
apply call_software_update d = general_call_software_update d
apply call_read_all d = let (e, _, d') = read_all d in (e, d')
apply (call_fast_write cs) d = fast_write d cs
apply (call_multi_write c) d = multi_write d c
apply (call_single_write_eeprom c) d = single_write_eeprom d c
apply (call_sequential_write start cs n) d = sequential_write d start cs n

unfoldable pub apply_all : List Call → Dummy → Dummy
apply_all [] d = d
apply_all (c ∷ cs) d = apply_all cs (apply c d).1

-- The object is configured if it is attached, and the captured settings pass the validation.
abbrev pub IsConsistent : Dummy → Type 0
IsConsistent d =
    ((not d.is_attached || d.is_configured) ≡ true)
    × (validate_all d.last_fast_write ≡ none)
    × (validate_channel_config d.last_multi_write ≡ none)
    × (validate_channel_config d.last_single_write_eeprom ≡ none)

apply-IsConsistent : (c : Call) (d : Dummy) → IsConsistent d → IsConsistent (apply c d).1
unfolding apply validate_attached configure attach detach general_call_reset general_call_wakeup
    general_call_software_update read_all fast_write multi_write single_write_eeprom
    sequential_write
apply-IsConsistent (call_configure address) d h = ground arith
apply-IsConsistent call_attach d h = ground arith
apply-IsConsistent call_detach d h = ground arith
apply-IsConsistent call_reset d h = ground arith
apply-IsConsistent call_wakeup d h = ground arith
apply-IsConsistent call_software_update d h = ground arith
apply-IsConsistent call_read_all d h = ground arith
apply-IsConsistent (call_fast_write cs) d h = ground arith
apply-IsConsistent (call_multi_write c) d h = ground arith
apply-IsConsistent (call_single_write_eeprom c) d h = ground arith
apply-IsConsistent (call_sequential_write start cs n) d h = ground arith

apply_all_lem : (cs : List Call) (d : Dummy) → IsConsistent d → IsConsistent (apply_all cs d)
unfolding apply_all
apply_all_lem [] d h = h
apply_all_lem (c ∷ cs) d h = apply_all_lem cs (apply c d).1 (apply-IsConsistent c d h)

-- After `init` and any calls, in any order and with any arguments, the object is configured if it
-- is attached, and every setting captured by `fast_write`, `multi_write` and `single_write_eeprom`
-- passes the validation of channel settings.
pub apply_all-IsConsistent :
    (set_vtable : ℕ → Dterr) (cs : List Call) → IsConsistent (apply_all cs (init set_vtable).1)
unfolding init validate_all validate_channel_config validate_channel
apply_all-IsConsistent set_vtable cs = apply_all_lem cs (init set_vtable).1 (refl, refl, refl, refl)

-- The captured settings.
abbrev pub captures :
    Dummy → List ChannelConfig × ChannelConfig × List ChannelConfig × ℕ × ChannelConfig
captures d = (
  d.last_fast_write, d.last_multi_write, d.last_sequential_write, d.last_sequential_write_count,
  d.last_single_write_eeprom,
)

-- A call that gives an error leaves the captured settings, the configuration and whether the object
-- is attached as they were.
pub apply_refused :
    (c : Call) (d : Dummy)
    → (apply c d).0 ≢ none
    → (captures (apply c d).1 ≡ captures d)
      × ((apply c d).1.is_configured ≡ d.is_configured)
      × ((apply c d).1.is_attached ≡ d.is_attached)
unfolding apply validate_attached configure attach detach general_call_reset general_call_wakeup
    general_call_software_update read_all fast_write multi_write single_write_eeprom
    sequential_write
apply_refused (call_configure address) d h = ground arith
apply_refused call_attach d h = ground arith
apply_refused call_detach d h = ground arith
apply_refused call_reset d h = ground arith
apply_refused call_wakeup d h = ground arith
apply_refused call_software_update d h = ground arith
apply_refused call_read_all d h = ground arith
apply_refused (call_fast_write cs) d h = ground arith
apply_refused (call_multi_write c) d h = ground arith
apply_refused (call_single_write_eeprom c) d h = ground arith
apply_refused (call_sequential_write start cs n) d h = ground arith
