-- ===== src/Mcp4728/Tests.antt =====
-- The double of the DAC at concrete inputs.
use dtmc_base.Common.{ℕ, ◌+◌, ◌<◌, ◌≤◌, ◌≡◌, ◌↔◌, refl, List, [], ◌∷◌, none, true, false, arith}
use dtmc_base.Mcp4728.{ChannelConfig, Dummy}
use dtmc_base.Mcp4728.Checks.{}
use dtmc_base.Mcp4728.Device.{init, sequential_write, zeroed}
use dtmc_base.Mcp4728.Captures.{Ascending, sequential_write_iff}
use dtmc_base.Mcp4728.Calls.{
  call_configure, call_attach, call_fast_write, apply_all, IsConsistent, apply_all-IsConsistent,
}

abbrev attached : Dummy
attached = record zeroed { is_configured = true; is_attached = true }

abbrev setting : ℕ → ℕ → ChannelConfig
setting channel value = record {
  channel = channel;
  value_12bit = value;
  vref = 1;
  power_down = 0;
  gain = 1;
  udac = false;
}

abbrev settings : List ChannelConfig
settings = setting 0 100 ∷ setting 1 200 ∷ setting 2 300 ∷ setting 3 4095 ∷ []

abbrev last_two : List ChannelConfig
last_two = setting 2 7 ∷ setting 3 8 ∷ []

sequential_write_iff_example : ((sequential_write attached 2 last_two 2).0 ≡ none) ↔ (
    (attached.is_configured ≡ true)
    × (attached.is_attached ≡ true)
    × (0 < 2)
    × (2 + 2 ≤ 4)
    × Ascending 2 last_two)
sequential_write_iff_example =
    sequential_write_iff attached 2 last_two 2 refl (omega arith) (omega arith) (ground arith)
      (omega arith)

apply_all-IsConsistent_example : IsConsistent (
    apply_all
      (call_configure 0x60 ∷ call_attach ∷ call_fast_write settings ∷ [])
      (init (λ n. none)).1)
apply_all-IsConsistent_example =
    apply_all-IsConsistent (λ n. none)
      (call_configure 0x60 ∷ call_attach ∷ call_fast_write settings ∷ [])
