-- ===== src/Mcp4728/Checks.antt =====
-- The validations of dtmcp4728_dummy.c.
use dtmc_base.Common.{
  ℕ, List, [], ◌∷◌, none, Dterr, badarg, badconfig, not, ◌||◌, ◌==◌, ltb, slt, add32, fail_if,
  ◌or_else◌,
}
use dtmc_base.Mcp4728.{ChannelConfig, Dummy}

-- `dtmcp4728_dummy__validate_attached`.
unfoldable pub validate_attached : Dummy → Dterr
validate_attached self =
    fail_if (not self.is_configured) badconfig or_else fail_if (not self.is_attached) badconfig

-- `dtmcp4728_dummy__validate_channel`.
unfoldable pub validate_channel : ℕ → Dterr
validate_channel channel = fail_if (slt channel 0 || slt 3 channel) badarg

-- `dtmcp4728_dummy__validate_channel_config`.
unfoldable pub validate_channel_config : ChannelConfig → Dterr
validate_channel_config c =
    validate_channel c.channel
    or_else fail_if (ltb 0xFFF c.value_12bit) badarg
    or_else fail_if (slt c.vref 0 || slt 1 c.vref) badarg
    or_else fail_if (slt c.power_down 0 || slt 3 c.power_down) badarg
    or_else fail_if (slt c.gain 0 || slt 1 c.gain) badarg

-- The loop of `fast_write`.
unfoldable pub validate_all : List ChannelConfig → Dterr
validate_all [] = none
validate_all (c ∷ cs) = validate_channel_config c or_else validate_all cs

-- The loop of `sequential_write`, whose channels must count up from `expected`.
unfoldable pub validate_sequence : ℕ → List ChannelConfig → Dterr
validate_sequence expected [] = none
validate_sequence expected (c ∷ cs) =
    validate_channel_config c
    or_else fail_if (not (c.channel == expected)) badarg
    or_else validate_sequence (add32 expected 1) cs
