-- ===== src/Mcp4728/Captures.antt =====
-- Writes to the double of dtmcp4728_dummy.c, and readings of what it captured.
use dtmc_base.Common.{
  zero, take_all, length-take, ◌||◌, length-take, slt, ==_iff, badarg, ◌==◌, add32, fail_if, ◌^◌, ℕ,
  suc, ◌+◌, ◌<◌, ◌≤◌, ◌≡◌, ◌↔◌, refl, List, [], ◌∷◌, none, some, Dterr, ErrorCode, true, not, arith,
  inl, inr, Bool-cases, length, take, ◌or_else◌,
}
use dtmc_base.Mcp4728.{ChannelConfig, Dummy, channel_count_max}
use dtmc_base.Mcp4728.Checks.{
  validate_attached, validate_channel, validate_channel_config, validate_sequence,
}
use dtmc_base.Mcp4728.Device.{fast_write, read_all, sequential_write, check_sequential}

-- The fields that the chip can take.
abbrev pub IsInRange : ChannelConfig → Type 0
IsInRange c =
    (c.channel < 4) × (c.value_12bit < 2 ^ 12) × (c.vref < 2) × (c.power_down < 4) × (c.gain < 2)

-- The fields are `int32_t` and `uint16_t`.
abbrev pub Fits : ChannelConfig → Type 0
Fits c =
    (c.channel < 2 ^ 32)
    × (c.value_12bit < 2 ^ 16)
    × (c.vref < 2 ^ 32)
    × (c.power_down < 2 ^ 32)
    × (c.gain < 2 ^ 32)

pub validate_channel_config_iff :
    (c : ChannelConfig) → Fits c → (validate_channel_config c ≡ none) ↔ IsInRange c
unfolding validate_channel_config validate_channel
validate_channel_config_iff c (fc, fv, fr, fp, fg) = ground arith

-- Entries in range whose channels count up from a first one.
abbrev pub Ascending : ℕ → List ChannelConfig → Type 0
Ascending start [] = Unit
Ascending start (c ∷ cs) = IsInRange c × (c.channel ≡ start) × Ascending (suc start) cs

abbrev pub AllFit : List ChannelConfig → Type 0
AllFit [] = Unit
AllFit (c ∷ cs) = Fits c × AllFit cs

some_not_none : (c : ErrorCode) → some c ≡ none → ⊥
some_not_none c h = ground arith

sequence_step :
    {A B : Type 0} (e f : Dterr) (channel start : ℕ)
    → (e ≡ none) ↔ A
    → (f ≡ none) ↔ B
    → ((e or_else fail_if (not (channel == start)) badarg or_else f) ≡ none)
      ↔ (A × (channel ≡ start) × B)
sequence_step none f channel start (a, a') (b, b') = elim (Bool-cases (channel == start)) [
  | inl same ↦
      (rw same (λ h. (a refl, (==_iff channel start).0 same, b h)), rw same (λ (_, _, y). b' y))
  | inr other ↦
      (rw other (λ h. absurd (ground arith)), rw other (λ (_, q, _). absurd (ground arith)))
]
sequence_step (some c) f channel start (a, a') (b, b') =
    (λ h. absurd (ground arith), λ (x, _, _). absurd (some_not_none c (a' x)))

pub validate_sequence_iff :
    (start : ℕ) (cs : List ChannelConfig)
    → AllFit cs
    → start + length cs < 2 ^ 31
    → (validate_sequence start cs ≡ none) ↔ Ascending start cs
unfolding validate_sequence
validate_sequence_iff start [] f b = (λ e. tt, λ t. refl)
validate_sequence_iff start (c ∷ cs) (fc, f) b =
    let next : add32 start 1 ≡ suc start = omega arith in
    let rest : (validate_sequence (add32 start 1) cs ≡ none) ↔ Ascending (suc start) cs =
      rw next (validate_sequence_iff (suc start) cs f (omega arith)) in
    let one : (validate_channel_config c ≡ none) ↔ IsInRange c = validate_channel_config_iff c fc in
    sequence_step (validate_channel_config c) (validate_sequence (add32 start 1) cs) c.channel start
      one rest

AllFit-take : (n : ℕ) (cs : List ChannelConfig) → AllFit cs → AllFit (take n cs)
AllFit-take zero cs f = tt
AllFit-take (suc n) [] f = tt
AllFit-take (suc n) (c ∷ cs) (fc, f) = (fc, AllFit-take n cs f)

-- The checks before the loop.
abbrev front : Dummy → ℕ → ℕ → Dterr
front self start n =
    validate_attached self
    or_else validate_channel start
    or_else fail_if (not (slt 0 n) || slt channel_count_max n) badarg
    or_else fail_if (slt channel_count_max (add32 start n)) badarg

front_iff :
    (self : Dummy) (start n : ℕ)
    → start < 2 ^ 32
    → n < 2 ^ 32
    → (front self start n ≡ none)
      ↔ ((self.is_configured ≡ true) × (self.is_attached ≡ true) × (0 < n) × (start + n ≤ 4))
unfolding validate_attached validate_channel
front_iff self start n hs hn = ground arith

and_iff :
    {A B C D E : Type 0} (e f : Dterr)
    → (e ≡ none) ↔ (A × B × C × D)
    → (D → (f ≡ none) ↔ E)
    → ((e or_else f) ≡ none) ↔ (A × B × C × D × E)
and_iff none f (a, a') b =
    let (x, y, z, w) = a refl in (λ h. (x, y, z, w, (b w).0 h), λ (_, _, _, w', v). (b w').1 v)
and_iff (some c) f (a, a') b =
    (λ h. absurd (some_not_none c h), λ (x, y, z, w, _). absurd (some_not_none c (a' (x, y, z, w))))

sequential_write-checks :
    (self : Dummy) (start : ℕ) (cs : List ChannelConfig) (n : ℕ)
    → self.inject_sequential_write_error ≡ none
    → (sequential_write self start cs n).0 ≡ check_sequential self start cs n
unfolding sequential_write check_sequential validate_attached
sequential_write-checks self start cs n quiet = ground arith

-- With no injected error, `sequential_write` accepts its arguments exactly if the object is
-- configured and attached, there is a channel to write, the channels end at D, and the settings are
-- in range and for the channels from the first one on, in order.
pub sequential_write_iff :
    (self : Dummy) (start : ℕ) (cs : List ChannelConfig) (n : ℕ)
    → self.inject_sequential_write_error ≡ none
    → start < 2 ^ 32
    → n < 2 ^ 32
    → AllFit cs
    → n ≤ length cs
    → ((sequential_write self start cs n).0 ≡ none) ↔ (
        (self.is_configured ≡ true)
        × (self.is_attached ≡ true)
        × (0 < n)
        × (start + n ≤ 4)
        × Ascending start (take n cs))
unfolding check_sequential
sequential_write_iff self start cs n quiet hs hn f h =
    let fits : length (take n cs) ≡ n = omega (arith, length-take n cs) in
    let checks =
      and_iff (front self start n) (validate_sequence start (take n cs))
        (front_iff self start n hs hn)
        (λ b. validate_sequence_iff start (take n cs) (AllFit-take n cs f) (omega arith)) in
    rw (sequential_write-checks self start cs n quiet) checks

-- After a `fast_write` of four settings that succeeds, with no error injected for the reading,
-- `read_all` succeeds and gives these settings.
pub read_all-fast_write :
    (self : Dummy) (channels : List ChannelConfig)
    → length channels ≡ 4
    → (fast_write self channels).0 ≡ none
    → self.inject_read_all_error ≡ none
    → let (e, value, _) = read_all (fast_write self channels).1 in
      (e ≡ none) × (value ≡ some channels)
unfolding fast_write read_all validate_attached
read_all-fast_write self channels h ok quiet = ground (arith, take_all 4 channels (omega arith))
