-- ===== src/Framer/Limits.antt =====
-- The configuration of the framer of dtframer_simple.c, and the checks of a header.
use dtmc_base.Common.{
  inl, inr, if◌then◌else◌, ◌==◌, ◌↔◌, Option-cases, inl, Option-cases, ◌↔◌, ℕ, ◌<◌, ◌≤◌, ◌^◌, ◌≡◌,
  ◌≢◌, ap, refl, List, none, some, arith, length, corrupt, get_or, add32,
}
use dtmc_base.Framer.{Framer, FramerConfig, Platform, MessageCallback, reset_decode_state}
use dtmc_base.Framer.Config.{int32_to_size, apply_defaults, configure, set_message_callback}
use dtmc_base.Framer.Decode.{check_header}
use dtmc_base.Framer.Encode.{load_u16_be}
use dtmc_base.Framer.RoundTrip.{IsReady}
use dtmc_base.Framer.Safety.{IsSafe}

-- `malloc` gives blocks of the size that it is asked for.
abbrev pub SizedBlocks : Platform → Type 0
SizedBlocks platform = (n : ℕ) (block : List ℕ) → platform.malloc n ≡ some block → length block ≡ n

pub defaults_signed :
    (config : FramerConfig)
    → config.maximum_topic_length < 2 ^ 31
    → config.maximum_payload_length < 2 ^ 31
    → ((apply_defaults config).maximum_topic_length < 2 ^ 31)
      × ((apply_defaults config).maximum_payload_length < 2 ^ 31)
unfolding apply_defaults
defaults_signed config t p = ground arith

-- The object that `configure` leaves when both blocks are there.
abbrev configured : {W : Type 0} → Framer W → FramerConfig → List ℕ → List ℕ → Framer W
configured self config t p =
    reset_decode_state
      (record self { config = config; topic_storage = some t; payload_storage = some p })

module _ {W : Type 0} (platform : Platform) (self : Framer W) (config : FramerConfig) where
  configure-ok :
      (configure platform self config).0 ≡ none
      → (t : List ℕ) × (p : List ℕ) × (platform.malloc
            (add32 (apply_defaults config).maximum_topic_length 1)
          ≡ some t)
        × (platform.malloc (int32_to_size (apply_defaults config).maximum_payload_length) ≡ some p)
        × (configure platform self config ≡ (none, configured self (apply_defaults config) t p))
  unfolding configure
  configure-ok e =
      elim (Option-cases (platform.malloc (add32 (apply_defaults config).maximum_topic_length 1))) [
        | inl no_topic ↦ absurd (ground arith)
        | inr (t, et) ↦
            elim (Option-cases
              (platform.malloc (int32_to_size (apply_defaults config).maximum_payload_length))) [
                | inl no_payload ↦ absurd (ground arith)
                | inr (p, ep) ↦ (t, p, et, ep, ground arith)
              ]
      ]

module _ {W : Type 0} (platform : Platform) (sized : SizedBlocks platform) where
  -- A framer that is configured with maxima that are not negative, with no error, and then given a
  -- callback is ready for a frame, with its storage allocated, and has the configuration with its defaults filled in.
  pub configure-IsReady :
      (self : Framer W) (config : FramerConfig) (callback : MessageCallback W)
      → length self.header_buffer ≡ 5
      → config.maximum_topic_length < 2 ^ 31
      → config.maximum_payload_length < 2 ^ 31
      → (configure platform self config).0 ≡ none
      → let made = (set_message_callback (configure platform self config).1 (some callback)).1 in
        IsReady callback made × IsSafe made × (made.config ≡ apply_defaults config)
  unfolding set_message_callback
  configure-IsReady self config callback h mt mp e =
      let (t, p, et, ep, made) = configure-ok platform self config e in
      let (st, sp) = defaults_signed config mt mp in
      let lt = sized _ t et in
      let lp = sized _ p ep in
      rw made (
        record {
          idle = refl;
          callback_is = refl;
          header_array = h;
          topic_array = t;
          topic_allocated = refl;
          topic_room = ground arith;
          payload_array = p;
          payload_allocated = refl;
          payload_room = ground arith;
          counters = ground arith;
        },
        record {
          header_array = h;
          topic_max = ground arith;
          payload_max = ground arith;
          topic_now = omega arith;
          payload_now = omega arith;
          topic_signed = st;
          payload_signed = sp;
        },
        refl,
      )

-- A configured version is never 0, so a complete header whose version differs from the configured
-- one, or from 1 where none was configured, is refused, and the decoder searches for a new frame.
pub version_checked :
    {W : Type 0} (self : Framer W) (config : FramerConfig)
    → self.config ≡ apply_defaults config
    → get_or self.header_buffer 0 0
      ≢ (if config.protocol_version == 0 then 1 else config.protocol_version)
    → check_header self ≡ (some corrupt, reset_decode_state self)
unfolding check_header apply_defaults
version_checked self config c v =
    let version : self.config.protocol_version
        ≡ (if config.protocol_version == 0 then 1 else config.protocol_version) =
      ap (λ (k : FramerConfig). k.protocol_version) c in
    ground arith

-- `check_header` accepts a header exactly if its version is the configured one, which is not 0, and
-- both lengths are within the maxima.
pub check_header_iff :
    {W : Type 0} (self : Framer W)
    → self.config.protocol_version ≢ 0
    → self.config.maximum_topic_length < 2 ^ 31
    → self.config.maximum_payload_length < 2 ^ 31
    → ((check_header self).0 ≡ none) ↔ (
        (get_or self.header_buffer 0 0 ≡ self.config.protocol_version)
        × (load_u16_be self.header_buffer 1 ≤ self.config.maximum_topic_length)
        × (load_u16_be self.header_buffer 3 ≤ self.config.maximum_payload_length))
unfolding check_header
check_header_iff self ver t p = ground arith
