-- ===== src/Framer.antt =====
-- The framer of dtmc_base_library/src/dtframer_simple.c: its types and its object. The operations
-- stand in the children: `Config` (create, init, configure, callback, dispose), `Encode`, `Decode`.
pub mod Config
pub mod Encode
pub mod Decode
pub mod Progress
pub mod Chunks
pub mod Pieces
pub mod Strings
pub mod RoundTrip
pub mod Safety
pub mod Limits
pub mod Settings
pub mod Gaps
pub mod Tests
use dtmc_base.Common.{ℕ, Bool, List, [], ◌∷◌, Option, Dterr, ◌==◌, if◌then◌else◌}

-- `dtframer_simple_decode_phase_t`.
pub data DecodePhase : Type 0 where
  wait_magic_first wait_magic_second read_header read_topic read_payload : DecodePhase

-- `dtframer_simple_framing_mode_t`.
pub data FramingMode : Type 0 where
  stream bus : FramingMode

-- `dtframer_simple_config_t`. The maxima are `int32_t` patterns.
pub record FramerConfig : Type 0 where
  pub protocol_version : ℕ
  pub maximum_topic_length : ℕ
  pub maximum_payload_length : ℕ
  pub framing_mode : FramingMode

-- What the callback is handed: the string that starts at `topic_storage`, if that is not NULL,
-- and the bytes of the wrapped payload buffer.
pub record Message : Type 0 where
  pub topic : Option (List ℕ)
  pub payload : List ℕ

-- A callback closed over its context. `W` is the state that callbacks read and write.
abbrev pub MessageCallback : Type 0 → Type 0
MessageCallback W = Message → W → Dterr × W

-- The functions of the platform and of dtcore that the framer calls: the block that `malloc`
-- gives for a size, `dtbuffer_wrap` on the bytes that it is to wrap, and `dtvtable_set` for a
-- model number.
pub record Platform : Type 0 where
  pub malloc : ℕ → Option (List ℕ)
  pub buffer_wrap : List ℕ → Dterr
  pub vtable_set : ℕ → Dterr

-- `dtframer_simple_t`. A storage that is NULL is `none`.
pub record Framer (W : Type 0) : Type 0 where
  pub model_number : ℕ
  pub is_malloced : Bool
  pub config : FramerConfig
  pub decode_phase : DecodePhase
  pub header_buffer : List ℕ
  pub header_bytes_filled : ℕ
  pub current_topic_length : ℕ
  pub current_payload_length : ℕ
  pub topic_storage : Option (List ℕ)
  pub topic_bytes_filled : ℕ
  pub payload_storage : Option (List ℕ)
  pub payload_bytes_filled : ℕ
  pub message_callback_function : Option (MessageCallback W)

abbrev pub magic_first_byte : ℕ
magic_first_byte = 0xA5

abbrev pub magic_second_byte : ℕ
magic_second_byte = 0x5A

abbrev pub fixed_header_size : ℕ
fixed_header_size = 5

-- `dtframer_simple_reset_decode_state`.
abbrev pub reset_decode_state : {W : Type 0} → Framer W → Framer W
reset_decode_state self = record self {
  decode_phase = wait_magic_first;
  header_bytes_filled = 0;
  current_topic_length = 0;
  current_payload_length = 0;
  topic_bytes_filled = 0;
  payload_bytes_filled = 0;
}

-- The C string that starts at the front of an array: its bytes up to the first NUL.
abbrev pub c_string : List ℕ → List ℕ
c_string [] = []
c_string (c ∷ cs) = if c == 0 then [] else c ∷ c_string cs
