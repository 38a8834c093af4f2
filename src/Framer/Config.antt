-- ===== src/Framer/Config.antt =====
-- Life cycle of the framer: `dtframer_simple_create`, `_init`, `_configure`,
-- `_set_message_callback` and `_dispose`.
use dtmc_base.Common.{
  ℕ, ◌+◌, ◌-◌, ◌^◌, true, false, Option, none, some, Dterr, nomem, fail, ◌==◌, is_negative, add32,
  replicate, if◌then◌else◌,
}
use dtmc_base.Framer.{
  FramerConfig, FramingMode, stream, bus, wait_magic_first, MessageCallback, Platform, Framer,
  reset_decode_state,
}

-- `DTMC_BASE_CONSTANTS_FRAMER_MODEL_SIMPLE`.
abbrev pub framer_model_simple : ℕ
framer_model_simple = 21801

abbrev default_max_topic : FramingMode → ℕ
default_max_topic bus = 32
default_max_topic stream = 64

abbrev default_max_payload : FramingMode → ℕ
default_max_payload bus = 256
default_max_payload stream = 2048

unfoldable pub apply_defaults : FramerConfig → FramerConfig
apply_defaults c = record c {
  protocol_version = if c.protocol_version == 0 then 1 else c.protocol_version;
  maximum_topic_length =
      if c.maximum_topic_length == 0
      then default_max_topic c.framing_mode
      else c.maximum_topic_length;
  maximum_payload_length =
      if c.maximum_payload_length == 0
      then default_max_payload c.framing_mode
      else c.maximum_payload_length;
}

-- The object after `memset (self, 0, sizeof (*self))`.
abbrev pub zeroed : {W : Type 0} → Framer W
zeroed = record {
  model_number = 0;
  is_malloced = false;
  config = record {
    protocol_version = 0;
    maximum_topic_length = 0;
    maximum_payload_length = 0;
    framing_mode = stream;
  };
  decode_phase = wait_magic_first;
  header_buffer = replicate 5 0;
  header_bytes_filled = 0;
  current_topic_length = 0;
  current_payload_length = 0;
  topic_storage = none;
  topic_bytes_filled = 0;
  payload_storage = none;
  payload_bytes_filled = 0;
  message_callback_function = none;
}

-- A conversion of an `int32_t` to `size_t`.
abbrev pub int32_to_size : ℕ → ℕ
int32_to_size a = if is_negative a then a + (2 ^ 64 - 2 ^ 32) else a

module _ (platform : Platform) where
  -- `dtframer_set_vtable` of dtframer.c.
  abbrev pub set_vtable : ℕ → Dterr
  set_vtable model_number = elim (platform.vtable_set model_number) [
    | some e ↦ some fail
    | none ↦ none
  ]

  unfoldable pub init : {W : Type 0} → Dterr × Framer W
  init = (
    set_vtable framer_model_simple,
    reset_decode_state (record zeroed { model_number = framer_model_simple }),
  )

  -- The object is `none` where `*self_ptr` is NULL afterwards.
  unfoldable pub create : {W : Type 0} → ℕ → Dterr × Option (Framer W)
  create size = elim (platform.malloc size) [
    | none ↦ (some nomem, none)
    | some _ ↦
        let (e, self) = init in
        elim e [
          | some c ↦ (some c, none)
          | none ↦ (none, some (record self { is_malloced = true }))
        ]
  ]

  -- Both storages are released first and, on an error, at the end too.
  unfoldable pub configure : {W : Type 0} → Framer W → FramerConfig → Dterr × Framer W
  configure self config =
      let applied = apply_defaults config in
      let released = record self {
        config = applied;
        topic_storage = none;
        payload_storage = none;
      } in
      elim (platform.malloc (add32 applied.maximum_topic_length 1)) [
        | none ↦ (some nomem, released)
        | some t ↦ elim (platform.malloc (int32_to_size applied.maximum_payload_length)) [
          | none ↦ (some nomem, released)
          | some p ↦ (
            none,
            reset_decode_state
                (record released { topic_storage = some t; payload_storage = some p }),
          )
        ]
      ]

unfoldable pub set_message_callback :
    {W : Type 0} → Framer W → Option (MessageCallback W) → Dterr × Framer W
set_message_callback self callback_function =
    (none, record self { message_callback_function = callback_function })

-- `none`: the object was freed.
unfoldable pub dispose : {W : Type 0} → Framer W → Option (Framer W)
dispose self = if self.is_malloced then none else some zeroed
