-- ===== src/Framer/Decode.antt =====
-- `dtframer_simple_decode`: the loop over the input and its five phases. The input that is left,
-- `buffer[byte_index .. input_length)`, is a list. A phase returns the object and the input left.
use mathlib.Core.Option
use dtmc_base.Common.{
  ℕ, zero, suc, ◌+◌, ◌*◌, not, ◌&&◌, List, [], ◌∷◌, Option, none, some, Dterr, ErrorCode, bounds,
  corrupt, ltb, slt, ◌==◌, length, get_or, set, take, drop, copy_into, add32, sub32, is_negative,
  if◌then◌else◌,
}
use dtmc_base.Framer.{
  DecodePhase, wait_magic_first, wait_magic_second, read_header, read_topic, read_payload, Message,
  Platform, Framer, magic_first_byte, magic_second_byte, fixed_header_size, reset_decode_state,
  c_string,
}
use dtmc_base.Framer.Encode.{load_u16_be}

-- What `decode` leaves: its result, the object, and the state of the callbacks.
abbrev pub Outcome : Type 0 → Type 0
Outcome W = Dterr × Framer W × W

-- What one round of the loop does: go on with the input left, or go to cleanup.
pub data Round (W : Type 0) : Type 0 where
  continue : Framer W → List ℕ → W → Round W
  stop : ErrorCode → Framer W → W → Round W

-- `chunk_size`, where `filled` bytes of `total` are there.
abbrev pub chunk_size : ℕ → ℕ → List ℕ → ℕ
chunk_size total filled input =
    let remaining = sub32 total filled in
    if ltb (length input) remaining then length input else remaining

-- A block that `malloc` gave, or nothing where the pointer is NULL.
abbrev pub stored : Option (List ℕ) → List ℕ
stored none = []
stored (some s) = s

module _ {W : Type 0} where
  unfoldable pub search_first : Framer W → ℕ → Framer W
  search_first self current_byte =
      if current_byte == magic_first_byte
      then record self { decode_phase = wait_magic_second }
      else self

  unfoldable pub search_second : Framer W → ℕ → Framer W
  search_second self current_byte =
      if current_byte == magic_second_byte
      then record self { decode_phase = read_header; header_bytes_filled = 0 }
      else if current_byte == magic_first_byte
      then self
      else record self { decode_phase = wait_magic_first }

  -- The three `memcpy` calls, with the counters that go with them.
  unfoldable pub fill_header : Framer W → List ℕ → Framer W
  fill_header self input =
      let n = chunk_size fixed_header_size self.header_bytes_filled input in
      record self {
        header_buffer = copy_into self.header_buffer self.header_bytes_filled (take n input);
        header_bytes_filled = add32 self.header_bytes_filled n;
      }

  unfoldable pub fill_topic : Framer W → List ℕ → Framer W
  fill_topic self input =
      let n = chunk_size self.current_topic_length self.topic_bytes_filled input in
      record self {
        topic_storage =
            Option.map (λ s. copy_into s self.topic_bytes_filled (take n input)) self.topic_storage;
        topic_bytes_filled = add32 self.topic_bytes_filled n;
      }

  unfoldable pub fill_payload : Framer W → List ℕ → Framer W
  fill_payload self input =
      let n = chunk_size self.current_payload_length self.payload_bytes_filled input in
      record self {
        payload_storage =
            Option.map (λ s. copy_into s self.payload_bytes_filled (take n input))
              self.payload_storage;
        payload_bytes_filled = add32 self.payload_bytes_filled n;
      }

  -- The checks of a complete header and, if they pass, the state for what follows it.
  unfoldable pub check_header : Framer W → Dterr × Framer W
  check_header self =
      let version = get_or self.header_buffer 0 0 in
      let topic_length = load_u16_be self.header_buffer 1 in
      let payload_length = load_u16_be self.header_buffer 3 in
      if not (self.config.protocol_version == 0) && not (version == self.config.protocol_version)
      then (some corrupt, reset_decode_state self)
      else if slt self.config.maximum_topic_length topic_length
      then (some bounds, reset_decode_state self)
      else if slt self.config.maximum_payload_length payload_length
      then (some bounds, reset_decode_state self)
      else (
        none,
        record self {
          current_topic_length = topic_length;
          current_payload_length = payload_length;
          topic_bytes_filled = 0;
          payload_bytes_filled = 0;
          decode_phase = if ltb 0 topic_length then read_topic else read_payload;
        },
      )

  -- The terminator behind the topic.
  unfoldable pub finish_topic : Framer W → Framer W
  finish_topic self = record self {
    topic_storage = Option.map (λ s. set s self.current_topic_length 0) self.topic_storage;
    decode_phase = read_payload;
  }

  abbrev pub message : Framer W → Message
  message self = record {
    topic = Option.map c_string self.topic_storage;
    payload = take self.current_payload_length (stored self.payload_storage);
  }

module _ {W : Type 0} (platform : Platform) where
  -- A complete message goes to the callback, if there is one.
  unfoldable pub deliver : Framer W → W → Outcome W
  deliver self w = elim self.message_callback_function [
    | none ↦ (none, reset_decode_state self, w)
    | some callback ↦ elim (platform.buffer_wrap (message self).payload) [
      | some e ↦ (some e, self, w)
      | none ↦ let (r, w') = callback (message self) w in (r, reset_decode_state self, w')
    ]
  ]

  -- The `switch`, at the first byte left and those behind it.
  unfoldable pub round_in : DecodePhase → Framer W → ℕ → List ℕ → W → Round W
  round_in wait_magic_first self b bs w = continue (search_first self b) bs w
  round_in wait_magic_second self b bs w = continue (search_second self b) bs w
  round_in read_header self b bs w =
      let left = drop (chunk_size fixed_header_size self.header_bytes_filled (b ∷ bs)) (b ∷ bs) in
      let filled = fill_header self (b ∷ bs) in
      let (e, checked) = check_header filled in
      if filled.header_bytes_filled == fixed_header_size
      then elim e [ some c ↦ stop c checked w | none ↦ continue checked left w ]
      else continue filled left w
  round_in read_topic self b bs w =
      let left =
        drop (chunk_size self.current_topic_length self.topic_bytes_filled (b ∷ bs)) (b ∷ bs) in
      let filled = fill_topic self (b ∷ bs) in
      continue
        (if filled.topic_bytes_filled == filled.current_topic_length
          then finish_topic filled
          else filled)
        left w
  round_in read_payload self b bs w =
      let left =
        drop (chunk_size self.current_payload_length self.payload_bytes_filled (b ∷ bs)) (b ∷ bs) in
      let filled = fill_payload self (b ∷ bs) in
      let (e, sent, w') = deliver filled w in
      if filled.payload_bytes_filled == filled.current_payload_length
      then elim e [ some c ↦ stop c sent w' | none ↦ continue sent left w' ]
      else continue filled left w

  -- The `while` loop. `none`: the fuel ran out.
  unfoldable pub loop : ℕ → Framer W → List ℕ → W → Option (Outcome W)
  loop zero self input w = none
  loop (suc fuel) self [] w = some (none, self, w)
  loop (suc fuel) self (b ∷ bs) w = elim (round_in self.decode_phase self b bs w) [
    | continue self' left w' ↦ loop fuel self' left w'
    | stop e self' w' ↦ some (some e, self', w')
  ]

  -- Two rounds for each byte are enough: a round that takes no byte delivers an empty payload, and
  -- the next takes one.
  unfoldable pub decode : Framer W → List ℕ → ℕ → W → Option (Outcome W)
  decode self buffer length_arg w =
      if is_negative length_arg
      then some (some bounds, self, w)
      else (let input = take length_arg buffer in loop (2 * length input + 2) self input w)
