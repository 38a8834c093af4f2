-- ===== src/Framer/Encode.antt =====
-- `dtframer_simple_encode` and the big-endian helpers.
use dtmc_base.Common.{
  ℕ, ◌+◌, ◌*◌, ◌/◌, ◌%◌, ◌^◌, List, [], ◌∷◌, ◌++◌, Option, none, some, Dterr, bounds, ltb, slt,
  length, get_or, copy_into, u32_mod, if◌then◌else◌,
}
use dtmc_base.Framer.{Framer, magic_first_byte, magic_second_byte, fixed_header_size}

-- `dtframer_simple_store_u16_be`: the two bytes that it writes.
abbrev pub store_u16_be : ℕ → List ℕ
store_u16_be value = ((value / 2 ^ 8) % 256) ∷ (value % 256) ∷ []

-- `dtframer_simple_load_u16_be` of the two bytes at an offset. The low byte is or-ed into zeros.
abbrev pub load_u16_be : List ℕ → ℕ → ℕ
load_u16_be source offset = (get_or source offset 0 * 2 ^ 8 + get_or source (offset + 1) 0) % 2 ^ 16

-- The bytes that the write pointer goes over, for a topic and a payload.
abbrev pub frame : ℕ → List ℕ → List ℕ → List ℕ
frame version topic payload =
    magic_first_byte ∷ magic_second_byte ∷ version ∷ store_u16_be (length topic % 2 ^ 16)
    ++ (store_u16_be (length payload % 2 ^ 16) ++ (topic ++ payload))

-- The error, the new contents of `encoded_buffer`, and what is stored in `*encoded_length`.
-- `topic` holds the bytes before the terminator.
unfoldable pub encode :
    {W : Type 0} → Framer W → List ℕ → List ℕ → List ℕ → Dterr × List ℕ × Option ℕ
encode self topic payload encoded_buffer =
    let total_length = (2 + fixed_header_size + length topic + length payload) % u32_mod in
    if ltb self.config.maximum_topic_length (length topic)
    then (some bounds, encoded_buffer, none)
    else if slt (length encoded_buffer) total_length
    then (some bounds, encoded_buffer, none)
    else (
      none,
      copy_into encoded_buffer 0 (frame self.config.protocol_version topic payload),
      some total_length,
    )
