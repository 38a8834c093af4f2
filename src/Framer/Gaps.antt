-- ===== src/Framer/Gaps.antt =====
-- Bytes between frames, and payloads that are too long for the length field of dtframer_simple.c.
use dtmc_base.Common.{
  ℕ, ◌+◌, ◌<◌, ◌≤◌, ◌^◌, ◌%◌, ◌≡◌, ◌≢◌, ◌∙◌, sym, refl, List, [], ◌∷◌, ◌++◌, none, some, arith,
  length, take, drop, copy_into, length-append, take-copy_into_self,
}
use dtmc_base.Framer.{wait_magic_first, Framer, Platform}
use dtmc_base.Framer.Decode.{round_in, search_first, decode}
use dtmc_base.Framer.Encode.{encode, frame, load_u16_be}
use dtmc_base.Framer.Progress.{InProgress, run, run-continue}
use dtmc_base.Framer.Chunks.{decode-loop}

-- No byte is the first magic byte.
abbrev pub HasNoMagic : List ℕ → Type 0
HasNoMagic [] = Unit
HasNoMagic (b ∷ bs) = (b ≢ 0xA5) × HasNoMagic bs

module _ {W : Type 0} (platform : Platform) where
  skip_run :
      (self : Framer W) (noise rest : List ℕ) (w : W)
      → self.decode_phase ≡ wait_magic_first
      → InProgress self
      → HasNoMagic noise
      → run platform self (noise ++ rest) w ≡ run platform self rest w
  skip_run self [] rest w p v h = refl
  skip_run self (b ∷ bs) rest w p v h =
      (run-continue platform self b (bs ++ rest) w {s = self} {left = bs ++ rest} {w' = w} v
        (unfold round_in search_first in ground arith)).1
      ∙ skip_run self bs rest w p v h.1

  -- A decoder that searches for a frame skips any bytes that are not the first magic byte: the call
  -- gives what it would give on the bytes behind them.
  pub skip_noise :
      (self : Framer W) (noise rest : List ℕ) (w : W)
      → self.decode_phase ≡ wait_magic_first
      → InProgress self
      → HasNoMagic noise
      → length (noise ++ rest) < 2 ^ 31
      → decode platform self (noise ++ rest) (length (noise ++ rest)) w
        ≡ decode platform self rest (length rest) w
  skip_noise self noise rest w p v h k =
      decode-loop platform self (noise ++ rest) w k
      ∙ skip_run self noise rest w p v h
      ∙ sym (decode-loop platform self rest w (omega (arith, length-append noise rest)))

module _ {W : Type 0} where
  -- `encode` does not look at the maximum payload length. A payload that fits the buffer is written
  -- whole, and from 2 ^ 16 bytes on the length in the header is another than the payload's.
  pub encode_truncates :
      (sender : Framer W) (topic payload buffer : List ℕ)
      → length topic ≤ sender.config.maximum_topic_length
      → length topic < 2 ^ 16
      → 2 ^ 16 ≤ length payload
      → 7 + length topic + length payload ≤ length buffer
      → length buffer < 2 ^ 31
      → let (e, encoded, n) = encode sender topic payload buffer in
        (e ≡ none)
        × (n ≡ some (7 + length topic + length payload))
        × (take (7 + length topic + length payload) encoded
            ≡ frame sender.config.protocol_version topic payload)
        × (load_u16_be (drop 2 (frame sender.config.protocol_version topic payload)) 3
            ≡ length payload % 2 ^ 16)
        × (load_u16_be (drop 2 (frame sender.config.protocol_version topic payload)) 3
            ≢ length payload)
  unfolding encode
  encode_truncates sender topic payload buffer m u big room h =
      let bytes : List ℕ = frame sender.config.protocol_version topic payload in
      let whole : length bytes ≡ 7 + length topic + length payload =
        omega (arith, length-append topic payload) in
      let front : take (7 + length topic + length payload) (copy_into buffer 0 bytes) ≡ bytes =
        rw (← whole) (take-copy_into_self buffer bytes (omega arith)) in
      (ground arith, ground arith, ground (arith, front), omega arith, omega arith)
