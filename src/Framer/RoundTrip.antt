-- ===== src/Framer/RoundTrip.antt =====
-- Decoding what `encode` writes.
mod Rounds
mod Frame
pub mod Empty
pub use Rounds.{IsReady, Fits}
use dtmc_base.Common.{
  length-append, ◌≤◌, ℕ, ◌+◌, ◌<◌, ◌^◌, ◌≡◌, ◌∙◌, sym, ap, refl, List, [], ◌∷◌, ◌++◌, none, some,
  arith, Option, length, take, append-nil, ErrorCode, Dterr, take-copy_into_self, copy_into,
}
use dtmc_base.Framer.{Framer, FramerConfig, MessageCallback, Platform}
use dtmc_base.Framer.Encode.{frame, encode}
use dtmc_base.Framer.Decode.{Outcome, decode}
use dtmc_base.Framer.Progress.{run, run-nil}
use dtmc_base.Framer.Chunks.{decode-loop}
use dtmc_base.Framer.Pieces.{joined, decode_pieces, decode_pieces-joined}
use Frame.{after_callback, behind, behind-IsReady, run-frame}

-- A stream of messages, as the bytes of their frames and as what the callback makes of them: it is
-- called for each message in order, up to the first error.
abbrev pub frames : ℕ → List (List ℕ × List ℕ) → List ℕ
frames version [] = []
frames version ((topic, payload) ∷ ms) = frame version topic payload ++ frames version ms

abbrev pub call_all : {W : Type 0} → MessageCallback W → List (List ℕ × List ℕ) → W → Dterr × W
call_all callback [] w = (none, w)
call_all callback ((topic, payload) ∷ ms) w =
    let (e, w') = callback (record { topic = some topic; payload = payload }) w in
    elim e [ none ↦ call_all callback ms w' | some c ↦ (some c, w') ]

abbrev pub AllFit : FramerConfig → List (List ℕ × List ℕ) → Type 0
AllFit config [] = Unit
AllFit config ((topic, payload) ∷ ms) = Fits config topic payload × AllFit config ms

-- The call ended with this error and this state of the callbacks, and the decoder is ready again.
abbrev pub Delivers : {W : Type 0} → MessageCallback W → Dterr × W → Option (Outcome W) → Type 0
Delivers {W} callback (e, w) out =
    (self : Framer W) × IsReady callback self × (out ≡ some (e, self, w))

module _ {W : Type 0} where
  -- The error-free path of `encode`.
  pub encode_room :
      (sender : Framer W) (topic payload buffer : List ℕ)
      → length topic ≤ sender.config.maximum_topic_length
      → 7 + length topic + length payload ≤ length buffer
      → length buffer < 2 ^ 31
      → encode sender topic payload buffer ≡ (
        none,
        copy_into buffer 0 (frame sender.config.protocol_version topic payload),
        some (7 + length topic + length payload),
      )
  unfolding encode
  encode_room sender topic payload buffer m room h = ground arith

  module _ (platform : Platform) where
    decode_front :
        (self : Framer W) (buffer : List ℕ) (n : ℕ) (w : W)
        → n < 2 ^ 31
        → decode platform self buffer n w ≡ run platform self (take n buffer) w
    unfolding decode
    decode_front self buffer n w h = ground arith

module _ {W : Type 0} (platform : Platform) {callback : MessageCallback W} where
  frames-step :
      (answer : Dterr × W) (later : Framer W) (ms : List (List ℕ × List ℕ)) (rest : List ℕ)
      → IsReady callback later
      → ((w : W) → Delivers callback (call_all callback ms w) (run platform later rest w))
      → Delivers callback
          (elim answer.0 [ none ↦ call_all callback ms answer.1 | some c ↦ (some c, answer.1) ])
          (after_callback platform answer later rest)
  frames-step (none, w) later ms rest r rec = rec w
  frames-step (some e, w) later ms rest r rec = (later, r, refl)

  last-Delivers :
      (answer : Dterr × W) (later : Framer W)
      → IsReady callback later
      → Delivers callback answer (after_callback platform answer later [])
  last-Delivers (none, w) later r = (later, r, run-nil platform later w)
  last-Delivers (some e, w) later r = (later, r, refl)

  run-frames :
      (ms : List (List ℕ × List ℕ)) (self : Framer W) (w : W)
      → IsReady callback self
      → AllFit self.config ms
      → ((bytes : List ℕ) → platform.buffer_wrap bytes ≡ none)
      → Delivers callback
          (call_all callback ms w)
          (run platform self (frames self.config.protocol_version ms) w)
  run-frames [] self w r f b = (self, r, run-nil platform self w)
  run-frames ((topic, payload) ∷ ms) self w r f b =
      let rest : List ℕ = frames self.config.protocol_version ms in
      let later = behind platform self r topic payload in
      rw (run-frame platform self r topic payload rest w f.0 (b payload)) (
        frames-step (callback (record { topic = some topic; payload = payload }) w) later ms rest
          (behind-IsReady platform self r topic payload)
          (λ w'. run-frames ms later w' (behind-IsReady platform self r topic payload) f.1 b))

  -- A ready decoder that is fed the frames of messages that fit its configuration, cut into pieces
  -- in any way, calls the callback on these messages, unchanged and in order. If every call succeeds
  -- it reports success; a call that fails ends the stream with its error. Then it is ready again.
  pub decode_pieces-frames :
      (self : Framer W) (pieces : List (List ℕ)) (ms : List (List ℕ × List ℕ)) (w : W)
      → IsReady callback self
      → AllFit self.config ms
      → ((bytes : List ℕ) → platform.buffer_wrap bytes ≡ none)
      → joined pieces ≡ frames self.config.protocol_version ms
      → length (joined pieces) < 2 ^ 31
      → Delivers callback (call_all callback ms w) (decode_pieces platform self pieces w)
  decode_pieces-frames self pieces ms w r f b e h =
      rw
        (
          (decode_pieces-joined platform self pieces w r.counters h).0,
          decode-loop platform self (joined pieces) w h,
          e,
        )
        (run-frames ms self w r f b)

  -- What `encode` writes for a message that fits, `decode` of a ready decoder with the same
  -- configuration hands to the callback unchanged, and returns the callback's result. `encode` succeeds if the
  -- buffer, of fewer than 2 ^ 31 bytes, has room for the message and the seven bytes in front of it. The
  -- topic and the payload are not empty and within the decoder's maxima and 16 bits, the topic has no
  -- NUL, and memory for the copy can be had.
  pub decode-encode :
      (sender self : Framer W) (topic payload buffer : List ℕ) (w : W)
      → IsReady callback self
      → sender.config ≡ self.config
      → Fits self.config topic payload
      → platform.buffer_wrap payload ≡ none
      → 7 + length topic + length payload ≤ length buffer
      → length buffer < 2 ^ 31
      → let (e, encoded, n) = encode sender topic payload buffer in
        (e ≡ none)
        × (n ≡ some (7 + length topic + length payload))
        × Delivers callback
            (callback (record { topic = some topic; payload = payload }) w)
            (decode platform self encoded (7 + length topic + length payload) w)
  decode-encode sender self topic payload buffer w r c f b room h =
      let version : ℕ = self.config.protocol_version in
      let n : ℕ = 7 + length topic + length payload in
      let whole : length (frame version topic payload) ≡ n =
        omega (arith, length-append topic payload) in
      let sent : encode sender topic payload buffer
          ≡ (none, copy_into buffer 0 (frame version topic payload), some n) =
        rw (← c) (encode_room sender topic payload buffer (rw c (f.topic_max)) room h) in
      let front : take n (copy_into buffer 0 (frame version topic payload))
          ≡ frame version topic payload =
        rw (← whole) (take-copy_into_self buffer (frame version topic payload) (omega arith)) in
      let later = behind platform self r topic payload in
      let answer : Dterr × W = callback (record { topic = some topic; payload = payload }) w in
      let decoded : decode platform self (copy_into buffer 0 (frame version topic payload)) n w
          ≡ after_callback platform answer later [] =
        decode_front platform self (copy_into buffer 0 (frame version topic payload)) n w
          (omega arith)
        ∙ ap (λ l. run platform self l w) (front ∙ sym (append-nil (frame version topic payload)))
        ∙ run-frame platform self r topic payload [] w f b in
      rw sent (
        refl,
        refl,
        rw decoded (last-Delivers answer later (behind-IsReady platform self r topic payload)),
      )
