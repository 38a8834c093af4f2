-- ===== src/NetPortal/Sending.antt =====
-- `dtnetportal_iox_publish` of a message that fits.
use dtmc_base.Common.{
  ℕ, ◌+◌, ◌<◌, ◌≤◌, ◌^◌, ◌≡◌, ◌∙◌, ap, refl, List, [], ◌∷◌, ◌++◌, none, some, arith, length,
  copy_into, take, take-copy_into_self, length-append, length-copy_into,
}
use dtmc_base.Framer.{Framer, FramerConfig}
use dtmc_base.Framer.Encode.{frame}
use dtmc_base.Framer.RoundTrip.{Fits, encode_room}
use dtmc_base.Manifold.{CString}
use dtmc_base.NetPortal.{Iox, EchoLaws, Fan, NetportalIox}
use dtmc_base.NetPortal.Stream.{publish}
use dtmc_base.NetPortal.Writing.{write_loop-Sends}

-- The bytes of a message's frame.
abbrev pub frame_length : CString → List ℕ → ℕ
frame_length topic payload = 7 + length topic + length payload

abbrev pub wire_length : List (CString × List ℕ) → ℕ
wire_length [] = 0
wire_length ((topic, payload) ∷ ms) = frame_length topic payload + wire_length ms

-- Messages that the framer's configuration and the buffer for the frame have room for.
abbrev pub AllSendable : FramerConfig → ℕ → List (CString × List ℕ) → Type 0
AllSendable config capacity [] = Unit
AllSendable config capacity ((topic, payload) ∷ ms) =
    Fits config topic payload
    × (frame_length topic payload ≤ capacity)
    × AllSendable config capacity ms

module _ {I W : Type 0} (iox : Iox I) where
  -- The portal with a frame in its buffer, and the device that follows.
  abbrev pub with_frame : NetportalIox I W → List ℕ → I → NetportalIox I W
  with_frame self bytes i = record self {
    encoded_buffer = copy_into self.encoded_buffer 0 bytes;
    iox_handle = some i;
  }

  pub publish-Sends :
      (laws : EchoLaws iox) (fuel : ℕ) (self : NetportalIox I W) (i : I) (framer : Framer (Fan W))
      (topic : CString) (payload : List ℕ)
      → self.iox_handle ≡ some i
      → self.framer_handle ≡ some framer
      → laws.Ready i
      → Fits framer.config topic payload
      → frame_length topic payload ≤ length self.encoded_buffer
      → length self.encoded_buffer < 2 ^ 31
      → frame_length topic payload ≤ laws.room i
      → frame_length topic payload ≤ fuel
      → let bytes = frame framer.config.protocol_version topic payload in
        (i' : I) × (publish iox fuel self topic payload ≡ some (none, with_frame self bytes i'))
        × (laws.incoming i' ≡ laws.incoming i ++ bytes)
        × (laws.room i' + frame_length topic payload ≡ laws.room i)
        × laws.Ready i'
  unfolding publish
  publish-Sends laws fuel self i framer topic payload hi hf r f c s m n =
      let bytes : List ℕ = frame framer.config.protocol_version topic payload in
      let size : length bytes ≡ frame_length topic payload =
        omega (arith, length-append topic payload) in
      let filled : List ℕ = copy_into self.encoded_buffer 0 bytes in
      let front : take (frame_length topic payload) filled ≡ bytes =
        rw (← size) (take-copy_into_self self.encoded_buffer bytes (omega arith)) in
      let (i', out, heard, room, r') =
        write_loop-Sends iox laws fuel i filled (frame_length topic payload) r
          (omega (arith, length-copy_into self.encoded_buffer 0 bytes)) (omega arith) m
          (omega arith) n in
      let sent = encode_room framer topic payload self.encoded_buffer f.topic_max c s in
      (
        i',
        rw (publish, hf, sent, hi, sent, out, hf) refl,
        heard ∙ ap (λ l. laws.incoming i ++ l) front,
        room,
        r',
      )
