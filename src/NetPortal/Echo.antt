-- ===== src/NetPortal/Echo.antt =====
-- A portal of dtnetportal_iox.c on a device that hears what it sends, beside the router alone.
use dtmc_base.Common.{
  ℕ, ◌+◌, ◌<◌, ◌≤◌, ◌^◌, ◌≡◌, ◌∙◌, sym, ap, refl, subst, List, [], ◌∷◌, ◌++◌, append-nil, Option,
  none, some, Dterr, true, arith, length, Option-cases, inl, inr, length-append, length-copy_into,
}
use dtmc_base.Framer.{Framer, Platform}
use dtmc_base.Framer.Encode.{frame}
use dtmc_base.Framer.RoundTrip.{IsReady, Fits}
use dtmc_base.Manifold.{System, CString, Manifold}
use dtmc_base.Manifold.Publish
use dtmc_base.NetPortal.{Iox, EchoLaws, Fan, NetportalIox}
use dtmc_base.NetPortal.Stream.{drain_loop, rx_drain, publish, drained, framer_decoded_callback}
use dtmc_base.NetPortal.Drain.{Emptied, drain_loop-Emptied, SameConfig, drain_loop-SameConfig}
use dtmc_base.NetPortal.Publishing.{publish_all, fanning, rx_drain-drain_loop, drain_loop-DrainsTo}
use dtmc_base.NetPortal.Sending.{frame_length, wire_length, AllSendable, with_frame, publish-Sends}

-- Sessions: each message is published, and what the device hears is drained.
module _ {I W : Type 0} (iox : Iox I) (platform : Platform) (fuel : ℕ) where
  unfoldable pub publish_and_drain :
      NetportalIox I W → CString → List ℕ → W → Option (Dterr × NetportalIox I W × W)
  publish_and_drain self topic payload w = elim (publish iox fuel self topic payload) [
    | none ↦ none
    | some (e, self') ↦ elim e [
      | some c ↦ some (some c, self', w)
      | none ↦ rx_drain iox platform fuel self' w
    ]
  ]

  unfoldable pub session :
      NetportalIox I W → List (CString × List ℕ) → W → Option (Dterr × NetportalIox I W × W)
  session self [] w = some (none, self, w)
  session self ((topic, payload) ∷ ms) w = elim (publish_and_drain self topic payload w) [
    | none ↦ none
    | some (e, self', w') ↦ elim e [
      | some c ↦ some (some c, self', w')
      | none ↦ session self' ms w'
    ]
  ]

module _ {I W : Type 0} (iox : Iox I) (laws : EchoLaws iox) (system : System W) where
  -- A portal that is switched on, over a device on which nothing waits.
  pub record IsOpen (self : NetportalIox I W) : Type 0 where
    pub device : I
    pub device_is : self.iox_handle ≡ some device
    pub ready : laws.Ready device
    pub silent : laws.incoming device ≡ []
    pub framer : Framer (Fan W)
    pub framer_is : self.framer_handle ≡ some framer
    pub framer_ready : IsReady (framer_decoded_callback system) framer
    pub fanning : self.should_fan_out ≡ true
    pub capacity_signed : length self.encoded_buffer < 2 ^ 31

  -- The portal behind a drain without an error.
  abbrev opened :
      (self : NetportalIox I W) (i : I) (framer : Framer (Fan W)) (m : Manifold) (w : W)
      → laws.Ready i
      → laws.incoming i ≡ []
      → IsReady (framer_decoded_callback system) framer
      → length self.encoded_buffer < 2 ^ 31
      → IsOpen (drained iox self (none, i, framer, (fanning system (none, m, w)).1)).1
  opened self i framer m w r quiet f n = record {
    device = i;
    device_is = refl;
    ready = r;
    silent = quiet;
    framer = framer;
    framer_is = refl;
    framer_ready = f;
    fanning = refl;
    capacity_signed = n;
  }

  -- An open portal with the same configuration, whose device has sent `n` bytes more.
  abbrev Later : (self : NetportalIox I W) → IsOpen self → ℕ → NetportalIox I W → Type 0
  Later self o n self' =
      (o' : IsOpen self') × (o'.framer.config ≡ o.framer.config)
      × (length self'.encoded_buffer ≡ length self.encoded_buffer)
      × (laws.room o'.device + n ≡ laws.room o.device)

  abbrev Stays : (self : NetportalIox I W) → IsOpen self → ℕ → NetportalIox I W → Dterr → Type 0
  Stays self o n self' (some c) = Unit
  Stays self o n self' none = Later self o n self'

  -- The same result, router and world.
  abbrev Step :
      (self : NetportalIox I W)
      → IsOpen self
      → ℕ
      → Dterr × Manifold × W
      → Option (Dterr × NetportalIox I W × W)
      → Type 0
  Step self o n (e, m, w) out =
      (self' : NetportalIox I W) × (out ≡ some (e, self', w))
      × (self'.manifold ≡ m)
      × Stays self o n self' e

  module _ (platform : Platform) where
    publish_and_drain-Step :
        (fuel : ℕ) (self : NetportalIox I W) (o : IsOpen self) (topic : CString) (payload : List ℕ)
        (w : W)
        → Fits o.framer.config topic payload
        → ((bytes : List ℕ) → platform.buffer_wrap bytes ≡ none)
        → frame_length topic payload ≤ length self.encoded_buffer
        → frame_length topic payload ≤ laws.room o.device
        → frame_length topic payload < fuel
        → Step self o
            (frame_length topic payload)
            (Publish.publish system self.manifold topic payload w)
            (publish_and_drain iox platform fuel self topic payload w)
    unfolding publish_and_drain
    publish_and_drain-Step fuel self o topic payload w f b c m n =
        let bytes : List ℕ = frame o.framer.config.protocol_version topic payload in
        let size : length bytes ≡ frame_length topic payload =
          omega (arith, length-append topic payload) in
        let (i', out, heard, room, r') =
          publish-Sends iox laws fuel self o.device o.framer topic payload o.device_is o.framer_is
            o.ready f c o.capacity_signed m (omega arith) in
        let self' : NetportalIox I W = with_frame iox self bytes i' in
        let only : laws.incoming i' ≡ bytes = heard ∙ ap (λ l. l ++ bytes) o.silent in
        let n' : length (laws.incoming i') < fuel = omega (arith, ap length only) in
        let (i'', framer', fr, out') =
          drain_loop-DrainsTo system iox laws platform fuel i' o.framer ((topic, payload) ∷ [])
            self.manifold w r' o.framer_ready (f, tt) b (only ∙ sym (append-nil bytes))
            (omega (arith, ap length only, o.capacity_signed)) n' in
        let p : Dterr × Manifold × W = Publish.publish system self.manifold topic payload w in
        let start : Fan W = (fanning system (none, self.manifold, w)).1 in
        elim (Option-cases p.0) [
          | inl fine ↦
              let left : Fan W = (fanning system p).1 in
              let drain : drain_loop iox platform fuel i' o.framer start
                  ≡ some (none, i'', framer', left) =
                out' ∙ rw (publish_all, fine) refl in
              let (jr, quiet, room') =
                subst (Emptied iox laws platform i') drain
                  (drain_loop-Emptied iox laws platform fuel i' o.framer start r' n') in
              let same : framer'.config ≡ o.framer.config =
                subst (SameConfig iox platform o.framer.config) drain
                  (drain_loop-SameConfig iox platform fuel i' o.framer start) in
              let last : NetportalIox I W = (drained iox self' (none, i'', framer', left)).1 in
              (
                last,
                rw (publish_and_drain, out, fine)
                    (rx_drain-drain_loop system iox laws platform fuel self' i' o.framer w
                      (none, i'', framer', left) refl o.framer_is o.fanning drain),
                refl,
                rw fine (
                  opened self' i'' framer' p.1 p.2 jr quiet fr (
                      omega
                        (arith, o.capacity_signed, length-copy_into self.encoded_buffer 0 bytes)),
                  same,
                  length-copy_into self.encoded_buffer 0 bytes,
                  omega (arith, room, room'),
                ),
              )
          | inr (e, bad) ↦
              let left : Fan W = (fanning system p).1 in
              let drain : drain_loop iox platform fuel i' o.framer start
                  ≡ some (some e, i'', framer', left) =
                out' ∙ rw (publish_all, bad) refl in
              (
                (drained iox self' (some e, i'', framer', left)).1,
                rw (publish_and_drain, out, bad)
                    (rx_drain-drain_loop system iox laws platform fuel self' i' o.framer w
                      (some e, i'', framer', left) refl o.framer_is o.fanning drain),
                refl,
                rw bad tt,
              )
        ]

    -- A run that ends with this result, router and world.
    abbrev pub EndsWith : Dterr × Manifold × W → Option (Dterr × NetportalIox I W × W) → Type 0
    EndsWith result out =
        (self' : NetportalIox I W) × (out ≡ some (result.0, self', result.2))
        × (self'.manifold ≡ result.1)

    -- Publishing messages through an open portal whose device hears what it sends, and draining the
    -- device after each, is publishing them to the router of the portal alone: the same result, the
    -- same router and the same world, up to the first error. Topics and payloads are not empty and within
    -- the framer's maxima and 16 bits, topics have no NUL, each frame fits the buffer, the device has
    -- room for all frames, memory for the copies can be had, and the fuel is above the size of the buffer.
    pub session-publish_all :
        (fuel : ℕ) (self : NetportalIox I W) (o : IsOpen self) (ms : List (CString × List ℕ))
        (w : W)
        → AllSendable o.framer.config (length self.encoded_buffer) ms
        → ((bytes : List ℕ) → platform.buffer_wrap bytes ≡ none)
        → wire_length ms ≤ laws.room o.device
        → length self.encoded_buffer < fuel
        → EndsWith (publish_all system ms self.manifold w) (session iox platform fuel self ms w)
    unfolding session
    session-publish_all fuel self o [] w a b h n = (self, refl, refl)
    session-publish_all fuel self o ((topic, payload) ∷ ms) w (f, c, a) b h n =
        let (next, out, router, stays) =
          publish_and_drain-Step fuel self o topic payload w f b c (omega arith) (omega arith) in
        let p : Dterr × Manifold × W = Publish.publish system self.manifold topic payload w in
        elim (Option-cases p.0) [
          | inl fine ↦
              let (o', config, capacity, room) : Later self o (frame_length topic payload) next =
                subst (Stays self o (frame_length topic payload) next) fine stays in
              let rest : EndsWith (publish_all system ms p.1 p.2)
                  (session iox platform fuel next ms p.2) =
                subst
                  (λ m.
                    EndsWith (publish_all system ms m p.2) (session iox platform fuel next ms p.2))
                  router
                  (session-publish_all fuel next o' ms p.2 (rw (config, capacity) a) b (omega arith)
                    (omega arith)) in
              rw (session, publish_all, out, fine) rest
          | inr (e, bad) ↦
              (next, rw (session, publish_all, out, bad) refl, rw (publish_all, bad) router)
        ]
