-- ===== src/NetPortal/Publishing.antt =====
-- Draining the frames of messages: what dtnetportal_iox.c makes of what arrives.
use mathlib.Core.Option
use dtmc_base.Common.{
  ℕ, ◌<◌, ◌^◌, ◌≡◌, ◌∙◌, ap, refl, subst, List, [], ◌∷◌, Option, none, some, Dterr, true, arith,
  length, Option-cases, inl, inr,
}
use dtmc_base.Framer.{Framer, Platform}
use dtmc_base.Framer.Pieces.{decode_pieces, joined}
use dtmc_base.Framer.RoundTrip.{IsReady, AllFit, frames, call_all, Delivers, decode_pieces-frames}
use dtmc_base.Manifold.{System, CString, Manifold}
use dtmc_base.Manifold.Publish
use dtmc_base.NetPortal.{Iox, EchoLaws, Fan, NetportalIox}
use dtmc_base.NetPortal.Stream.{drain_loop, rx_drain, drained, framer_decoded_callback}
use dtmc_base.NetPortal.Drain.{reads, joined-reads, outcome, drain_loop-reads}

-- The messages published to a manifold one after the other, up to the first error.
abbrev pub publish_all :
    {W : Type 0} → System W → List (CString × List ℕ) → Manifold → W → Dterr × Manifold × W
publish_all system [] m w = (none, m, w)
publish_all system ((topic, payload) ∷ ms) m w =
    let (e, m', w') = Publish.publish system m topic payload w in
    elim e [ none ↦ publish_all system ms m' w' | some c ↦ (some c, m', w') ]

module _ {W : Type 0} (system : System W) where
  abbrev pub fanning : Dterr × Manifold × W → Dterr × Fan W
  fanning (e, m, w) = (e, record { manifold = m; should_fan_out = true; world = w })

  -- The framer's callback publishes.
  pub call_all-publish_all :
      (ms : List (CString × List ℕ)) (m : Manifold) (w : W)
      → call_all (framer_decoded_callback system) ms (fanning (none, m, w)).1
        ≡ fanning (publish_all system ms m w)
  unfolding framer_decoded_callback
  call_all-publish_all [] m w = refl
  call_all-publish_all ((topic, payload) ∷ ms) m w =
      let p : Dterr × Manifold × W = Publish.publish system m topic payload w in
      elim (Option-cases p.0) [
        | inl fine ↦ rw (call_all, publish_all, fine) (call_all-publish_all ms p.1 p.2)
        | inr (c, bad) ↦ rw (call_all, publish_all, bad) refl
      ]

  module _ {I : Type 0} (iox : Iox I) (laws : EchoLaws iox) (platform : Platform) where
    -- A drain that gave this result, this router and this world, and left the decoder ready.
    abbrev pub DrainsTo :
        I → Dterr × Manifold × W → Option (Dterr × I × Framer (Fan W) × Fan W) → Type 0
    DrainsTo i result out =
        (i' : I) × (framer : Framer (Fan W)) × IsReady (framer_decoded_callback system) framer
        × (out ≡ some ((fanning result).0, i', framer, (fanning result).1))

    outcome-DrainsTo :
        (i : I) (result : Dterr × Manifold × W) (out : Option (Dterr × I × Framer (Fan W) × Fan W))
        → Delivers (framer_decoded_callback system) (fanning result) (outcome iox laws platform out)
        → DrainsTo i result out
    outcome-DrainsTo i result none (framer, r, e) = absurd (ground arith)
    outcome-DrainsTo i result (some (c, i', f, fan)) (framer, r, e) =
        (i', framer, r, ap (Option.map (λ p. (p.0, i', p.1, p.2))) e)

    -- A drain of a device on which the frames of messages wait publishes them.
    pub drain_loop-DrainsTo :
        (fuel : ℕ) (i : I) (framer : Framer (Fan W)) (ms : List (CString × List ℕ)) (m : Manifold)
        (w : W)
        → laws.Ready i
        → IsReady (framer_decoded_callback system) framer
        → AllFit framer.config ms
        → ((bytes : List ℕ) → platform.buffer_wrap bytes ≡ none)
        → laws.incoming i ≡ frames framer.config.protocol_version ms
        → length (laws.incoming i) < 2 ^ 31
        → length (laws.incoming i) < fuel
        → DrainsTo i
            (publish_all system ms m w)
            (drain_loop iox platform fuel i framer (fanning (none, m, w)).1)
    drain_loop-DrainsTo fuel i framer ms m w r f a b e h n =
        let fan : Fan W = (fanning (none, m, w)).1 in
        let all : joined (reads iox laws fuel i) ≡ laws.incoming i =
          joined-reads iox laws fuel i r n in
        outcome-DrainsTo i (publish_all system ms m w) _ (
          rw (drain_loop-reads iox laws platform fuel i framer fan r n) (
            subst
              (λ p.
                Delivers (framer_decoded_callback system) p
                  (decode_pieces platform framer (reads iox laws fuel i) fan))
              (call_all-publish_all ms m w)
              (decode_pieces-frames platform framer (reads iox laws fuel i) ms fan f a b (all ∙ e)
                (omega (arith, ap length all)))))

    pub rx_drain-drain_loop :
        (fuel : ℕ) (self : NetportalIox I W) (i : I) (framer : Framer (Fan W)) (w : W)
        (left : Dterr × I × Framer (Fan W) × Fan W)
        → self.iox_handle ≡ some i
        → self.framer_handle ≡ some framer
        → self.should_fan_out ≡ true
        → drain_loop iox platform fuel i framer (fanning (none, self.manifold, w)).1 ≡ some left
        → rx_drain iox platform fuel self w ≡ some (drained iox self left)
    unfolding rx_drain
    rx_drain-drain_loop fuel self i framer w left hi hf on out = rw (rx_drain, hi, hf, on, out) refl

    -- With fan-out switched on, draining a device on which the frames of messages wait publishes these
    -- messages to the router of the portal, unchanged and in order, up to the first error, which is the
    -- result. The framer and the device are ready, topics and payloads are not empty and within the
    -- framer's maxima and 16 bits, topics have no NUL, memory for the copies can be had, and fewer than
    -- 2 ^ 31 bytes wait. One unit of fuel more than bytes wait is enough.
    pub rx_drain-publish_all :
        (fuel : ℕ) (self : NetportalIox I W) (i : I) (framer : Framer (Fan W))
        (ms : List (CString × List ℕ)) (w : W)
        → self.iox_handle ≡ some i
        → self.framer_handle ≡ some framer
        → self.should_fan_out ≡ true
        → laws.Ready i
        → IsReady (framer_decoded_callback system) framer
        → AllFit framer.config ms
        → ((bytes : List ℕ) → platform.buffer_wrap bytes ≡ none)
        → laws.incoming i ≡ frames framer.config.protocol_version ms
        → length (laws.incoming i) < 2 ^ 31
        → length (laws.incoming i) < fuel
        → let (e, m, w') = publish_all system ms self.manifold w in
          (self' : NetportalIox I W) × (rx_drain iox platform fuel self w ≡ some (e, self', w'))
          × (self'.manifold ≡ m)
    rx_drain-publish_all fuel self i framer ms w hi hf on r f a b e h n =
        let (i', framer', f', out) =
          drain_loop-DrainsTo fuel i framer ms self.manifold w r f a b e h n in
        let result : Dterr × Manifold × W = publish_all system ms self.manifold w in
        (
          (drained iox self ((fanning result).0, i', framer', (fanning result).1)).1,
          rx_drain-drain_loop fuel self i framer w _ hi hf on out,
          refl,
        )
