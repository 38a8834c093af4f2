-- ===== src/NetPortal/Bursts.antt =====
-- The task of dtnetportal_iox.c when bytes arrive in bursts, each with a wake.
use mathlib.Core.Option
use dtmc_base.Common.{
  ℕ, ◌<◌, ◌^◌, ◌≡◌, ◌∙◌, ap, refl, subst, List, [], ◌∷◌, ◌++◌, Option, none, some, Dterr, fail,
  false, arith, length, length-append, Option-cases, inl, inr,
}
use dtmc_base.Framer.{Framer, Platform}
use dtmc_base.Framer.Decode.{Outcome}
use dtmc_base.Framer.Pieces.{joined-append, decode_pieces-append, decode_pieces, joined}
use dtmc_base.Framer.RoundTrip.{AllFit, frames, decode_pieces-frames}
use dtmc_base.Manifold.{System, CString, Manifold}
use dtmc_base.NetPortal.{Iox, EchoLaws, Fan, NetportalIox}
use dtmc_base.NetPortal.Stream.{rx_drain, drain_loop, drained}
use dtmc_base.NetPortal.Drain.{
  reads, joined-reads, outcome, drain_loop-reads, Emptied, drain_loop-Emptied,
}
use dtmc_base.NetPortal.Publishing.{publish_all, fanning, call_all-publish_all}
use dtmc_base.NetPortal.Echo.{IsOpen}
use dtmc_base.NetPortal.Task.{Wake, TaskState, waits, returned, task_loop}

module _ {I : Type 0} (iox : Iox I) (laws : EchoLaws iox) where
  -- Some bytes that arrive at the device.
  pub record Burst : Type 0 where
    pub bytes : List ℕ
    pub arrive : I → I
    pub arrive-Ready :
        (i : I)
        → laws.Ready i
        → laws.Ready (arrive i) × (laws.incoming (arrive i) ≡ laws.incoming i ++ bytes)

  abbrev pub all_bytes : List Burst → List (List ℕ)
  all_bytes [] = []
  all_bytes (b ∷ bs) = b.bytes ∷ all_bytes bs

  module _ {W : Type 0} where
    -- The wake that comes with a burst.
    abbrev pub wake : Burst → Wake I W
    wake b = record {
      result = none;
      meanwhile = λ self w. (record self { iox_handle = Option.map b.arrive self.iox_handle }, w);
    }

    abbrev pub burst_wakes : List Burst → List (Wake I W)
    burst_wakes [] = []
    burst_wakes (b ∷ bs) = wake b ∷ burst_wakes bs

    -- Where the task is behind an error or none.
    abbrev pub task_behind : Dterr → NetportalIox I W → W → TaskState I W
    task_behind none self w = waits self w
    task_behind (some c) self w = returned (some fail) self w

    -- The task behind what the decoder made of the bytes: it waits again, or it returned an error and kept
    -- the one behind it.
    abbrev pub TaskIs : Dterr × Manifold × W → TaskState I W → Type 0
    TaskIs result state =
        (self : NetportalIox I W) × (state ≡ task_behind result.0 self result.2)
        × (self.manifold ≡ result.1)
        × (self.internal_task_dterr ≡ result.0)

    abbrev TaskAfter : Option (Outcome (Fan W)) → TaskState I W → Type 0
    TaskAfter none state = Unit
    TaskAfter (some (e, framer, fan)) state = TaskIs (e, fan.manifold, fan.world) state

    -- A portal that reads, with this device and this framer.
    record IsReading (self : NetportalIox I W) (i : I) (framer : Framer (Fan W)) : Type 0 where
      device_is : self.iox_handle ≡ some i
      framer_is : self.framer_handle ≡ some framer
      goes_on : self.should_rx_thread_stop ≡ false
      ready : laws.Ready i
      silent : laws.incoming i ≡ []
      no_dterr : self.internal_task_dterr ≡ none

    abbrev fan_of : NetportalIox I W → W → Fan W
    fan_of self w = record {
      manifold = self.manifold;
      should_fan_out = self.should_fan_out;
      world = w;
    }

    module _ (platform : Platform) (fuel : ℕ) where
      rx_drain-drain :
          (self : NetportalIox I W) (i : I) (framer : Framer (Fan W)) (w : W)
          → self.iox_handle ≡ some i
          → self.framer_handle ≡ some framer
          → rx_drain iox platform fuel self w
            ≡ Option.map (drained iox self) (drain_loop iox platform fuel i framer (fan_of self w))
      unfolding rx_drain
      rx_drain-drain self i framer w hi hf = rw (rx_drain, hi, hf) refl

      abbrev drain_of :
          Burst
          → NetportalIox I W
          → I
          → Framer (Fan W)
          → W
          → Option (Dterr × I × Framer (Fan W) × Fan W)
      drain_of b self i framer w = drain_loop iox platform fuel (b.arrive i) framer (fan_of self w)

      abbrev with_burst : Burst → NetportalIox I W → NetportalIox I W
      with_burst b self = record self { iox_handle = Option.map b.arrive self.iox_handle }

      -- The drain behind a burst reads it whole.
      drain_of-reads :
          (b : Burst) (self : NetportalIox I W) (i : I) (framer : Framer (Fan W)) (w : W)
          → IsReading self i framer
          → length b.bytes < fuel
          → let first = reads iox laws fuel (b.arrive i) in
            let drain = drain_of b self i framer w in
            (joined first ≡ b.bytes)
            × (outcome iox laws platform drain
                ≡ decode_pieces platform framer first (fan_of self w))
            × Emptied iox laws platform (b.arrive i) drain
            × (rx_drain iox platform fuel (with_burst b self) w
                ≡ Option.map (drained iox (with_burst b self)) drain)
      drain_of-reads b self i framer w r n =
          let (rj, heard) = b.arrive-Ready i r.ready in
          let got : laws.incoming (b.arrive i) ≡ b.bytes =
            heard ∙ ap (λ l. l ++ b.bytes) r.silent in
          let few : length (laws.incoming (b.arrive i)) < fuel = omega (arith, ap length got, n) in
          (
            joined-reads iox laws fuel (b.arrive i) rj few ∙ got,
            drain_loop-reads iox laws platform fuel (b.arrive i) framer (fan_of self w) rj few,
            drain_loop-Emptied iox laws platform fuel (b.arrive i) framer (fan_of self w) rj few,
            rx_drain-drain (with_burst b self) (b.arrive i) framer w
                (ap (Option.map b.arrive) r.device_is) r.framer_is,
          )

      -- Up to the first error, the task decodes the bursts in some pieces.
      task_loop-pieces :
          (bursts : List Burst) (self : NetportalIox I W) (i : I) (framer : Framer (Fan W)) (w : W)
          → IsReading self i framer
          → length (joined (all_bytes bursts)) < fuel
          → (pieces : List (List ℕ)) × (joined pieces ≡ joined (all_bytes bursts))
            × TaskAfter
                (decode_pieces platform framer pieces (fan_of self w))
                (task_loop iox platform fuel (burst_wakes bursts) self w)
      unfolding task_loop
      task_loop-pieces [] self i framer w r n = ([], refl, (self, refl, refl, r.no_dterr))
      task_loop-pieces (b ∷ bs) self i framer w r n =
          let total = length-append b.bytes (joined (all_bytes bs)) in
          let fan : Fan W = fan_of self w in
          let first : List (List ℕ) = reads iox laws fuel (b.arrive i) in
          let next : NetportalIox I W = with_burst b self in
          let (all, decoded, emptied, drain) =
            drain_of-reads b self i framer w r (omega (arith, total, n)) in
          let whole : joined (first ++ all_bytes bs) ≡ b.bytes ++ joined (all_bytes bs) =
            joined-append first (all_bytes bs) ∙ ap (λ l. l ++ joined (all_bytes bs)) all in
          elim (Option-cases (drain_of b self i framer w)) [
            | inl out ↦ (
              first ++ all_bytes bs,
              whole,
              rw (decode_pieces-append platform first (all_bytes bs) framer fan, ← decoded, out) tt,
            )
            | inr (d, out) ↦ elim (Option-cases d.0) [
              | inr (c, bad) ↦ (
                first ++ all_bytes bs,
                whole,
                rw
                    (
                      decode_pieces-append platform first (all_bytes bs) framer fan,
                      ← decoded,
                      out,
                      bad,
                    )
                    ((
                      record (drained iox next d).1 { internal_task_dterr = some c },
                      rw (task_loop, r.goes_on, drain, out, bad, r.goes_on) refl,
                      refl,
                      refl,
                    )),
              )
              | inl fine ↦
                  let full : drain_of b self i framer w ≡ some (none, d.1, d.2, d.3) =
                    out ∙ ap (λ e. some (e, d.1, d.2, d.3)) fine in
                  let (ready, silent, _) =
                    subst (Emptied iox laws platform (b.arrive i)) full emptied in
                  let self' : NetportalIox I W = (drained iox next (none, d.1, d.2, d.3)).1 in
                  let step : task_loop iox platform fuel (burst_wakes (b ∷ bs)) self w
                      ≡ task_loop iox platform fuel (burst_wakes bs) self' d.3.world =
                    rw (task_loop, r.goes_on, drain, full, r.goes_on) refl in
                  let (pieces, rest, after) =
                    task_loop-pieces bs self' d.1 d.2 d.3.world
                      (record {
                        device_is = refl;
                        framer_is = refl;
                        goes_on = r.goes_on;
                        ready = ready;
                        silent = silent;
                        no_dterr = r.no_dterr;
                      })
                      (omega (arith, total, n)) in
                  (
                    first ++ pieces,
                    joined-append first pieces
                        ∙ ap (λ l. l ++ joined pieces) all
                        ∙ ap (λ l. b.bytes ++ l) rest,
                    rw
                        (
                          decode_pieces-append platform first pieces framer fan,
                          ← decoded,
                          full,
                          step,
                        )
                        after,
                  )
            ]
          ]

  -- An open portal whose task waits, and the bytes of the frames of messages that arrive in any bursts,
  -- each with a wake: the messages are published to the portal's router, unchanged and in order. Then the
  -- task waits again; or a publish failed, and the task returned `DTERR_FAIL` and kept the error. Topics
  -- and payloads are not empty and within the framer's maxima and 16 bits, topics have no NUL, memory
  -- for the copies can be had, fewer than 2 ^ 31 bytes arrive, and the fuel is above their number. The
  -- task is not asked to stop and no error is kept at the start.
  pub task_loop-publish_all :
      {W : Type 0} (system : System W) (platform : Platform) (fuel : ℕ) (bursts : List Burst)
      (self : NetportalIox I W) (o : IsOpen iox laws system self) (ms : List (CString × List ℕ))
      (w : W)
      → self.should_rx_thread_stop ≡ false
      → self.internal_task_dterr ≡ none
      → AllFit o.framer.config ms
      → ((bytes : List ℕ) → platform.buffer_wrap bytes ≡ none)
      → joined (all_bytes bursts) ≡ frames o.framer.config.protocol_version ms
      → length (joined (all_bytes bursts)) < 2 ^ 31
      → length (joined (all_bytes bursts)) < fuel
      → TaskIs
          (publish_all system ms self.manifold w)
          (task_loop iox platform fuel (burst_wakes bursts) self w)
  task_loop-publish_all {W} system platform fuel bursts self o ms w go q a b e h n =
      let state : TaskState I W = task_loop iox platform fuel (burst_wakes bursts) self w in
      let start : Fan W = (fanning system (none, self.manifold, w)).1 in
      let (pieces, same, after) =
        task_loop-pieces platform fuel bursts self o.device o.framer w
          (record {
            device_is = o.device_is;
            framer_is = o.framer_is;
            goes_on = go;
            ready = o.ready;
            silent = o.silent;
            no_dterr = q;
          })
          n in
      let fans : fan_of self w ≡ start =
        ap (λ on. record { manifold = self.manifold; should_fan_out = on; world = w }) o.fanning in
      let (framer', ready', out) =
        decode_pieces-frames platform o.framer pieces ms start o.framer_ready a b (same ∙ e)
          (omega (arith, ap length same)) in
      let published = call_all-publish_all system ms self.manifold w in
      subst (λ p. TaskIs (p.0, p.1.manifold, p.1.world) state) published
        (subst (λ d. TaskAfter d state) out
          (subst (λ f. TaskAfter (decode_pieces platform o.framer pieces f) state) fans after))
