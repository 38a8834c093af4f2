-- ===== src/NetPortal/Opening.antt =====
-- Setting a portal of dtnetportal_iox.c up: configure and activate.
use dtmc_base.Common.{
  ℕ, ◌<◌, ◌^◌, ◌≡◌, ap, refl, none, some, Dterr, true, length, arith, Option-cases, inl, inr,
}
use dtmc_base.Framer.{Framer, FramerConfig, Platform}
use dtmc_base.Framer.Config as FramerConfiguration
use dtmc_base.Framer.Limits.{SizedBlocks, configure-IsReady}
use dtmc_base.Framer.RoundTrip.{IsReady}
use dtmc_base.Manifold.{System}
use dtmc_base.NetPortal.{Iox, EchoLaws, Fan, NetportalIox, Runtime}
use dtmc_base.NetPortal.Stream.{framer_decoded_callback, validate_priority_enum}
use dtmc_base.NetPortal.Life.{configure, activate, start_rx_tasker, start_device}
use dtmc_base.NetPortal.Echo.{IsOpen}

module _ {I W : Type 0} (iox : Iox I) (laws : EchoLaws iox) where
  -- A device that was started, and fan-out switched on.
  start_device-ok :
      (self : NetportalIox I W) (i : I)
      → laws.Silent i
      → (start_device iox self i).0 ≡ none
      → (i' : I) × laws.Silent i'
        × ((start_device iox self i).1
            ≡ record self { iox_handle = some i'; should_fan_out = true })
  unfolding start_device
  start_device-ok self i s e =
      let (e1, i1) = iox.iox_set_rx_semaphore i self.rx_semaphore_handle in
      let (e2, i2) = iox.iox_attach i1 in
      let (e3, i3) = iox.iox_enable i2 true in
      (
        i3,
        laws.enable-Ready i2 true
            (laws.attach-Ready i1 (laws.set_rx_semaphore-Ready i self.rx_semaphore_handle s)),
        ground arith,
      )

  start_rx_tasker-members :
      (runtime : Runtime W) (self : NetportalIox I W) (w : W)
      → let s = (start_rx_tasker runtime self w).1 in
        (s.iox_handle ≡ self.iox_handle)
        × (s.framer_handle ≡ self.framer_handle)
        × (s.encoded_buffer ≡ self.encoded_buffer)
  unfolding start_rx_tasker
  start_rx_tasker-members runtime self w = (ground arith, ground arith, ground arith)

  module _ (runtime : Runtime W) (system : System W) where
    activate-IsOpen :
        (self : NetportalIox I W) (i : I) (framer : Framer (Fan W)) (w : W)
        → self.iox_handle ≡ some i
        → self.framer_handle ≡ some framer
        → laws.Silent i
        → IsReady
            (framer_decoded_callback system)
            (FramerConfiguration.set_message_callback framer
              (some (framer_decoded_callback system))).1
        → length self.encoded_buffer < 2 ^ 31
        → (activate iox runtime system self w).0 ≡ none
        → IsOpen iox laws system (activate iox runtime system self w).1
    unfolding activate FramerConfiguration.set_message_callback
    activate-IsOpen self i framer w hi hf s r n e =
        let framer' : Framer (Fan W) = record framer {
          message_callback_function = some (framer_decoded_callback system);
        } in
        let self' : NetportalIox I W = record self { framer_handle = some framer' } in
        let (e1, started, w') = start_rx_tasker runtime self' w in
        let (m1, m2, m3) = start_rx_tasker-members runtime self' w in
        elim (Option-cases e1) [
          | inr (c, bad) ↦ absurd (ground arith)
          | inl good ↦
              let device : (start_device iox started i).0 ≡ none = ground arith in
              let (i', s', out) = start_device-ok started i s device in
              let whole : activate iox runtime system self w
                  ≡ (none, record started { iox_handle = some i'; should_fan_out = true }, w') =
                ground arith in
              let (ready, silent) = laws.Silent-Ready i' s' in
              rw whole (record {
                device = i';
                device_is = refl;
                ready = ready;
                silent = silent;
                framer = framer';
                framer_is = m2;
                framer_ready = r;
                fanning = refl;
                capacity_signed = omega (arith, ap length m3);
              })
        ]

    -- A portal configured with a device and a framer that was configured before.
    abbrev pub configured :
        Platform
        → NetportalIox I W
        → I
        → Framer (Fan W)
        → FramerConfig
        → ℕ
        → ℕ
        → Dterr × NetportalIox I W
    configured platform self i framer config max_length priority =
        configure self (some i) (some (FramerConfiguration.configure platform framer config).1)
          max_length priority

    -- A portal that is configured with a device on which nothing waits and a framer that was configured
    -- with maxima that are not negative, and is then activated, without an error, is open: what arrives
    -- is published.
    pub configure-IsOpen :
        (platform : Platform) (self : NetportalIox I W) (i : I) (framer : Framer (Fan W))
        (config : FramerConfig) (max_length priority : ℕ) (w : W)
        → SizedBlocks platform
        → length framer.header_buffer ≡ 5
        → config.maximum_topic_length < 2 ^ 31
        → config.maximum_payload_length < 2 ^ 31
        → (FramerConfiguration.configure platform framer config).0 ≡ none
        → laws.Silent i
        → length self.encoded_buffer < 2 ^ 31
        → (configured platform self i framer config max_length priority).0 ≡ none
        → (activate iox runtime system
            (configured platform self i framer config max_length priority).1
            w).0
          ≡ none
        → IsOpen iox laws system
            (activate iox runtime system
              (configured platform self i framer config max_length priority).1
              w).1
    unfolding configure FramerConfiguration.set_message_callback
    configure-IsOpen platform self i framer config max_length priority w sized h t p f s n c a =
        let framer' : Framer (Fan W) = (FramerConfiguration.configure platform framer config).1 in
        let next : NetportalIox I W =
          (configured platform self i framer config max_length priority).1 in
        let (ready, _, _) =
          configure-IsReady platform sized framer config (framer_decoded_callback system) h t p f in
        elim (Option-cases (validate_priority_enum priority)) [
          | inr (e, bad) ↦ absurd (ground arith)
          | inl good ↦
              activate-IsOpen next i framer' w (ground arith) (ground arith) s ready (ground arith)
                a
        ]
