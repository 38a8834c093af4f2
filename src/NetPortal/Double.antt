-- ===== src/NetPortal/Double.antt =====
-- The test double of dtiox_dummy.c as a device of portals: with its loopback on, it hears what it
-- sends.
use dtmc_base.Common.{
  ℕ, ◌<◌, ◌≤◌, ◌^◌, ◌≡◌, ◌∙◌, sym, ap, refl, List, [], none, Bool, true, false, arith, length, take,
  length-take, slt, List-cases, zero, suc, inl, inr,
}
use dtmc_base.IoxDummy.{Ringfifo, RingfifoLaws, IoxDummy}
use dtmc_base.IoxDummy.Device.{attach, enable, set_rx_semaphore, read, write}
use dtmc_base.IoxDummy.Streams.{Loops, write-Wrote, read-Got, write-eq, read-eq, taken}
use dtmc_base.Manifold.{Pointer}
use dtmc_base.NetPortal.{Iox, EchoLaws, raw_input_length}

module _ {Q : Type 0} (fifo : Ringfifo Q) where
  -- Nothing becomes of the double while its user sleeps.
  abbrev pub double : Iox (IoxDummy Q)
  double = record {
    iox_attach = attach fifo;
    iox_enable = enable fifo;
    iox_set_rx_semaphore = set_rx_semaphore fifo;
    iox_read = read fifo;
    iox_write = write fifo;
    nap = λ self. self;
  }

  module _ (laws : RingfifoLaws fifo) where
    -- A write for which there is space is whole.
    pub write_whole :
        (self : IoxDummy Q) (bytes : List ℕ) (n : ℕ)
        → n ≤ length bytes
        → n < 2 ^ 31
        → n ≤ laws.space self.tx_fifo
        → ((write fifo self bytes n).0 ≡ none) × ((write fifo self bytes n).1 ≡ n)
    write_whole self bytes zero l b s = unfold write in (refl, refl)
    write_whole self bytes (suc k) l b s =
        let all : taken fifo laws self (suc k) ≡ suc k = omega arith in
        let full : slt (suc k) (suc k) ≡ false = ground arith in
        rw (write-eq fifo laws self bytes (suc k) l (omega arith) b, all, full) (refl, refl)

    pub read_nothing :
        (self : IoxDummy Q)
        → length (read fifo self raw_input_length).1 ≡ 0
        → laws.contents self.rx_fifo ≡ []
    read_nothing self e =
        let n : length (take raw_input_length (laws.contents self.rx_fifo)) ≡ 0 =
          ap (λ p. length p.1)
            (sym (read-eq fifo laws self raw_input_length (omega arith) (omega arith)))
          ∙ e in
        elim (List-cases (laws.contents self.rx_fifo)) [
          | inl empty ↦ empty
          | inr (b, bs, some_bytes) ↦ absurd (
              omega (
                arith,
                n,
                length-take raw_input_length (laws.contents self.rx_fifo),
                ap length some_bytes,
              ))
        ]

    abbrev pub IsSilent : IoxDummy Q → Type 0
    IsSilent self = Loops fifo laws self × (laws.contents self.rx_fifo ≡ [])

    pub set_up-IsSilent :
        (self : IoxDummy Q) (handle : Pointer) (on : Bool)
        → IsSilent self
        → IsSilent (set_rx_semaphore fifo self handle).1
          × IsSilent (attach fifo self).1
          × IsSilent (enable fifo self on).1
    unfolding set_rx_semaphore attach enable
    set_up-IsSilent self handle on s = (s, s, s)

    -- The double with its loopback on, and no less space in its input than in its output, is a device
    -- that hears what it sends, in the sense that portals count on.
    abbrev pub double_laws : EchoLaws double
    double_laws = record {
      Ready = Loops fifo laws;
      incoming = λ self. laws.contents self.rx_fifo;
      room = λ self. laws.space self.tx_fifo;
      Silent = IsSilent;
      Silent-Ready = λ self s. s;
      write-Ready = λ self bytes n r l m b.
          let (fine, whole) = write_whole self bytes n l b m in
          let (heard, room, _, r') = write-Wrote fifo laws self bytes n l b r in
          (fine, omega arith, λ s. omega arith, heard, room, r');
      nap-Ready = λ self r. (refl, refl, r);
      read-Ready = λ self r.
          let (heard, room, r') = read-Got fifo laws self raw_input_length (omega arith) r in
          let fine : (read fifo self raw_input_length).0 ≡ none =
            ap (λ p. p.0) (read-eq fifo laws self raw_input_length (omega arith) (omega arith)) in
          (fine, heard, read_nothing self, room, r');
      set_rx_semaphore-Ready = λ self handle s. (set_up-IsSilent self handle true s).0;
      attach-Ready = λ self s. (set_up-IsSilent self 0 true s).1;
      enable-Ready = λ self on s. (set_up-IsSilent self 0 on s).2;
    }
