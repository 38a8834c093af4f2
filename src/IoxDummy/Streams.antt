-- ===== src/IoxDummy/Streams.antt =====
-- The bytes that go through the double of dtiox_dummy.c, and the objects that it makes.
use dtmc_base.Common.{
  append-nil, ℕ, zero, suc, ◌+◌, ◌<◌, ◌≤◌, ◌^◌, ◌≡◌, ◌∙◌, sym, ap, refl, List, [], ◌∷◌, ◌++◌,
  append_assoc, none, some, Dterr, fail, Bool, true, false, ◌&&◌, ◌==◌, arith, inl, inr, Bool-cases,
  if◌then◌else◌, length, take, min, slt, is_negative, length-take, length-append, take-drop,
  take_all,
}
use dtmc_base.IoxDummy.{Ringfifo, RingfifoLaws, IoxDummy}
use dtmc_base.IoxDummy.Device.{
  read, write, dispose, create, init, zeroed, alloc_buffers, with_fifos,
}

module _ {Q : Type 0} (fifo : Ringfifo Q) (laws : RingfifoLaws fifo) where
  -- The count that a write stores, and what it leaves.
  abbrev pub taken : IoxDummy Q → ℕ → ℕ
  taken self len = min len (laws.space self.tx_fifo)

  abbrev pub after_write : IoxDummy Q → List ℕ → ℕ → IoxDummy Q
  after_write self buf len = record self {
    tx_fifo = (fifo.push self.tx_fifo buf len).1;
    rx_fifo =
        if self.behavior.loopback && slt 0 (taken self len)
        then (fifo.push self.rx_fifo buf (taken self len)).1
        else self.rx_fifo;
  }

  not_negative : (n : ℕ) → n < 2 ^ 31 → is_negative n ≡ false
  not_negative n h = ground arith

  pub write-eq :
      (self : IoxDummy Q) (buf : List ℕ) (len : ℕ)
      → len ≤ length buf
      → 0 < len
      → len < 2 ^ 31
      → write fifo self buf len ≡ (
        if slt (taken self len) len then some fail else none,
        taken self len,
        after_write self buf len,
      )
  unfolding write
  write-eq self buf len h p b =
      let some_len : (len == 0) ≡ false = ground arith in
      rw
        (
          some_len,
          laws.push-count self.tx_fifo buf len h b,
          not_negative (taken self len) (omega arith),
        )
        refl

  pub read-eq :
      (self : IoxDummy Q) (len : ℕ)
      → 0 < len
      → len < 2 ^ 31
      → read fifo self len ≡ (
        none,
        take len (laws.contents self.rx_fifo),
        record self { rx_fifo = (fifo.pop self.rx_fifo len).2 },
      )
  unfolding read
  read-eq self len p b =
      let some_len : (len == 0) ≡ false = ground arith in
      let n : ℕ = min len (length (laws.contents self.rx_fifo)) in
      rw
        (
          some_len,
          laws.pop-count self.rx_fifo len b,
          not_negative n (omega arith),
          laws.pop-bytes self.rx_fifo len b,
        )
        (rw
          (take_all n (take len (laws.contents self.rx_fifo))
            (omega (arith, length-take len (laws.contents self.rx_fifo))))
          refl)

  -- With the loopback on and at least as much space behind as in front.
  abbrev pub Loops : IoxDummy Q → Type 0
  Loops self = (self.behavior.loopback ≡ true) × (laws.space self.tx_fifo ≤ laws.space self.rx_fifo)

  -- What a write of `n` bytes out of `bytes` does to the streams.
  abbrev Wrote : IoxDummy Q → List ℕ → ℕ → IoxDummy Q → Type 0
  Wrote self bytes n self' =
      (laws.contents self'.rx_fifo ≡ laws.contents self.rx_fifo ++ take n bytes)
      × (laws.space self'.tx_fifo + n ≡ laws.space self.tx_fifo)
      × (n ≤ length bytes)
      × Loops self'

  pub write-Wrote :
      (self : IoxDummy Q) (bytes : List ℕ) (len : ℕ)
      → len ≤ length bytes
      → len < 2 ^ 31
      → Loops self
      → let (_, n, self') = write fifo self bytes len in Wrote self bytes n self'
  write-Wrote self bytes zero l b h =
      unfold write in (sym (append-nil (laws.contents self.rx_fifo)), omega arith, omega arith, h)
  write-Wrote self bytes (suc k) l b h =
      let len : ℕ = suc k in
      let n : ℕ = taken self len in
      let below : n ≤ len = omega arith in
      let tx = laws.push-space self.tx_fifo bytes len l b in
      rw (write-eq self bytes len l (omega arith) b) (elim (Bool-cases (slt 0 n)) [
        | inl some_bytes ↦
            let all : min n (laws.space self.rx_fifo) ≡ n = omega (arith, h.1) in
            let rx = laws.push-space self.rx_fifo bytes n (omega arith) (omega arith) in
            let c = laws.push-contents self.rx_fifo bytes n (omega arith) (omega arith) in
            rw (h.0, some_bytes) (rw all at c, tx, omega arith, (refl, omega (arith, h.1)))
        | inr no_bytes ↦
            let nothing : n ≡ 0 = ground arith in
            rw (h.0, no_bytes)
              (
                rw nothing (sym (append-nil (laws.contents self.rx_fifo))),
                tx,
                omega arith,
                (refl, omega (arith, h.1)),
              )
      ])

  abbrev pub Got : IoxDummy Q → List ℕ → IoxDummy Q → Type 0
  Got self bytes self' =
      (laws.contents self.rx_fifo ≡ bytes ++ laws.contents self'.rx_fifo)
      × (laws.space self'.tx_fifo ≡ laws.space self.tx_fifo)
      × Loops self'

  pub read-Got :
      (self : IoxDummy Q) (len : ℕ)
      → len < 2 ^ 31
      → Loops self
      → let (_, bytes, self') = read fifo self len in Got self bytes self'
  read-Got self zero b h = unfold read in (refl, refl, h)
  read-Got self (suc k) b h = rw (read-eq self (suc k) (omega arith) b) (
    sym (
        rw (laws.pop-contents self.rx_fifo (suc k) b)
          (take-drop (suc k) (laws.contents self.rx_fifo))),
    refl,
    (h.0, omega (arith, h.1, laws.pop-space self.rx_fifo (suc k) b)),
  )

-- A write of some bytes, or a read into a buffer of some length.
pub data Transfer : Type 0 where
  send : List ℕ → Transfer
  receive : ℕ → Transfer

-- The lengths are those that an `int32_t` can hold.
abbrev pub AllFit32 : List Transfer → Type 0
AllFit32 [] = Unit
AllFit32 (send bytes ∷ ts) = (length bytes < 2 ^ 31) × AllFit32 ts
AllFit32 (receive n ∷ ts) = (n < 2 ^ 31) × AllFit32 ts

module _ {Q : Type 0} (fifo : Ringfifo Q) where
  -- The bytes that the writes took, the bytes that the reads gave, and the object after them.
  unfoldable pub transfer : List Transfer → IoxDummy Q → List ℕ × List ℕ × IoxDummy Q
  transfer [] self = ([], [], self)
  transfer (send bytes ∷ ts) self =
      let (_, n, self') = write fifo self bytes (length bytes) in
      let (sent, got, last) = transfer ts self' in (take n bytes ++ sent, got, last)
  transfer (receive n ∷ ts) self =
      let (_, bytes, self') = read fifo self n in
      let (sent, got, last) = transfer ts self' in (sent, bytes ++ got, last)

module _ {Q : Type 0} (fifo : Ringfifo Q) (laws : RingfifoLaws fifo) where
  -- With the loopback on and no less space in the input than in the output, over any writes and reads:
  -- the bytes waiting before, followed by the bytes that the writes took, are the bytes that the reads
  -- gave followed by those still waiting. And the writes take no more bytes in total than the output
  -- had space for at the start, for nothing takes bytes out of it.
  pub transfer-fifo :
      (ts : List Transfer) (self : IoxDummy Q)
      → AllFit32 ts
      → Loops fifo laws self
      → let (sent, got, last) = transfer fifo ts self in
        (laws.contents self.rx_fifo ++ sent ≡ got ++ laws.contents last.rx_fifo)
        × (length sent + laws.space last.tx_fifo ≡ laws.space self.tx_fifo)
  unfolding transfer
  transfer-fifo [] self f h = (append-nil (laws.contents self.rx_fifo), omega arith)
  transfer-fifo (send bytes ∷ ts) self (f, fs) h =
      let (c, t, n, h') = write-Wrote fifo laws self bytes (length bytes) (omega arith) f h in
      let (_, k, self') = write fifo self bytes (length bytes) in
      let (sent, got, last) = transfer fifo ts self' in
      let (ih, it) = transfer-fifo ts self' fs h' in
      (
        sym (append_assoc (laws.contents self.rx_fifo) (take k bytes) sent)
            ∙ ap (λ l. l ++ sent) (sym c)
            ∙ ih,
        omega (arith, length-append (take k bytes) sent, length-take k bytes),
      )
  transfer-fifo (receive n ∷ ts) self (f, fs) h =
      let (c, t, h') = read-Got fifo laws self n f h in
      let (_, bytes, self') = read fifo self n in
      let (sent, got, last) = transfer fifo ts self' in
      let (ih, it) = transfer-fifo ts self' fs h' in
      (
        ap (λ l. l ++ sent) c
            ∙ append_assoc bytes (laws.contents self'.rx_fifo) sent
            ∙ ap (λ l. bytes ++ l) ih
            ∙ sym (append_assoc bytes got (laws.contents last.rx_fifo)),
        omega arith,
      )

module _ {Q : Type 0} (fifo : Ringfifo Q) (malloc : ℕ → Bool) where
  alloc_buffers-is_malloced :
      (self : IoxDummy Q) (rx_cap tx_cap : ℕ)
      → (alloc_buffers fifo malloc self rx_cap tx_cap).1.is_malloced ≡ self.is_malloced
  unfolding alloc_buffers
  alloc_buffers-is_malloced self rx_cap tx_cap = ground arith

  init-is_malloced : (set_vtable : ℕ → Dterr) → (init fifo malloc set_vtable).1.is_malloced ≡ false
  unfolding init
  init-is_malloced set_vtable = ground (
    arith,
    alloc_buffers-is_malloced
        (with_fifos fifo (fifo.fifo_init fifo.zeroed_fifo).1 (fifo.fifo_init fifo.zeroed_fifo).1)
        1024 1024,
  )

-- An object that `create` makes is not marked as allocated, so `dispose` clears it and does not free
-- it.
pub dispose-create :
    {Q : Type 0} (fifo : Ringfifo Q) (malloc : ℕ → Bool) (set_vtable : ℕ → Dterr) (allocated : Bool)
    (self : IoxDummy Q)
    → (create fifo malloc set_vtable allocated).1 ≡ some self
    → dispose fifo self ≡ some (zeroed fifo)
unfolding create dispose
dispose-create fifo malloc set_vtable false self h = absurd (ground arith)
dispose-create fifo malloc set_vtable true self h =
    ground (arith, init-is_malloced fifo malloc set_vtable)
