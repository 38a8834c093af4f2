-- ===== src/NetPortal/Drain.antt =====
-- Draining a device into the framer and the manifold, by `dtnetportal_iox_rx_drain`.
use mathlib.Core.Option
use dtmc_base.Common.{
  ℕ, zero, suc, ◌+◌, ◌<◌, ◌≡◌, ◌∙◌, sym, ap, refl, subst, List, [], ◌∷◌, ◌++◌, Option, none, some,
  Dterr, arith, length, length-append, List-cases, Option-cases, inl, inr,
}
use dtmc_base.Framer.{Framer, FramerConfig, Platform}
use dtmc_base.Framer.Settings.{Keeps, decode-Keeps}
use dtmc_base.Framer.Decode.{Outcome, decode}
use dtmc_base.Framer.Pieces.{decode_pieces, joined}
use dtmc_base.NetPortal.{Iox, EchoLaws, Fan, raw_input_length}
use dtmc_base.NetPortal.Stream.{drain_loop}

module _ {I : Type 0} (iox : Iox I) (laws : EchoLaws iox) where
  -- What the device gives to reads in a row, until it has nothing more.
  abbrev pub reads : ℕ → I → List (List ℕ)
  reads zero i = []
  reads (suc fuel) i =
      let (e, bytes, i') = iox.iox_read i raw_input_length in
      elim bytes [ [] ↦ [] | b ∷ bs ↦ (b ∷ bs) ∷ reads fuel i' ]

  read_length :
      (i : I)
      → laws.Ready i
      → (b : ℕ) (bs : List ℕ) → (iox.iox_read i raw_input_length).1 ≡ b ∷ bs
      → length (laws.incoming i)
        ≡ suc (length bs) + length (laws.incoming (iox.iox_read i raw_input_length).2)
  read_length i r b bs some_bytes =
      let (e, split, last, same, r') = laws.read-Ready i r in
      let (_, bytes, i') = iox.iox_read i raw_input_length in
      ap length split
      ∙ length-append bytes (laws.incoming i')
      ∙ ap (λ l. length l + length (laws.incoming i')) some_bytes

  pub joined-reads :
      (fuel : ℕ) (i : I)
      → laws.Ready i
      → length (laws.incoming i) < fuel
      → joined (reads fuel i) ≡ laws.incoming i
  joined-reads zero i r h = absurd (omega arith)
  joined-reads (suc fuel) i r h =
      let (e, split, last, same, r') = laws.read-Ready i r in
      let (_, bytes, i') = iox.iox_read i raw_input_length in
      elim (List-cases bytes) [
        | inl empty ↦ rw (reads, empty, last (ap length empty)) refl
        | inr (b, bs, some_bytes) ↦
            let n : length (laws.incoming i) ≡ suc (length bs) + length (laws.incoming i') =
              read_length i r b bs some_bytes in
            rw (reads, some_bytes)
              (ap (λ l. b ∷ (bs ++ l)) (joined-reads fuel i' r' (omega arith))
                ∙ ap (λ l. l ++ laws.incoming i') (sym some_bytes)
                ∙ sym split)
      ]

  module _ {W : Type 0} (platform : Platform) where
    -- The result of a drain, but for the device.
    abbrev pub outcome : Option (Dterr × I × Framer (Fan W) × Fan W) → Option (Outcome (Fan W))
    outcome = Option.map (λ r. (r.0, r.2, r.3))

    -- A drain decodes what it reads, piece by piece.
    pub drain_loop-reads :
        (fuel : ℕ) (i : I) (framer : Framer (Fan W)) (fan : Fan W)
        → laws.Ready i
        → length (laws.incoming i) < fuel
        → outcome (drain_loop iox platform fuel i framer fan)
          ≡ decode_pieces platform framer (reads fuel i) fan
    unfolding drain_loop
    drain_loop-reads zero i framer fan r h = absurd (omega arith)
    drain_loop-reads (suc fuel) i framer fan r h =
        let (e, split, last, same, r') = laws.read-Ready i r in
        let (_, bytes, i') = iox.iox_read i raw_input_length in
        rw (outcome, drain_loop, e)
          (elim (List-cases bytes) [
            | inl empty ↦ rw (reads, empty) refl
            | inr (b, bs, some_bytes) ↦
                let n : length (laws.incoming i) ≡ suc (length bs) + length (laws.incoming i') =
                  read_length i r b bs some_bytes in
                rw (reads, some_bytes)
                  (elim (Option-cases (decode platform framer (b ∷ bs) (length (b ∷ bs)) fan)) [
                    | inl out ↦ rw out refl
                    | inr (o, done) ↦ elim (Option-cases o.0) [
                      | inl fine ↦
                          rw (done, fine) (drain_loop-reads fuel i' o.1 o.2 r' (omega arith))
                      | inr (c, bad) ↦ rw (done, bad) refl
                    ]
                  ])
          ])

  module _ {W : Type 0} (platform : Platform) where
    -- After a drain without an error nothing waits any more.
    abbrev pub Emptied : I → Option (Dterr × I × Framer (Fan W) × Fan W) → Type 0
    Emptied i none = Unit
    Emptied i (some (some c, i', framer, fan)) = Unit
    Emptied i (some (none, i', framer, fan)) =
        laws.Ready i' × (laws.incoming i' ≡ []) × (laws.room i' ≡ laws.room i)

    Emptied-same :
        (i j : I) (out : Option (Dterr × I × Framer (Fan W) × Fan W))
        → laws.room j ≡ laws.room i
        → Emptied j out
        → Emptied i out
    Emptied-same i j none s h = h
    Emptied-same i j (some (some c, i', framer, fan)) s h = h
    Emptied-same i j (some (none, i', framer, fan)) s h = (h.0, h.1, h.2 ∙ s)

    pub drain_loop-Emptied :
        (fuel : ℕ) (i : I) (framer : Framer (Fan W)) (fan : Fan W)
        → laws.Ready i
        → length (laws.incoming i) < fuel
        → Emptied i (drain_loop iox platform fuel i framer fan)
    unfolding drain_loop
    drain_loop-Emptied zero i framer fan r h = absurd (omega arith)
    drain_loop-Emptied (suc fuel) i framer fan r h =
        let (e, split, last, same, r') = laws.read-Ready i r in
        let (_, bytes, i') = iox.iox_read i raw_input_length in
        rw (drain_loop, e)
          (elim (List-cases bytes) [
            | inl empty ↦
                let rest : laws.incoming i' ≡ [] =
                  ap (λ l. l ++ laws.incoming i') (sym empty)
                  ∙ sym split
                  ∙ last (ap length empty) in
                rw empty (r', rest, same)
            | inr (b, bs, some_bytes) ↦
                let n : length (laws.incoming i) ≡ suc (length bs) + length (laws.incoming i') =
                  read_length i r b bs some_bytes in
                rw some_bytes
                  (elim (Option-cases (decode platform framer (b ∷ bs) (length (b ∷ bs)) fan)) [
                    | inl out ↦ rw out tt
                    | inr (o, done) ↦ elim (Option-cases o.0) [
                      | inl fine ↦
                          rw (done, fine)
                            (Emptied-same i i' _ same
                              (drain_loop-Emptied fuel i' o.1 o.2 r' (omega arith)))
                      | inr (c, bad) ↦ rw (done, bad) tt
                    ]
                  ])
          ])

-- A drain leaves the configuration of the framer as it is.
module _ {I W : Type 0} (iox : Iox I) (platform : Platform) where
  abbrev pub SameConfig : FramerConfig → Option (Dterr × I × Framer (Fan W) × Fan W) → Type 0
  SameConfig c none = Unit
  SameConfig c (some (e, i, framer, fan)) = framer.config ≡ c

  pub drain_loop-SameConfig :
      (fuel : ℕ) (i : I) (framer : Framer (Fan W)) (fan : Fan W)
      → SameConfig framer.config (drain_loop iox platform fuel i framer fan)
  unfolding drain_loop
  drain_loop-SameConfig zero i framer fan = tt
  drain_loop-SameConfig (suc fuel) i framer fan =
      let (e, bytes, i') = iox.iox_read i raw_input_length in
      elim (Option-cases e) [
        | inr (c, bad) ↦ rw (drain_loop, bad) refl
        | inl good ↦ elim (List-cases bytes) [
          | inl empty ↦ rw (drain_loop, good, empty) refl
          | inr (b, bs, some_bytes) ↦
              let kept = decode-Keeps platform framer (b ∷ bs) (length (b ∷ bs)) fan in
              rw (drain_loop, good, some_bytes)
                (elim (Option-cases (decode platform framer (b ∷ bs) (length (b ∷ bs)) fan)) [
                  | inl out ↦ rw out tt
                  | inr (o, done) ↦
                      let same : o.1.config ≡ framer.config =
                        subst (Keeps framer.config) done kept in
                      elim (Option-cases o.0) [
                        | inl fine ↦
                            rw (done, fine)
                              (subst (λ c. SameConfig c (drain_loop iox platform fuel i' o.1 o.2))
                                same (drain_loop-SameConfig fuel i' o.1 o.2))
                        | inr (c, bad) ↦ rw (done, bad) same
                      ]
                ])
        ]
      ]
