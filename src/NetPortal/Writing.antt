-- ===== src/NetPortal/Writing.antt =====
-- The write loop of `dtnetportal_iox_publish`, on a device that sends a part at a time.
use dtmc_base.Common.{
  ℕ, zero, suc, ◌+◌, ◌-◌, ◌<◌, ◌≤◌, ◌^◌, ◌≡◌, ◌∙◌, sym, ap, refl, List, ◌++◌, append_assoc, Option,
  none, some, Dterr, arith, Bool-cases, inl, inr, length, take, drop, slt, sub32, length-drop,
  take_add,
}
use dtmc_base.NetPortal.{Iox, EchoLaws}
use dtmc_base.NetPortal.Stream.{write_loop}

module _ {I : Type 0} (iox : Iox I) (laws : EchoLaws iox) where
  -- The first `n` bytes at `p` are on the wire, all of them.
  abbrev pub Sends : I → List ℕ → ℕ → Option (Dterr × I) → Type 0
  Sends i p n out =
      (i' : I) × (out ≡ some (none, i'))
      × (laws.incoming i' ≡ laws.incoming i ++ take n p)
      × (laws.room i' + n ≡ laws.room i)
      × laws.Ready i'

  -- The loop of a publish ends, without an error, and sends every byte once and in order, however few
  -- bytes each write takes. As much fuel as there are bytes is enough.
  pub write_loop-Sends :
      (fuel : ℕ) (i : I) (p : List ℕ) (n : ℕ)
      → laws.Ready i
      → n ≤ length p
      → 0 < n
      → n ≤ laws.room i
      → n < 2 ^ 31
      → n ≤ fuel
      → Sends i p n (write_loop iox fuel i p n)
  unfolding write_loop
  write_loop-Sends zero i p n r l s m b f = absurd (omega arith)
  write_loop-Sends (suc fuel) i p n r l s m b f =
      let (e, below, some_bytes, sent, left, r') = laws.write-Ready i p n r l m b in
      let (_, k, i') = iox.iox_write i p n in
      let (same, room, nr) = laws.nap-Ready i' r' in
      let k_some : 0 < k = some_bytes s in
      let rest : sub32 n k ≡ n - k = omega arith in
      rw (write_loop, e, rest)
        (elim (Bool-cases (slt 0 (n - k))) [
          | inl more ↦
              let n_more : 0 < n - k = ground arith in
              let (j, out, all, room', jr) =
                write_loop-Sends fuel (iox.nap i') (drop k p) (n - k) nr
                  (omega (arith, length-drop k p)) n_more (omega arith) (omega arith)
                  (omega arith) in
              let parts : n ≡ k + (n - k) = omega arith in
              rw more (
                j,
                out,
                all
                    ∙ ap (λ l. l ++ take (n - k) (drop k p)) (same ∙ sent)
                    ∙ append_assoc (laws.incoming i) (take k p) (take (n - k) (drop k p))
                    ∙ ap (λ l. laws.incoming i ++ l)
                        (sym (take_add k (n - k) p) ∙ ap (λ x. take x p) (sym parts)),
                omega arith,
                jr,
              )
          | inr done ↦
              let whole : k ≡ n = ground arith in
              rw done
                (i', refl, sent ∙ ap (λ x. laws.incoming i ++ take x p) whole, omega arith, r')
        ])
