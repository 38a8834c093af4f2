-- ===== src/Framer/Settings.antt =====
-- The decoder of dtframer_simple.c works under its configuration, and leaves it as it is.
use dtmc_base.Common.{
  ℕ, zero, suc, ◌≡◌, refl, List, [], ◌∷◌, Option, none, some, arith, subst, Bool-cases, inl, inr,
  is_negative, take, length, ◌+◌, ◌*◌,
}
use dtmc_base.Framer.{
  Framer, FramerConfig, Platform, DecodePhase, wait_magic_first, wait_magic_second, read_header,
  read_topic, read_payload,
}
use dtmc_base.Framer.Decode.{
  Outcome, Round, continue, stop, round_in, search_first, search_second, fill_header, fill_topic,
  fill_payload, check_header, finish_topic, deliver, loop, decode,
}

module _ {W : Type 0} where
  abbrev RoundKeeps : FramerConfig → Round W → Type 0
  RoundKeeps c (continue self left w) = self.config ≡ c
  RoundKeeps c (stop e self w) = self.config ≡ c

  abbrev pub Keeps : FramerConfig → Option (Outcome W) → Type 0
  Keeps c none = Unit
  Keeps c (some (e, self, w)) = self.config ≡ c

module _ {W : Type 0} (platform : Platform) where
  deliver-config : (self : Framer W) (w : W) → (deliver platform self w).1.config ≡ self.config
  unfolding deliver
  deliver-config self w = ground arith

  check_header-config : (self : Framer W) → (check_header self).1.config ≡ self.config
  unfolding check_header
  check_header-config self = ground arith

  round_in-Keeps :
      (p : DecodePhase) (self : Framer W) (b : ℕ) (bs : List ℕ) (w : W)
      → RoundKeeps self.config (round_in platform p self b bs w)
  unfolding round_in search_first search_second fill_header fill_topic fill_payload finish_topic
  round_in-Keeps wait_magic_first self b bs w = ground arith
  round_in-Keeps wait_magic_second self b bs w = ground arith
  round_in-Keeps read_header self b bs w =
      ground (arith, check_header-config (fill_header self (b ∷ bs)))
  round_in-Keeps read_topic self b bs w = ground arith
  round_in-Keeps read_payload self b bs w =
      ground (arith, deliver-config (fill_payload self (b ∷ bs)) w)

  round-Keeps :
      (c : FramerConfig) (k : Framer W → List ℕ → W → Option (Outcome W)) (r : Round W)
      → RoundKeeps c r
      → ((s : Framer W) (left : List ℕ) (w : W) → Keeps s.config (k s left w))
      → Keeps c (elim r [ continue s left w ↦ k s left w | stop e s w ↦ some (some e, s, w) ])
  round-Keeps c k (continue s left w) h rec = subst (λ d. Keeps d (k s left w)) h (rec s left w)
  round-Keeps c k (stop e s w) h rec = h

  loop-Keeps :
      (fuel : ℕ) (self : Framer W) (input : List ℕ) (w : W)
      → Keeps self.config (loop platform fuel self input w)
  unfolding loop
  loop-Keeps zero self input w = tt
  loop-Keeps (suc fuel) self [] w = refl
  loop-Keeps (suc fuel) self (b ∷ bs) w =
      round-Keeps self.config (loop platform fuel) (round_in platform self.decode_phase self b bs w)
        (round_in-Keeps self.decode_phase self b bs w) (loop-Keeps fuel)

  -- Whatever is decoded, with whatever result, the configuration stays.
  pub decode-Keeps :
      (self : Framer W) (buffer : List ℕ) (n : ℕ) (w : W)
      → Keeps self.config (decode platform self buffer n w)
  unfolding decode
  decode-Keeps self buffer n w = elim (Bool-cases (is_negative n)) [
    | inl big ↦ rw (decode, big) refl
    | inr small ↦
        rw (decode, small) (loop-Keeps (2 * length (take n buffer) + 2) self (take n buffer) w)
  ]
