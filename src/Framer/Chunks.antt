-- ===== src/Framer/Chunks.antt =====
-- The decoder of dtframer_simple.c on a stream that is cut into two calls.
mod Split
mod Header
mod Topic
mod Payload
use dtmc_base.Common.{
  ℕ, zero, suc, ◌+◌, ◌*◌, ◌<◌, ◌≤◌, ◌^◌, ◌≡◌, ◌∙◌, sym, ap, refl, List, [], ◌∷◌, ◌++◌, Option, none,
  some, arith, length, append-nil, length-append, ◌⊎◌, inl, inr, is_negative, take, take_all,
  if◌then◌else◌, ltb, leb, Bool-cases, length-take,
}
use dtmc_base.Framer.{
  DecodePhase, wait_magic_first, wait_magic_second, read_header, read_topic, read_payload, Framer,
  Platform,
}
use dtmc_base.Framer.Decode.{
  Round, continue, stop, Outcome, fill_header, fill_topic, fill_payload, round_in, loop, decode,
}
use dtmc_base.Framer.Progress.{
  InProgress, weight, Advances, round_in-Advances, after_round, loop-cons, loop-fuel, Ends,
  loop-Ends,
}
use Split.{append_left}
use Header.{read_header_within, read_header_across}
use Topic.{read_topic_within, read_topic_across}
use Payload.{read_payload_within, read_payload_across}

-- A second call, made only if the first one returned no error.
abbrev pub and_then :
    {W : Type 0} → Option (Outcome W) → (Framer W → W → Option (Outcome W)) → Option (Outcome W)
and_then none k = none
and_then (some (some e, self, w)) k = some (some e, self, w)
and_then (some (none, self, w)) k = k self w

module _ {W : Type 0} (platform : Platform) where
  -- The round on the first part alone decides: it ends inside it, or takes all of it.
  abbrev EndsInside : DecodePhase → Framer W → ℕ → List ℕ → List ℕ → W → Type 0
  EndsInside p self b bs ys w =
      round_in platform p self b (bs ++ ys) w ≡ append_left (round_in platform p self b bs w) ys

  abbrev TakesAll : DecodePhase → Framer W → ℕ → List ℕ → W → Type 0
  TakesAll p self b bs w =
      (filled : Framer W) × (filled.decode_phase ≡ p)
      × (round_in platform p self b bs w ≡ continue filled [] w)
      × ((c : ℕ) (cs : List ℕ)
          → round_in platform p self b (bs ++ c ∷ cs) w ≡ round_in platform p filled c cs w)

  round_split :
      (p : DecodePhase) (self : Framer W) (b : ℕ) (bs ys : List ℕ) (w : W)
      → self.decode_phase ≡ p
      → InProgress self
      → EndsInside p self b bs ys w ⊎ TakesAll p self b bs w
  round_split wait_magic_first self b bs ys w e v = inl (unfold round_in in refl)
  round_split wait_magic_second self b bs ys w e v = inl (unfold round_in in refl)
  round_split read_header self b bs ys w e v =
      elim (Bool-cases (ltb (self.header_bytes_filled + length (b ∷ bs)) 5)) [
        | inl lt ↦ inr (
          fill_header self (b ∷ bs),
          unfold fill_header in e,
          (read_header_across platform self b bs 0 [] w (ground arith)).1,
          λ c cs. (read_header_across platform self b bs c cs w (ground arith)).0,
        )
        | inr ge ↦ inl (read_header_within platform self b bs ys w (ground arith) (ground arith))
      ]
  round_split read_topic self b bs ys w e v =
      elim (Bool-cases
        (ltb (self.topic_bytes_filled + length (b ∷ bs)) self.current_topic_length)) [
          | inl lt ↦ inr (
            fill_topic self (b ∷ bs),
            unfold fill_topic in e,
            (read_topic_across platform self b bs 0 [] w v.topic_u16 (ground arith)).1,
            λ c cs. (read_topic_across platform self b bs c cs w v.topic_u16 (ground arith)).0,
          )
          | inr ge ↦
              inl (
                read_topic_within platform self b bs ys w (ground arith) v.topic_u16 (ground arith))
        ]
  round_split read_payload self b bs ys w e v =
      elim (Bool-cases
        (ltb (self.payload_bytes_filled + length (b ∷ bs)) self.current_payload_length)) [
          | inl lt ↦ inr (
            fill_payload self (b ∷ bs),
            unfold fill_payload in e,
            (read_payload_across platform self b bs 0 [] w v.payload_u16 (ground arith)).1,
            λ c cs. (read_payload_across platform self b bs c cs w v.payload_u16 (ground arith)).0,
          )
          | inr ge ↦ inl (
              read_payload_within platform self b bs ys w (ground arith) v.payload_u16
                (ground arith))
        ]

  -- The second call on `ys`, with fuel that is enough at any state.
  abbrev second : ℕ → List ℕ → Framer W → W → Option (Outcome W)
  second more ys self w = loop platform more self ys w

  after_round-append :
      (fuel more n : ℕ) (ys : List ℕ) (r : Round W)
      → Advances n (append_left r ys)
      → n ≤ fuel
      → ((s : Framer W) (l : List ℕ) (w : W)
          → weight s (l ++ ys) < fuel
          → InProgress s
          → loop platform fuel s (l ++ ys) w ≡ and_then (loop platform fuel s l w) (second more ys))
      → after_round platform fuel (append_left r ys)
        ≡ and_then (after_round platform fuel r) (second more ys)
  after_round-append fuel more n ys (continue s l w) (v, less) h rec = rec s l w (omega arith) v
  after_round-append fuel more n ys (stop e s w) v h rec = refl

  takes_all-first :
      (fuel : ℕ) (self filled : Framer W) (b : ℕ) (bs : List ℕ) (w : W)
      → round_in platform self.decode_phase self b bs w ≡ continue filled [] w
      → loop platform (suc (suc fuel)) self (b ∷ bs) w ≡ some (none, filled, w)
  unfolding loop
  takes_all-first fuel self filled b bs w all = rw (loop-cons platform (suc fuel) self b bs w, all)

  -- The round on both parts is the first round of the second call.
  takes_all-both :
      (fuel : ℕ) (self filled : Framer W) (b : ℕ) (bs : List ℕ) (c : ℕ) (cs : List ℕ) (w : W)
      → filled.decode_phase ≡ self.decode_phase
      → round_in platform self.decode_phase self b (bs ++ c ∷ cs) w
        ≡ round_in platform self.decode_phase filled c cs w
      → loop platform (suc fuel) self (b ∷ (bs ++ c ∷ cs)) w
        ≡ loop platform (suc fuel) filled (c ∷ cs) w
  takes_all-both fuel self filled b bs c cs w same on =
      loop-cons platform fuel self b (bs ++ c ∷ cs) w
      ∙ ap (after_round platform fuel) on
      ∙ ap (λ p. after_round platform fuel (round_in platform p filled c cs w)) (sym same)
      ∙ sym (loop-cons platform fuel filled c cs w)

  TakesAll-append :
      (fuel more : ℕ) (self : Framer W) (b : ℕ) (bs ys : List ℕ) (w : W)
      → weight self (b ∷ (bs ++ ys)) < suc fuel
      → 2 * length ys + 1 < more
      → InProgress self
      → TakesAll self.decode_phase self b bs w
      → loop platform (suc fuel) self (b ∷ (bs ++ ys)) w
        ≡ and_then (loop platform (suc fuel) self (b ∷ bs) w) (second more ys)
  unfolding loop
  TakesAll-append zero more self b bs ys w h k v all = absurd (omega arith)
  TakesAll-append (suc fuel) zero self b bs ys w h k v all = absurd (omega arith)
  TakesAll-append (suc fuel) (suc more) self b bs [] w h k v (filled, same, all, on) =
      rw (append-nil, takes_all-first fuel self filled b bs w all)
  TakesAll-append (suc fuel) (suc more) self b bs (c ∷ cs) w h k v (filled, same, all, on) =
      let ok : InProgress filled × (weight filled [] < weight self (b ∷ bs)) =
        rw all at (round_in-Advances platform self.decode_phase self b bs w refl v) in
      rw (takes_all-first fuel self filled b bs w all) (
        takes_all-both (suc fuel) self filled b bs c cs w same (on c cs)
        ∙ loop-fuel platform (suc (suc fuel)) (suc more) filled (c ∷ cs) w
            (ground (arith, length-append bs (c ∷ cs))) (ground arith) ok.0)

  loop-append :
      (fuel more : ℕ) (self : Framer W) (xs ys : List ℕ) (w : W)
      → weight self (xs ++ ys) < fuel
      → 2 * length ys + 1 < more
      → InProgress self
      → loop platform fuel self (xs ++ ys) w
        ≡ and_then (loop platform fuel self xs w) (second more ys)
  unfolding loop
  loop-append zero more self xs ys w h k v = absurd (omega arith)
  loop-append (suc fuel) more self [] ys w h k v =
      loop-fuel platform (suc fuel) more self ys w h (ground arith) v
  loop-append (suc fuel) more self (b ∷ bs) ys w h k v =
      elim (round_split self.decode_phase self b bs ys w refl v) [
        | inl inside ↦
            rw
              (
                loop-cons platform fuel self b (bs ++ ys) w,
                loop-cons platform fuel self b bs w,
                inside,
              )
              (after_round-append fuel more (weight self (b ∷ (bs ++ ys))) ys _
                (rw inside at
                  (round_in-Advances platform self.decode_phase self b (bs ++ ys) w refl v))
                (omega arith) (λ s l w' less. loop-append fuel more s l ys w' less k))
        | inr all ↦ TakesAll-append fuel more self b bs ys w h k v all
      ]

  -- `decode` of a whole buffer.
  pub decode-loop :
      (self : Framer W) (xs : List ℕ) (w : W)
      → length xs < 2 ^ 31
      → decode platform self xs (length xs) w ≡ loop platform (2 * length xs + 2) self xs w
  unfolding decode
  decode-loop self xs w h = ground (arith, take_all (length xs) xs (omega arith))

  pub decode-Ends :
      (self : Framer W) (xs : List ℕ) (w : W)
      → length xs < 2 ^ 31
      → InProgress self
      → Ends (decode platform self xs (length xs) w)
  decode-Ends self xs w h v =
      rw (decode-loop self xs w h) (loop-Ends platform _ self xs w (ground arith) v)

  second-eq :
      (o : Option (Outcome W)) (ys : List ℕ)
      → length ys < 2 ^ 31
      → and_then o (second (2 * length ys + 2) ys)
        ≡ and_then o (λ s w. decode platform s ys (length ys) w)
  second-eq none ys h = refl
  second-eq (some (none, s, w)) ys h = sym (decode-loop s ys w h)
  second-eq (some (some e, s, w)) ys h = refl

  -- Decoding two pieces in two calls gives the messages, the error, the state of the decoder and
  -- the state of the callbacks of one call with both, if the first call returns no error, and what
  -- the first call gives if it does.
  pub decode-append :
      (self : Framer W) (xs ys : List ℕ) (w : W)
      → InProgress self
      → length (xs ++ ys) < 2 ^ 31
      → decode platform self (xs ++ ys) (length (xs ++ ys)) w
        ≡ and_then
            (decode platform self xs (length xs) w)
            (λ s w'. decode platform s ys (length ys) w')
  decode-append self xs ys w v h =
      let n : length (xs ++ ys) ≡ length xs + length ys = length-append xs ys in
      decode-loop self (xs ++ ys) w h
      ∙ loop-append (2 * length (xs ++ ys) + 2) (2 * length ys + 2) self xs ys w (ground arith)
          (omega arith) v
      ∙ ap (λ o. and_then o (second (2 * length ys + 2) ys))
          (loop-fuel platform (2 * length (xs ++ ys) + 2) (2 * length xs + 2) self xs w
              (ground arith) (ground arith) v
            ∙ sym (decode-loop self xs w (omega arith)))
      ∙ second-eq _ ys (omega arith)
