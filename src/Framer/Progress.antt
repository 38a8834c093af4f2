-- ===== src/Framer/Progress.antt =====
-- The counters of the decoder of dtframer_simple.c and the rounds of its loop.
use dtmc_base.Common.{
  ℕ, zero, suc, ◌+◌, ◌*◌, ◌<◌, ◌≤◌, ◌^◌, ◌≡◌, ◌≢◌, refl, List, [], ◌∷◌, Option, none, some,
  ErrorCode, arith, length, length-drop,
}
use dtmc_base.Framer.{
  DecodePhase, wait_magic_first, wait_magic_second, read_header, read_topic, read_payload, Framer,
  Platform, reset_decode_state,
}
use dtmc_base.Framer.Decode.{
  Round, continue, stop, Outcome, chunk_size, search_first, search_second, fill_header, fill_topic,
  fill_payload, check_header, finish_topic, deliver, round_in, loop,
}

-- In each phase that reads, something is left to read, except that a payload may be empty.
pub record InProgress {W : Type 0} (self : Framer W) : Type 0 where
  pub header_room : self.decode_phase ≡ read_header → self.header_bytes_filled < 5
  pub topic_room :
      self.decode_phase ≡ read_topic → self.topic_bytes_filled < self.current_topic_length
  pub payload_unread : self.decode_phase ≡ read_topic → self.payload_bytes_filled ≡ 0
  pub payload_room :
      self.decode_phase ≡ read_payload → self.payload_bytes_filled ≤ self.current_payload_length
  pub topic_u16 : self.current_topic_length < 2 ^ 16
  pub payload_u16 : self.current_payload_length < 2 ^ 16

abbrev phase_weight : DecodePhase → ℕ
phase_weight read_payload = 1
phase_weight _ = 0

-- What falls in each round.
abbrev pub weight : {W : Type 0} → Framer W → List ℕ → ℕ
weight self input = 2 * length input + phase_weight self.decode_phase

abbrev pub Advances : {W : Type 0} → ℕ → Round W → Type 0
Advances n (continue self left w) = InProgress self × (weight self left < n)
Advances n (stop e self w) = InProgress self

-- The loop came to its end, with the counters in range.
abbrev pub Ends : {W : Type 0} → Option (Outcome W) → Type 0
Ends none = ⊥
Ends (some out) = InProgress out.1

module _ {W : Type 0} where
  reset-InProgress : (self : Framer W) → InProgress (reset_decode_state self)
  reset-InProgress self = ground arith

  check_header-InProgress : (self : Framer W) → InProgress (check_header self).1
  unfolding check_header
  check_header-InProgress self = ground arith

  check_header-ok : (self : Framer W) → (check_header self).1.decode_phase ≢ read_header
  unfolding check_header
  check_header-ok self = ground arith

  module _ (platform : Platform) where
    deliver-InProgress :
        (self : Framer W) (w : W) → InProgress self → InProgress (deliver platform self w).1
    unfolding deliver
    deliver-InProgress self w v = ground arith

    deliver_ok :
        (self : Framer W) (w : W)
        → (deliver platform self w).0 ≡ none
        → (deliver platform self w).1.decode_phase ≡ wait_magic_first
    unfolding deliver
    deliver_ok self w = ground arith

    pub round_in-Advances :
        (p : DecodePhase) (self : Framer W) (b : ℕ) (bs : List ℕ) (w : W)
        → self.decode_phase ≡ p
        → InProgress self
        → Advances (weight self (b ∷ bs)) (round_in platform p self b bs w)
    unfolding round_in search_first search_second fill_header fill_topic fill_payload finish_topic
    round_in-Advances wait_magic_first self b bs w e v = ground arith
    round_in-Advances wait_magic_second self b bs w e v = ground arith
    round_in-Advances read_header self b bs w e v = ground (
      arith,
      length-drop (chunk_size 5 self.header_bytes_filled (b ∷ bs)) (b ∷ bs),
      check_header-InProgress (fill_header self (b ∷ bs)),
    )
    round_in-Advances read_topic self b bs w e v = ground (
      arith,
      length-drop (chunk_size self.current_topic_length self.topic_bytes_filled (b ∷ bs)) (b ∷ bs),
    )
    round_in-Advances read_payload self b bs w e v = ground (
      arith,
      length-drop (chunk_size self.current_payload_length self.payload_bytes_filled (b ∷ bs))
          (b ∷ bs),
      deliver-InProgress (fill_payload self (b ∷ bs)) w,
      deliver_ok (fill_payload self (b ∷ bs)) w,
    )

    -- What the loop does with the result of a round.
    abbrev pub after_round : ℕ → Round W → Option (Outcome W)
    after_round fuel (continue self left w) = loop platform fuel self left w
    after_round fuel (stop e self w) = some (some e, self, w)

    pub loop-cons :
        (fuel : ℕ) (self : Framer W) (b : ℕ) (bs : List ℕ) (w : W)
        → loop platform (suc fuel) self (b ∷ bs) w
          ≡ after_round fuel (round_in platform self.decode_phase self b bs w)
    unfolding loop
    loop-cons fuel self b bs w = ground arith

    after_round-Ends :
        (fuel n : ℕ) (r : Round W)
        → Advances n r
        → n ≤ fuel
        → ((s : Framer W) (l : List ℕ) (w : W)
            → weight s l < fuel
            → InProgress s
            → Ends (loop platform fuel s l w))
        → Ends (after_round fuel r)
    after_round-Ends fuel n (continue s l w) (v, less) le rec = rec s l w (omega arith) v
    after_round-Ends fuel n (stop e s w) v le rec = v

    -- The loop ends for every fuel above the weight, and keeps the counters in range.
    pub loop-Ends :
        (fuel : ℕ) (self : Framer W) (input : List ℕ) (w : W)
        → weight self input < fuel
        → InProgress self
        → Ends (loop platform fuel self input w)
    unfolding loop
    loop-Ends zero self input w h v = absurd (omega arith)
    loop-Ends (suc fuel) self [] w h v = v
    loop-Ends (suc fuel) self (b ∷ bs) w h v = rw (loop-cons fuel self b bs w) (
        after_round-Ends fuel (weight self (b ∷ bs)) _
          (round_in-Advances self.decode_phase self b bs w refl v) (omega arith) (loop-Ends fuel))

    after_round-fuel :
        (fuel more n : ℕ) (r : Round W)
        → Advances n r
        → n ≤ fuel
        → n ≤ more
        → ((s : Framer W) (l : List ℕ) (w : W)
            → weight s l < fuel
            → weight s l < more
            → InProgress s
            → loop platform fuel s l w ≡ loop platform more s l w)
        → after_round fuel r ≡ after_round more r
    after_round-fuel fuel more n (continue s l w) (v, less) h k rec =
        rec s l w (omega arith) (omega arith) v
    after_round-fuel fuel more n (stop e s w) v h k rec = refl

    -- More fuel changes nothing.
    pub loop-fuel :
        (fuel more : ℕ) (self : Framer W) (input : List ℕ) (w : W)
        → weight self input < fuel
        → weight self input < more
        → InProgress self
        → loop platform fuel self input w ≡ loop platform more self input w
    unfolding loop
    loop-fuel zero more self input w h k v = absurd (omega arith)
    loop-fuel (suc fuel) zero self input w h k v = absurd (omega arith)
    loop-fuel (suc fuel) (suc more) self [] w h k v = refl
    loop-fuel (suc fuel) (suc more) self (b ∷ bs) w h k v =
        rw (loop-cons fuel self b bs w, loop-cons more self b bs w)
          (after_round-fuel fuel more (weight self (b ∷ bs)) _
            (round_in-Advances self.decode_phase self b bs w refl v) (omega arith) (omega arith)
            (loop-fuel fuel more))

module _ {W : Type 0} (platform : Platform) where
  -- The loop with the fuel that `decode` gives it, one round at a time.
  abbrev pub run : Framer W → List ℕ → W → Option (Outcome W)
  run self input w = loop platform (2 * length input + 2) self input w

  pub run-continue :
      (self : Framer W) (b : ℕ) (bs : List ℕ) (w : W) {s : Framer W} {left : List ℕ} {w' : W}
      → InProgress self
      → round_in platform self.decode_phase self b bs w ≡ continue s left w'
      → InProgress s × (run self (b ∷ bs) w ≡ run s left w')
  run-continue self b bs w {s} {left} {w'} v e =
      let ok : InProgress s × (weight s left < weight self (b ∷ bs)) =
        rw e at (round_in-Advances platform self.decode_phase self b bs w refl v) in
      let n : 2 * length (b ∷ bs) + 2 ≡ suc (2 * length (b ∷ bs) + 1) = omega arith in
      (
        ok.0,
        rw (n, loop-cons platform (2 * length (b ∷ bs) + 1) self b bs w, e)
            (loop-fuel platform _ (2 * length left + 2) s left w' (ground arith) (ground arith)
              ok.0),
      )

  pub run-stop :
      (self : Framer W) (b : ℕ) (bs : List ℕ) (w : W) {c : ErrorCode} {s : Framer W} {w' : W}
      → round_in platform self.decode_phase self b bs w ≡ stop c s w'
      → run self (b ∷ bs) w ≡ some (some c, s, w')
  run-stop self b bs w e =
      let n : 2 * length (b ∷ bs) + 2 ≡ suc (2 * length (b ∷ bs) + 1) = omega arith in
      rw (n, loop-cons platform (2 * length (b ∷ bs) + 1) self b bs w, e)

  pub run-nil : (self : Framer W) (w : W) → run self [] w ≡ some (none, self, w)
  unfolding loop
  run-nil self w = refl
