-- ===== src/Framer/Safety.antt =====
-- The arrays of the decoder of dtframer_simple.c and the writes to them.
use dtmc_base.Common.{
  [], ◌*◌, zero, suc, inl, inr, is_negative, Bool-cases, suc, ◌+◌, set, copy_into, ℕ, ◌<◌, ◌≤◌, ◌^◌,
  ◌≡◌, refl, List, ◌∷◌, Option, none, some, arith, length, length-copy_into, length-set, take,
}
use mathlib.Core.Option
use dtmc_base.Framer.{
  DecodePhase, wait_magic_first, wait_magic_second, read_header, read_topic, read_payload, Framer,
  Platform,
}
use dtmc_base.Framer.Progress.{InProgress, after_round, loop-cons, loop-Ends, Ends}
use dtmc_base.Framer.Decode.{
  decode, loop, Outcome, Round, continue, stop, chunk_size, stored, search_first, search_second,
  fill_header, fill_topic, fill_payload, check_header, finish_topic, deliver, round_in,
}

-- The lengths of the message at hand fit the storage, and so do the configured maxima.
pub record IsSafe {W : Type 0} (self : Framer W) : Type 0 where
  pub header_array : length self.header_buffer ≡ 5
  pub topic_max : self.config.maximum_topic_length < length (stored self.topic_storage)
  pub payload_max : self.config.maximum_payload_length ≤ length (stored self.payload_storage)
  pub topic_now : self.current_topic_length ≤ self.config.maximum_topic_length
  pub payload_now : self.current_payload_length ≤ self.config.maximum_payload_length
  pub topic_signed : self.config.maximum_topic_length < 2 ^ 31
  pub payload_signed : self.config.maximum_payload_length < 2 ^ 31

abbrev pub KeepsSafe : {W : Type 0} → Round W → Type 0
KeepsSafe (continue self left w) = IsSafe self
KeepsSafe (stop e self w) = IsSafe self

length-stored-map :
    (s : Option (List ℕ)) (offset : ℕ) (src : List ℕ)
    → length (stored (Option.map (λ a. copy_into a offset src) s)) ≡ length (stored s)
length-stored-map none offset src = refl
length-stored-map (some a) offset src = length-copy_into a offset src

length-stored-set :
    (s : Option (List ℕ)) (i : ℕ)
    → length (stored (Option.map (λ a. set a i 0) s)) ≡ length (stored s)
length-stored-set none i = refl
length-stored-set (some a) i = length-set a i 0

module _ {W : Type 0} where
  check_header-IsSafe : (self : Framer W) → IsSafe self → IsSafe (check_header self).1
  unfolding check_header
  check_header-IsSafe self v = ground arith

  fill_header-IsSafe :
      (self : Framer W) (input : List ℕ) → IsSafe self → IsSafe (fill_header self input)
  unfolding fill_header
  fill_header-IsSafe self input v = ground (
    arith,
    length-copy_into self.header_buffer self.header_bytes_filled
        (take (chunk_size 5 self.header_bytes_filled input) input),
  )

  fill_topic-IsSafe :
      (self : Framer W) (input : List ℕ) → IsSafe self → IsSafe (fill_topic self input)
  unfolding fill_topic
  fill_topic-IsSafe self input v = omega (
    arith,
    length-stored-map self.topic_storage self.topic_bytes_filled
        (take (chunk_size self.current_topic_length self.topic_bytes_filled input) input),
  )

  finish_topic-IsSafe : (self : Framer W) → IsSafe self → IsSafe (finish_topic self)
  unfolding finish_topic
  finish_topic-IsSafe self v =
      omega (arith, length-stored-set self.topic_storage self.current_topic_length)

  fill_payload-IsSafe :
      (self : Framer W) (input : List ℕ) → IsSafe self → IsSafe (fill_payload self input)
  unfolding fill_payload
  fill_payload-IsSafe self input v = omega (
    arith,
    length-stored-map self.payload_storage self.payload_bytes_filled
        (take (chunk_size self.current_payload_length self.payload_bytes_filled input) input),
  )

  module _ (platform : Platform) where
    deliver-IsSafe : (self : Framer W) (w : W) → IsSafe self → IsSafe (deliver platform self w).1
    unfolding deliver
    deliver-IsSafe self w v = ground arith

    round_in-KeepsSafe :
        (p : DecodePhase) (self : Framer W) (b : ℕ) (bs : List ℕ) (w : W)
        → IsSafe self
        → KeepsSafe (round_in platform p self b bs w)
    unfolding round_in
    round_in-KeepsSafe wait_magic_first self b bs w v = unfold search_first in ground arith
    round_in-KeepsSafe wait_magic_second self b bs w v = unfold search_second in ground arith
    round_in-KeepsSafe read_header self b bs w v =
        ground
          (arith, fill_header-IsSafe self (b ∷ bs), check_header-IsSafe (fill_header self (b ∷ bs)))
    round_in-KeepsSafe read_topic self b bs w v =
        ground
          (arith, fill_topic-IsSafe self (b ∷ bs), finish_topic-IsSafe (fill_topic self (b ∷ bs)))
    round_in-KeepsSafe read_payload self b bs w v =
        ground
          (arith, fill_payload-IsSafe self (b ∷ bs), deliver-IsSafe (fill_payload self (b ∷ bs)) w)

    -- What the loop leaves is safe.
    abbrev LeavesSafe : Option (Outcome W) → Type 0
    LeavesSafe none = Unit
    LeavesSafe (some out) = IsSafe out.1

    after_round-LeavesSafe :
        (fuel : ℕ) (r : Round W)
        → KeepsSafe r
        → ((s : Framer W) (l : List ℕ) (w : W) → IsSafe s → LeavesSafe (loop platform fuel s l w))
        → LeavesSafe (after_round platform fuel r)
    after_round-LeavesSafe fuel (continue s l w) v rec = rec s l w v
    after_round-LeavesSafe fuel (stop e s w) v rec = v

    loop-LeavesSafe :
        (fuel : ℕ) (self : Framer W) (input : List ℕ) (w : W)
        → IsSafe self
        → LeavesSafe (loop platform fuel self input w)
    unfolding loop
    loop-LeavesSafe zero self input w v = tt
    loop-LeavesSafe (suc fuel) self [] w v = v
    loop-LeavesSafe (suc fuel) self (b ∷ bs) w v = rw (loop-cons platform fuel self b bs w) (
        after_round-LeavesSafe fuel _ (round_in-KeepsSafe self.decode_phase self b bs w v)
          (loop-LeavesSafe fuel))

-- The next copy of a phase, and the terminator behind a topic, lie inside the arrays.
abbrev pub WritesInside : {W : Type 0} → DecodePhase → Framer W → List ℕ → Type 0
WritesInside read_header self input =
    self.header_bytes_filled + chunk_size 5 self.header_bytes_filled input
    ≤ length self.header_buffer
WritesInside read_topic self input =
    (self.topic_bytes_filled + chunk_size self.current_topic_length self.topic_bytes_filled input
      ≤ length (stored self.topic_storage))
    × (self.current_topic_length < length (stored self.topic_storage))
WritesInside read_payload self input =
    self.payload_bytes_filled
      + chunk_size self.current_payload_length self.payload_bytes_filled input
    ≤ length (stored self.payload_storage)
WritesInside _ self input = Unit

module _ {W : Type 0} (platform : Platform) where
  inside :
      (self : Framer W) (bytes : List ℕ) (phase : DecodePhase)
      → self.decode_phase ≡ phase
      → IsSafe self
      → InProgress self
      → WritesInside phase self bytes
  inside self bytes wait_magic_first e v p = tt
  inside self bytes wait_magic_second e v p = tt
  inside self bytes read_header e v p = ground arith
  inside self bytes read_topic e v p = ground arith
  inside self bytes read_payload e v p = ground arith

  abbrev Keeps : Option (Outcome W) → Type 0
  Keeps none = Unit
  Keeps (some out) = IsSafe out.1 × InProgress out.1

  both : (o : Option (Outcome W)) → LeavesSafe platform o → Ends o → Keeps o
  both none v p = tt
  both (some out) v p = (v, p)

  decode-Keeps :
      (self : Framer W) (input : List ℕ) (n : ℕ) (w : W)
      → IsSafe self
      → InProgress self
      → Keeps (decode platform self input n w)
  unfolding decode
  decode-Keeps self input n w v p = elim (Bool-cases (is_negative n)) [
    | inl negative ↦ rw negative (v, p)
    | inr positive ↦
        let bytes : List ℕ = take n input in
        rw positive (
          both (loop platform (2 * length bytes + 2) self bytes w)
            (loop-LeavesSafe platform (2 * length bytes + 2) self bytes w v)
            (loop-Ends platform (2 * length bytes + 2) self bytes w (ground arith) p))
  ]

  -- A decoder with its storage allocated writes inside it, whatever the input is: the next copy lies
  -- inside its array, for any bytes, and after a call of `decode`, with an error or without, the
  -- decoder is again one of which this holds.
  pub decode-WritesInside :
      (self : Framer W) (input later : List ℕ) (n : ℕ) (w : W) {out : Outcome W}
      → IsSafe self
      → InProgress self
      → decode platform self input n w ≡ some out
      → WritesInside self.decode_phase self later
        × WritesInside out.1.decode_phase out.1 later
        × IsSafe out.1
        × InProgress out.1
  decode-WritesInside self input later n w {out} v p e =
      let (s, q) : IsSafe out.1 × InProgress out.1 = rw e at (decode-Keeps self input n w v p) in
      (inside self later _ refl v p, inside out.1 later _ refl s q, s, q)
