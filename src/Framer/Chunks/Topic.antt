-- ===== src/Framer/Chunks/Topic.antt =====
-- The round of phase `read_topic` on an input that comes in two parts.
use dtmc_base.Common.{
  ℕ, ◌+◌, ◌<◌, ◌≤◌, ◌^◌, ◌≡◌, refl, List, [], ◌∷◌, ◌++◌, arith, length, take, take-append_add,
  take_all, copy_into-append,
}
use dtmc_base.Framer.{read_topic, Framer, Platform}
use dtmc_base.Framer.Decode.{continue, chunk_size, stored, fill_topic, round_in}
use dtmc_base.Framer.Chunks.Split.{
  chunk_within, chunk_across, take_within, drop_across, drop_across_all, append_left,
}

module _ {W : Type 0} where
  fill_topic_within :
      (self : Framer W) (xs ys : List ℕ)
      → self.topic_bytes_filled ≤ self.current_topic_length
      → self.current_topic_length < 2 ^ 16
      → self.current_topic_length ≤ self.topic_bytes_filled + length xs
      → fill_topic self (xs ++ ys) ≡ fill_topic self xs
  unfolding fill_topic
  fill_topic_within self xs ys h k e = ground (
    arith,
    chunk_within self.current_topic_length self.topic_bytes_filled xs ys h k e,
    take_within self.current_topic_length self.topic_bytes_filled xs ys h k e,
  )

  fill_topic_across :
      (self : Framer W) (xs ys : List ℕ)
      → self.current_topic_length < 2 ^ 16
      → self.topic_bytes_filled + length xs < self.current_topic_length
      → (fill_topic self (xs ++ ys) ≡ fill_topic (fill_topic self xs) ys)
        × ((fill_topic self xs).topic_bytes_filled ≡ self.topic_bytes_filled + length xs)
        × ((fill_topic self xs).current_topic_length ≡ self.current_topic_length)
  unfolding fill_topic
  fill_topic_across self xs ys k h = (
    ground (
      arith,
      chunk_across self.current_topic_length self.topic_bytes_filled xs ys,
      take-append_add
          (chunk_size self.current_topic_length (self.topic_bytes_filled + length xs) ys) xs ys,
      take_all (length xs) xs (omega arith),
      copy_into-append (stored self.topic_storage) self.topic_bytes_filled xs
          (take (chunk_size self.current_topic_length (self.topic_bytes_filled + length xs) ys) ys),
    ),
    ground (arith, chunk_across self.current_topic_length self.topic_bytes_filled xs ys),
    refl,
  )

  module _ (platform : Platform) where
    pub read_topic_within :
        (self : Framer W) (b : ℕ) (bs ys : List ℕ) (w : W)
        → self.topic_bytes_filled ≤ self.current_topic_length
        → self.current_topic_length < 2 ^ 16
        → self.current_topic_length ≤ self.topic_bytes_filled + length (b ∷ bs)
        → round_in platform read_topic self b (bs ++ ys) w
          ≡ append_left (round_in platform read_topic self b bs w) ys
    unfolding round_in
    read_topic_within self b bs ys w h k e = ground (
      arith,
      fill_topic_within self (b ∷ bs) ys h k e,
      take_within self.current_topic_length self.topic_bytes_filled (b ∷ bs) ys h k e,
    )

    -- The first part is taken whole, and the round on both parts is one on the second.
    pub read_topic_across :
        (self : Framer W) (b : ℕ) (bs : List ℕ) (c : ℕ) (cs : List ℕ) (w : W)
        → self.current_topic_length < 2 ^ 16
        → self.topic_bytes_filled + length (b ∷ bs) < self.current_topic_length
        → (round_in platform read_topic self b (bs ++ c ∷ cs) w
            ≡ round_in platform read_topic (fill_topic self (b ∷ bs)) c cs w)
          × (round_in platform read_topic self b bs w ≡ continue (fill_topic self (b ∷ bs)) [] w)
    unfolding round_in
    read_topic_across self b bs c cs w k e = (
      ground (
        arith,
        fill_topic_across self (b ∷ bs) (c ∷ cs) k e,
        drop_across self.current_topic_length self.topic_bytes_filled (b ∷ bs) (c ∷ cs) k e,
      ),
      ground (
        arith,
        fill_topic_across self (b ∷ bs) [] k e,
        drop_across_all self.current_topic_length self.topic_bytes_filled (b ∷ bs) k e,
      ),
    )
