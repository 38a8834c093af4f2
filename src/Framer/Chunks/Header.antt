-- ===== src/Framer/Chunks/Header.antt =====
-- The round of phase `read_header` on an input that comes in two parts.
use dtmc_base.Common.{
  ℕ, ◌+◌, ◌<◌, ◌≤◌, ◌≡◌, List, [], ◌∷◌, ◌++◌, arith, length, take, take-append_add, take_all,
  copy_into-append,
}
use dtmc_base.Framer.{read_header, Framer, Platform}
use dtmc_base.Framer.Decode.{continue, chunk_size, fill_header, round_in}
use dtmc_base.Framer.Chunks.Split.{
  chunk_within, chunk_across, take_within, drop_across, drop_across_all, append_left,
}

module _ {W : Type 0} where
  fill_header_within :
      (self : Framer W) (xs ys : List ℕ)
      → self.header_bytes_filled ≤ 5
      → 5 ≤ self.header_bytes_filled + length xs
      → fill_header self (xs ++ ys) ≡ fill_header self xs
  unfolding fill_header
  fill_header_within self xs ys h e = ground (
    arith,
    chunk_within 5 self.header_bytes_filled xs ys h (omega arith) e,
    take_within 5 self.header_bytes_filled xs ys h (omega arith) e,
  )

  fill_header_across :
      (self : Framer W) (xs ys : List ℕ)
      → self.header_bytes_filled + length xs < 5
      → (fill_header self (xs ++ ys) ≡ fill_header (fill_header self xs) ys)
        × ((fill_header self xs).header_bytes_filled ≡ self.header_bytes_filled + length xs)
  unfolding fill_header
  fill_header_across self xs ys h = (
    ground (
      arith,
      chunk_across 5 self.header_bytes_filled xs ys,
      take-append_add (chunk_size 5 (self.header_bytes_filled + length xs) ys) xs ys,
      take_all (length xs) xs (omega arith),
      copy_into-append self.header_buffer self.header_bytes_filled xs
          (take (chunk_size 5 (self.header_bytes_filled + length xs) ys) ys),
    ),
    ground (arith, chunk_across 5 self.header_bytes_filled xs ys),
  )

  module _ (platform : Platform) where
    pub read_header_within :
        (self : Framer W) (b : ℕ) (bs ys : List ℕ) (w : W)
        → self.header_bytes_filled ≤ 5
        → 5 ≤ self.header_bytes_filled + length (b ∷ bs)
        → round_in platform read_header self b (bs ++ ys) w
          ≡ append_left (round_in platform read_header self b bs w) ys
    unfolding round_in
    read_header_within self b bs ys w h e = ground (
      arith,
      fill_header_within self (b ∷ bs) ys h e,
      take_within 5 self.header_bytes_filled (b ∷ bs) ys h (omega arith) e,
    )

    -- The first part is taken whole, and the round on both parts is one on the second.
    pub read_header_across :
        (self : Framer W) (b : ℕ) (bs : List ℕ) (c : ℕ) (cs : List ℕ) (w : W)
        → self.header_bytes_filled + length (b ∷ bs) < 5
        → (round_in platform read_header self b (bs ++ c ∷ cs) w
            ≡ round_in platform read_header (fill_header self (b ∷ bs)) c cs w)
          × (round_in platform read_header self b bs w ≡ continue (fill_header self (b ∷ bs)) [] w)
    unfolding round_in
    read_header_across self b bs c cs w e = (
      ground (
        arith,
        fill_header_across self (b ∷ bs) (c ∷ cs) e,
        drop_across 5 self.header_bytes_filled (b ∷ bs) (c ∷ cs) (omega arith) e,
      ),
      ground (
        arith,
        fill_header_across self (b ∷ bs) [] e,
        drop_across_all 5 self.header_bytes_filled (b ∷ bs) (omega arith) e,
      ),
    )
