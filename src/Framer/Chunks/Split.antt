-- ===== src/Framer/Chunks/Split.antt =====
-- How a chunk that is copied in one round meets the cut between two calls.
use dtmc_base.Common.{
  ℕ, ◌+◌, ◌<◌, ◌≤◌, ◌^◌, ◌≡◌, List, [], ◌++◌, arith, length, drop, take, length-append,
  take-append_le, drop-append_le, drop-append_add, drop_all, add32,
}
use dtmc_base.Framer.Decode.{Round, continue, stop, chunk_size}

-- A chunk that ends inside the first part of the input.
pub chunk_within :
    (total filled : ℕ) (xs ys : List ℕ)
    → filled ≤ total
    → total < 2 ^ 16
    → total ≤ filled + length xs
    → (chunk_size total filled (xs ++ ys) ≡ chunk_size total filled xs)
      × (chunk_size total filled xs ≤ length xs)
chunk_within total filled xs ys h k e = ground (arith, length-append xs ys)

-- A chunk that takes the whole first part, and goes on.
pub chunk_across :
    (total filled : ℕ) (xs ys : List ℕ)
    → total < 2 ^ 16
    → filled + length xs < total
    → (chunk_size total filled (xs ++ ys) ≡ length xs + chunk_size total (filled + length xs) ys)
      × (chunk_size total filled xs ≡ length xs)
      × (add32 filled (length xs) ≡ filled + length xs)
chunk_across total filled xs ys k e = ground (arith, length-append xs ys)

pub take_within :
    (total filled : ℕ) (xs ys : List ℕ)
    → filled ≤ total
    → total < 2 ^ 16
    → total ≤ filled + length xs
    → (take (chunk_size total filled (xs ++ ys)) (xs ++ ys) ≡ take (chunk_size total filled xs) xs)
      × (drop (chunk_size total filled (xs ++ ys)) (xs ++ ys)
          ≡ drop (chunk_size total filled xs) xs ++ ys)
take_within total filled xs ys h k e =
    let (c, le) = chunk_within total filled xs ys h k e in
    (rw c (take-append_le _ xs ys le), rw c (drop-append_le _ xs ys le))

-- The rest of the stream behind what a round leaves.
abbrev pub append_left : {W : Type 0} → Round W → List ℕ → Round W
append_left (continue s l w) ys = continue s (l ++ ys) w
append_left (stop e s w) ys = stop e s w

-- What is left, and how much was taken, where the first part is taken whole.
pub drop_across :
    (total filled : ℕ) (xs ys : List ℕ)
    → total < 2 ^ 16
    → filled + length xs < total
    → drop (chunk_size total filled (xs ++ ys)) (xs ++ ys)
      ≡ drop (chunk_size total (filled + length xs) ys) ys
drop_across total filled xs ys k e =
    rw ((chunk_across total filled xs ys k e).0) (drop-append_add _ xs ys)

pub drop_across_all :
    (total filled : ℕ) (xs : List ℕ)
    → total < 2 ^ 16
    → filled + length xs < total
    → drop (chunk_size total filled xs) xs ≡ []
drop_across_all total filled xs k e =
    rw ((chunk_across total filled xs [] k e).1) (drop_all (length xs) xs (omega arith))
