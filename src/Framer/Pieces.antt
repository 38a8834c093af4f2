-- ===== src/Framer/Pieces.antt =====
-- Decoding a stream in any number of pieces, by several calls of the decoder of dtframer_simple.c.
use dtmc_base.Common.{
  ap, append_assoc, ℕ, ◌+◌, ◌<◌, ◌^◌, ◌≡◌, ◌∙◌, sym, refl, List, [], ◌∷◌, ◌++◌, Option, none, some,
  arith, length, length-append,
}
use dtmc_base.Framer.{Framer, Platform}
use dtmc_base.Framer.Decode.{Outcome, loop, decode}
use dtmc_base.Framer.Progress.{InProgress, Ends}
use dtmc_base.Framer.Chunks.{and_then, decode-Ends, decode-append}

-- A client that decodes what arrives, piece by piece, up to the first error.
abbrev pub decode_pieces :
    {W : Type 0} → Platform → Framer W → List (List ℕ) → W → Option (Outcome W)
decode_pieces platform self [] w = some (none, self, w)
decode_pieces platform self (piece ∷ pieces) w =
    and_then (decode platform self piece (length piece) w)
      (λ s w'. decode_pieces platform s pieces w')

abbrev pub joined : List (List ℕ) → List ℕ
joined [] = []
joined (piece ∷ pieces) = piece ++ joined pieces

module _ {W : Type 0} (platform : Platform) where
  and_then-decode :
      (o : Option (Outcome W)) (k l : Framer W → W → Option (Outcome W))
      → Ends o
      → ((s : Framer W) (w : W) → InProgress s → k s w ≡ l s w)
      → and_then o k ≡ and_then o l
  and_then-decode none k l v e = refl
  and_then-decode (some (none, s, w)) k l v e = e s w v
  and_then-decode (some (some c, s, w)) k l v e = refl

  pieces_eq :
      (pieces : List (List ℕ)) (self : Framer W) (w : W)
      → InProgress self
      → length (joined pieces) < 2 ^ 31
      → decode_pieces platform self pieces w
        ≡ decode platform self (joined pieces) (length (joined pieces)) w
  pieces_eq [] self w v h = unfold decode loop in refl
  pieces_eq (piece ∷ pieces) self w v h =
      let n : length (piece ++ joined pieces) ≡ length piece + length (joined pieces) =
        length-append piece (joined pieces) in
      and_then-decode (decode platform self piece (length piece) w) _ _
        (decode-Ends platform self piece w (omega arith) v)
        (λ s w' v'. pieces_eq pieces s w' v' (omega arith))
      ∙ sym (decode-append platform self piece (joined pieces) w v h)

  -- However a stream of less than 2 ^ 31 bytes is cut into pieces, decoding the pieces one by one
  -- gives what one call on the whole stream gives: the same result, the same effect on the state
  -- of the callbacks and the same decoder state. The fuel suffices, and the counters stay in range.
  pub decode_pieces-joined :
      (self : Framer W) (pieces : List (List ℕ)) (w : W)
      → InProgress self
      → length (joined pieces) < 2 ^ 31
      → (decode_pieces platform self pieces w
          ≡ decode platform self (joined pieces) (length (joined pieces)) w)
        × Ends (decode_pieces platform self pieces w)
  decode_pieces-joined self pieces w v h = (
    pieces_eq pieces self w v h,
    rw (pieces_eq pieces self w v h) (decode-Ends platform self (joined pieces) w h v),
  )

module _ {W : Type 0} (platform : Platform) where
  and_then-step :
      (o : Option (Outcome W)) (k k' l : Framer W → W → Option (Outcome W))
      → ((s : Framer W) (w : W) → k s w ≡ and_then (k' s w) l)
      → and_then o k ≡ and_then (and_then o k') l
  and_then-step none k k' l h = refl
  and_then-step (some (none, s, w)) k k' l h = h s w
  and_then-step (some (some c, s, w)) k k' l h = refl

  -- The pieces of two streams, one behind the other.
  pub decode_pieces-append :
      (xs ys : List (List ℕ)) (self : Framer W) (w : W)
      → decode_pieces platform self (xs ++ ys) w
        ≡ and_then (decode_pieces platform self xs w) (λ s v. decode_pieces platform s ys v)
  decode_pieces-append [] ys self w = refl
  decode_pieces-append (x ∷ xs) ys self w =
      and_then-step (decode platform self x (length x) w) _ _ _ (decode_pieces-append xs ys)

pub joined-append : (xs ys : List (List ℕ)) → joined (xs ++ ys) ≡ joined xs ++ joined ys
joined-append [] ys = refl
joined-append (x ∷ xs) ys =
    ap (λ l. x ++ l) (joined-append xs ys) ∙ sym (append_assoc x (joined xs) (joined ys))
