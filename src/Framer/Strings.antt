-- ===== src/Framer/Strings.antt =====
-- C strings in byte arrays.
use dtmc_base.Common.{ℕ, zero, suc, ◌<◌, ◌≡◌, ◌≢◌, refl, List, [], ◌∷◌, arith, length, set, take}
use dtmc_base.Framer.{c_string}

-- No byte is NUL.
abbrev pub HasNoNul : List ℕ → Type 0
HasNoNul [] = Unit
HasNoNul (c ∷ cs) = (c ≢ 0) × HasNoNul cs

-- A terminator behind bytes with no NUL makes them the string.
pub c_string-set :
    (s : List ℕ) (n : ℕ) → n < length s → HasNoNul (take n s) → c_string (set s n 0) ≡ take n s
c_string-set [] n h k = absurd (omega arith)
c_string-set (c ∷ s) zero h k = refl
c_string-set (c ∷ s) (suc n) h k = ground (arith, c_string-set s n (omega arith) (k.1))
