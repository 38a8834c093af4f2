-- ===== src/Packing/Steps.antt =====
-- What one call of a chain of dtpackx calls does to the output, and what it reads.
use dtmc_base.Common.{
  take-copy_into_self, take_all, ℕ, zero, suc, ErrorCode, err, Bool-cases, leb, inl, inr, [], ◌∷◌,
  ◌+◌, ◌^◌, ◌≤◌, ◌<◌, ◌≡◌, ◌∙◌, sym, ap, refl, List, ◌++◌, Result, ok, length, take, drop,
  copy_into, arith, take-copy_into, take_add, drop-append_self, length-take, length-append,
  length-copy_into, take-append_self, copy_into-append, min,
}
use dtmc_base.Packing.{
  Packer, PackerLaws, Holds, Accepts, Refuses, put, get, load, load_all, put_all, get_all,
  encode_all, All,
}

-- What a copy leaves at its place.
pub copy_into-Holds :
    (output : List ℕ) (p : ℕ) (bytes : List ℕ)
    → p + length bytes ≤ length output
    → Holds (copy_into output p bytes) p bytes
copy_into-Holds output p bytes fits =
    let copied : List ℕ = copy_into output p bytes in
    let whole : take p copied ++ take (length bytes) (drop p copied) ≡ take p output ++ bytes =
      sym (take_add p (length bytes) copied) ∙ take-copy_into output p bytes fits in
    let l : length (take p copied) ≡ p =
      omega (arith, length-take p copied, length-copy_into output p bytes) in
    let l' : length (take p output) ≡ p = omega (arith, length-take p output) in
    sym (drop-append_self (take p copied) (take (length bytes) (drop p copied)))
    ∙ ap (λ k. drop k (take p copied ++ take (length bytes) (drop p copied))) l
    ∙ ap (drop p) whole
    ∙ ap (λ k. drop k (take p output ++ bytes)) (sym l')
    ∙ drop-append_self (take p output) bytes

drop_nil : (n : ℕ) → drop {A = ℕ} n [] ≡ []
drop_nil zero = refl
drop_nil (suc n) = refl

drop_add : (k m : ℕ) (xs : List ℕ) → drop (k + m) xs ≡ drop m (drop k xs)
drop_add zero m xs = ap (λ n. drop n xs) (omega arith)
drop_add (suc k) m [] = drop_nil (suc k + m) ∙ sym (drop_nil m)
drop_add (suc k) m (x ∷ xs) =
    let e : suc k + m ≡ suc (k + m) = omega arith in rw e (drop_add k m xs)

module _ (input : List ℕ) (p : ℕ) (xs ys : List ℕ) (holds : Holds input p (xs ++ ys)) where
  halves :
      take (length xs) (drop p input) ++ take (length ys) (drop (length xs) (drop p input))
      ≡ xs ++ ys
  halves =
      sym (take_add (length xs) (length ys) (drop p input))
      ∙ ap (λ n. take n (drop p input)) (sym (length-append xs ys))
      ∙ holds

  left_length : length (take (length xs) (drop p input)) ≡ length xs
  left_length =
      let whole : min (length (xs ++ ys)) (length (drop p input)) ≡ length (xs ++ ys) =
        sym (length-take (length (xs ++ ys)) (drop p input)) ∙ ap length holds in
      omega (arith, whole, length-take (length xs) (drop p input), length-append xs ys)

  pub Holds-append_left : Holds input p xs
  Holds-append_left =
      let rest : List ℕ = take (length ys) (drop (length xs) (drop p input)) in
      sym (take-append_self (take (length xs) (drop p input)) rest)
      ∙ ap (λ n. take n (take (length xs) (drop p input) ++ rest)) left_length
      ∙ ap (take (length xs)) halves
      ∙ take-append_self xs ys

  pub Holds-append_right : Holds input (p + length xs) ys
  Holds-append_right =
      let left : List ℕ = take (length xs) (drop p input) in
      let rest : List ℕ = take (length ys) (drop (length xs) (drop p input)) in
      ap (take (length ys)) (drop_add p (length xs) input)
      ∙ sym (drop-append_self left rest)
      ∙ ap (λ n. drop n (left ++ rest)) left_length
      ∙ ap (drop (length xs)) halves
      ∙ drop-append_self xs ys

module _ {A : Type 0} {packer : Packer A} {encode : A → List ℕ} {Packable : A → Type 0}
    (laws : PackerLaws packer encode Packable) {check : ℕ → ℕ → ℕ → Result ℕ}
    (accepts : Accepts check) where
  pub put_lem :
      (n : ℕ) (a : A) (output : List ℕ) (p : ℕ)
      → Packable a
      → p + length (encode a) ≤ n
      → n ≤ length output
      → n < 2 ^ 31
      → put check packer n a (ok p, output)
        ≡ (ok (p + length (encode a)), copy_into output p (encode a))
  unfolding put
  put_lem n a output p packable fits room small =
      rw (laws.pack_fits a output p n packable fits room small)
        (rw (accepts (length (encode a)) p n fits small) refl)

  pub get_lem :
      (input : List ℕ) (n : ℕ) (a old : A) (p : ℕ)
      → Packable a
      → Holds input p (encode a)
      → p + length (encode a) ≤ n
      → n ≤ length input
      → n < 2 ^ 31
      → get check packer input n old (ok p) ≡ (ok (p + length (encode a)), a)
  unfolding get
  get_lem input n a old p packable holds fits room small =
      rw (laws.unpack_fits a input p n old packable holds fits room small)
        (rw (accepts (length (encode a)) p n fits small) refl)

  pub put_all_lem :
      (n : ℕ) (values : List A) (output : List ℕ) (p : ℕ)
      → All Packable values
      → p + length (encode_all encode values) ≤ n
      → n ≤ length output
      → n < 2 ^ 31
      → put_all check packer n values (ok p, output) ≡ (
        ok (p + length (encode_all encode values)),
        copy_into output p (encode_all encode values),
      )
  unfolding put_all encode_all
  put_all_lem n [] output p packable fits room small =
      let e : p + length {A = ℕ} [] ≡ p = omega arith in rw e refl
  put_all_lem n (a ∷ values) output p packable fits room small =
      let rest : List ℕ = encode_all encode values in
      let l : length (encode a ++ rest) ≡ length (encode a) + length rest =
        length-append (encode a) rest in
      let e : p + length (encode a ++ rest) ≡ p + length (encode a) + length rest = omega arith in
      ap (put_all check packer n values) (put_lem n a output p packable.0 (omega arith) room small)
      ∙ put_all_lem n values (copy_into output p (encode a)) (p + length (encode a)) packable.1
          (omega arith) (omega (arith, length-copy_into output p (encode a))) small
      ∙ rw (e, copy_into-append output p (encode a) rest) refl

  -- The values that the variables have before do not matter.
  pub get_all_lem :
      (input : List ℕ) (n : ℕ) (values olds : List A) (p : ℕ)
      → length olds ≡ length values
      → All Packable values
      → Holds input p (encode_all encode values)
      → p + length (encode_all encode values) ≤ n
      → n ≤ length input
      → n < 2 ^ 31
      → get_all check packer input n olds (ok p)
        ≡ (ok (p + length (encode_all encode values)), values)
  unfolding get_all encode_all
  get_all_lem input n [] [] p same packable holds fits room small =
      let e : p + length {A = ℕ} [] ≡ p = omega arith in rw e refl
  get_all_lem input n [] (old ∷ olds) p same packable holds fits room small = absurd (omega arith)
  get_all_lem input n (a ∷ values) [] p same packable holds fits room small = absurd (omega arith)
  get_all_lem input n (a ∷ values) (old ∷ olds) p same packable holds fits room small =
      let rest : List ℕ = encode_all encode values in
      let l : length (encode a ++ rest) ≡ length (encode a) + length rest =
        length-append (encode a) rest in
      let e : p + length (encode a ++ rest) ≡ p + length (encode a) + length rest = omega arith in
      rw
        (get_lem input n a old p packable.0 (Holds-append_left input p (encode a) rest holds)
          (omega arith) room small)
        (rw
          (get_all_lem input n values olds (p + length (encode a)) (omega arith) packable.1
            (Holds-append_right input p (encode a) rest holds) (omega arith) room small)
          (rw e refl))

  pub put_all-err :
      (n : ℕ) (values : List A) (e : ErrorCode) (output : List ℕ)
      → put_all check packer n values (err e, output) ≡ (err e, output)
  unfolding put_all put
  put_all-err n [] e output = refl
  put_all-err n (a ∷ values) e output = put_all-err n values e output

  pub put_short :
      {code : ErrorCode} (refuses : Refuses check code) (n : ℕ) (a : A) (output : List ℕ) (p : ℕ)
      → Packable a
      → n < p + length (encode a)
      → p ≤ n
      → n < 2 ^ 31
      → (put check packer n a (ok p, output)).0 ≡ err code
  unfolding put
  put_short refuses n a output p packable short inside small =
      refuses (packer.pack a output p n).0 p n
        (laws.pack_short a output p n packable short inside small)

  -- Values that do not all fit are refused.
  pub put_all_short :
      {code : ErrorCode} (refuses : Refuses check code) (n : ℕ) (values : List A) (output : List ℕ)
      (p : ℕ)
      → All Packable values
      → n < p + length (encode_all encode values)
      → p ≤ n
      → n ≤ length output
      → n < 2 ^ 31
      → (put_all check packer n values (ok p, output)).0 ≡ err code
  unfolding put_all encode_all
  put_all_short {code} refuses n [] output p packable short inside room small = absurd (omega arith)
  put_all_short {code} refuses n (a ∷ values) output p packable short inside room small =
      let rest : List ℕ = encode_all encode values in
      let l : length (encode a ++ rest) ≡ length (encode a) + length rest =
        length-append (encode a) rest in
      elim (Bool-cases (leb (p + length (encode a)) n)) [
        | inl fits ↦
            ap (λ s. (put_all check packer n values s).0)
              (put_lem n a output p packable.0 (ground arith) room small)
            ∙ put_all_short refuses n values (copy_into output p (encode a)) (p + length (encode a))
                packable.1 (omega arith) (ground arith)
                (omega (arith, length-copy_into output p (encode a))) small
        | inr over ↦
            let left : Result ℕ × List ℕ = put check packer n a (ok p, output) in
            ap (λ r. (put_all check packer n values (r, left.1)).0)
              (put_short refuses n a output p packable.0 (ground arith) inside small)
            ∙ ap (λ s. s.0) (put_all-err n values code left.1)
      ]

module _ {packer : Packer ℕ} {encode : ℕ → List ℕ} {Packable : ℕ → Type 0}
    (laws : PackerLaws packer encode Packable) {check : ℕ → ℕ → ℕ → Result ℕ}
    (accepts : Accepts check) where
  pub load_lem :
      (input : List ℕ) (n a old p : ℕ)
      → Packable a
      → Holds input p (encode a)
      → p + length (encode a) ≤ n
      → n ≤ length input
      → n < 2 ^ 31
      → load check packer input n old (ok p) ≡ (ok (p + length (encode a)), a)
  unfolding load
  load_lem input n a old p packable holds fits room small =
      rw (get_lem laws accepts input n a 0 p packable holds fits room small) refl

  pub load_all_lem :
      (input : List ℕ) (n : ℕ) (values olds : List ℕ) (p : ℕ)
      → length olds ≡ length values
      → All Packable values
      → Holds input p (encode_all encode values)
      → p + length (encode_all encode values) ≤ n
      → n ≤ length input
      → n < 2 ^ 31
      → load_all check packer input n olds (ok p)
        ≡ (ok (p + length (encode_all encode values)), values)
  unfolding load_all encode_all
  load_all_lem input n [] [] p same packable holds fits room small =
      let e : p + length {A = ℕ} [] ≡ p = omega arith in rw e refl
  load_all_lem input n [] (old ∷ olds) p same packable holds fits room small = absurd (omega arith)
  load_all_lem input n (a ∷ values) [] p same packable holds fits room small = absurd (omega arith)
  load_all_lem input n (a ∷ values) (old ∷ olds) p same packable holds fits room small =
      let rest : List ℕ = encode_all encode values in
      let l : length (encode a ++ rest) ≡ length (encode a) + length rest =
        length-append (encode a) rest in
      let e : p + length (encode a ++ rest) ≡ p + length (encode a) + length rest = omega arith in
      rw
        (load_lem input n a old p packable.0 (Holds-append_left input p (encode a) rest holds)
          (omega arith) room small)
        (rw
          (load_all_lem input n values olds (p + length (encode a)) (omega arith) packable.1
            (Holds-append_right input p (encode a) rest holds) (omega arith) room small)
          (rw e refl))

-- A buffer that is as long as what is copied into it.
pub copy_into_whole :
    (output bytes : List ℕ) → length output ≡ length bytes → copy_into output 0 bytes ≡ bytes
copy_into_whole output bytes same =
    sym (
      take_all (length bytes) (copy_into output 0 bytes)
        (omega (arith, length-copy_into output 0 bytes)))
    ∙ take-copy_into_self output bytes (omega arith)

-- A part of a chain writes these bytes where they fit.
abbrev pub Writes : ℕ → (Result ℕ × List ℕ → Result ℕ × List ℕ) → List ℕ → Type 0
Writes n f bytes =
    (output : List ℕ) (p : ℕ)
    → p + length bytes ≤ n
    → n ≤ length output
    → f (ok p, output) ≡ (ok (p + length bytes), copy_into output p bytes)

pub Writes-nil : (n : ℕ) → Writes n (λ state. state) []
Writes-nil n output p fits room = let e : p + length {A = ℕ} [] ≡ p = omega arith in rw e refl

pub Writes-then :
    (n : ℕ) (f g : Result ℕ × List ℕ → Result ℕ × List ℕ) (xs ys : List ℕ)
    → Writes n f xs
    → Writes n g ys
    → Writes n (λ state. g (f state)) (xs ++ ys)
Writes-then n f g xs ys hf hg output p fits room =
    let l : length (xs ++ ys) ≡ length xs + length ys = length-append xs ys in
    let e : p + length (xs ++ ys) ≡ p + length xs + length ys = omega arith in
    ap g (hf output p (omega arith) room)
    ∙ hg (copy_into output p xs) (p + length xs) (omega arith)
        (omega (arith, length-copy_into output p xs))
    ∙ rw (e, copy_into-append output p xs ys) refl
