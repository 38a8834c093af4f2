-- ===== src/Packing/Samples.antt =====
-- A dtpackx for the tests: strings with their NUL, and integers with their low byte first.
use dtmc_base.Common.{
  suc, false, ℕ, ◌+◌, ◌*◌, ◌/◌, ◌%◌, ◌^◌, ◌-◌, ◌≤◌, ◌<◌, ◌≡◌, ◌∙◌, refl, ap, sym, List, [], ◌∷◌,
  ◌++◌, Option, none, some, Result, ok, err, fail, length, drop, take-drop, arith, copy_into, leb,
  ◌==◌, if◌then◌else◌, is_negative, true, length-append,
}
use dtmc_base.Manifold.{CString}
use dtmc_base.Packing.{
  Packer, Packx, PackerLaws, PackxLaws, Holds, NoNul, IsString, text_or_empty, Accepts, Refuses,
}

module _ {A : Type 0} (encode : A → List ℕ) (decode : List ℕ → Option (A × ℕ)) where
  abbrev refused : ℕ
  refused = 2 ^ 32 - 1

  unfoldable pub read_or_refuse : ℕ → ℕ → A → Option (A × ℕ) → ℕ × A
  read_or_refuse p n old none = (refused, old)
  read_or_refuse p n old (some (a, k)) = if leb (p + k) n then (k, a) else (refused, old)

  abbrev pub packer : Packer A
  packer = record {
    pack = λ a output p n.
        if leb (p + length (encode a)) n
        then (length (encode a), copy_into output p (encode a))
        else (refused, output);
    unpack = λ input p n old. read_or_refuse p n old (decode (drop p input));
  }

  module _ {Packable : A → Type 0}
      (round : (a : A) (rest : List ℕ)
        → Packable a
        → decode (encode a ++ rest) ≡ some (a, length (encode a))) where
    pub pack_fits_lem :
        (a : A) (output : List ℕ) (p n : ℕ)
        → p + length (encode a) ≤ n
        → packer.pack a output p n ≡ (length (encode a), copy_into output p (encode a))
    pack_fits_lem a output p n fits =
        let e : leb (p + length (encode a)) n ≡ true = ground arith in rw e refl

    pub pack_short_lem :
        (a : A) (output : List ℕ) (p n : ℕ)
        → n < p + length (encode a)
        → is_negative (packer.pack a output p n).0 ≡ true
    pack_short_lem a output p n short =
        let e : leb (p + length (encode a)) n ≡ false = ground arith in rw e refl

    pub unpack_fits_lem :
        (a : A) (input : List ℕ) (p n : ℕ) (old : A)
        → Packable a
        → Holds input p (encode a)
        → p + length (encode a) ≤ n
        → packer.unpack input p n old ≡ (length (encode a), a)
    unfolding read_or_refuse
    unpack_fits_lem a input p n old packable holds fits =
        let k : ℕ = length (encode a) in
        let e : leb (p + k) n ≡ true = ground arith in
        let split : drop p input ≡ encode a ++ drop k (drop p input) =
          sym (take-drop k (drop p input)) ∙ ap (λ l. l ++ drop k (drop p input)) holds in
        ap (λ l. read_or_refuse p n old (decode l)) split
        ∙ ap (read_or_refuse p n old) (round a (drop k (drop p input)) packable)
        ∙ rw e refl

    abbrev pub packer-laws : PackerLaws packer encode Packable
    packer-laws = record {
      pack_fits = λ a output p n packable fits room small. pack_fits_lem a output p n fits;
      pack_short = λ a output p n packable short inside small. pack_short_lem a output p n short;
      unpack_fits = λ a input p n old packable holds fits room small.
          unpack_fits_lem a input p n old packable holds fits;
    }

abbrev encode_text : CString → List ℕ
encode_text s = s ++ (0 ∷ [])

unfoldable pub cons_token : ℕ → Option (CString × ℕ) → Option (CString × ℕ)
cons_token c none = none
cons_token c (some (s, k)) = some (c ∷ s, suc k)

unfoldable pub decode_text : List ℕ → Option (CString × ℕ)
decode_text [] = none
decode_text (c ∷ rest) =
    let shorter = cons_token c (decode_text rest) in if c == 0 then some ([], 1) else shorter

decode_text-encode_text :
    (s : CString) (rest : List ℕ)
    → NoNul s
    → decode_text (encode_text s ++ rest) ≡ some (s, length (encode_text s))
unfolding decode_text cons_token
decode_text-encode_text [] rest plain = refl
decode_text-encode_text (c ∷ s) rest plain =
    let e : (c == 0) ≡ false = ground arith in rw (e, decode_text-encode_text s rest plain.1) refl

encode_string : Option CString → List ℕ
encode_string s = encode_text (text_or_empty s)

unfoldable pub as_string : Option (CString × ℕ) → Option (Option CString × ℕ)
as_string none = none
as_string (some (s, k)) = some (some s, k)

unfoldable pub decode_string : List ℕ → Option (Option CString × ℕ)
decode_string bytes = as_string (decode_text bytes)

pub decode_string-encode_string :
    (s : Option CString) (rest : List ℕ)
    → IsString s
    → decode_string (encode_text (text_or_empty s) ++ rest)
      ≡ some (s, length (encode_text (text_or_empty s)))
unfolding decode_string as_string
decode_string-encode_string none rest is = absurd is
decode_string-encode_string (some s) rest is = ap as_string (decode_text-encode_text s rest is)

abbrev word : ℕ → List ℕ
word v = v % 256 ∷ v / 256 % 256 ∷ v / 65536 % 256 ∷ v / 16777216 % 256 ∷ []

abbrev of_word : ℕ → ℕ → ℕ → ℕ → ℕ
of_word a b c d = a + 256 * b + 65536 * c + 16777216 * d

of_word-word :
    (v : ℕ)
    → v < 2 ^ 32
    → of_word (v % 256) (v / 256 % 256) (v / 65536 % 256) (v / 16777216 % 256) ≡ v
of_word-word v small = omega arith

unfoldable pub decode_word : List ℕ → Option (ℕ × ℕ)
decode_word (a ∷ b ∷ c ∷ d ∷ rest) = some (of_word a b c d, 4)
decode_word other = none

pub decode_word-word :
    (v : ℕ) (rest : List ℕ) → v < 2 ^ 32 → decode_word (word v ++ rest) ≡ some (v, 4)
unfolding decode_word
decode_word-word v rest small = ap (λ k. some (k, 4)) (of_word-word v small)

abbrev long : ℕ → List ℕ
long v = word (v % 2 ^ 32) ++ word (v / 2 ^ 32)

unfoldable pub decode_long : List ℕ → Option (ℕ × ℕ)
decode_long (a ∷ b ∷ c ∷ d ∷ a' ∷ b' ∷ c' ∷ d' ∷ rest) =
    some (of_word a b c d + 2 ^ 32 * of_word a' b' c' d', 8)
decode_long other = none

pub decode_long-long :
    (v : ℕ) (rest : List ℕ) → v < 2 ^ 64 → decode_long (long v ++ rest) ≡ some (v, 8)
unfolding decode_long
decode_long-long v rest small =
    let lo : ℕ = v % 2 ^ 32 in
    let hi : ℕ = v / 2 ^ 32 in
    let e : lo + 2 ^ 32 * hi ≡ v = omega arith in
    rw (of_word-word lo (omega arith), of_word-word hi (omega arith)) (ap (λ k. some (k, 8)) e)

abbrev check : ℕ → ℕ → ℕ → Result ℕ
check k p n = if is_negative k then err fail else ok (p + k)

pub check-Accepts : Accepts check
check-Accepts k p n fits small = ground arith

pub check-Refuses : Refuses check fail
check-Refuses k p n negative = rw negative refl

abbrev pub fields : Packx
fields = record {
  string = packer (λ s. encode_text (text_or_empty s)) decode_string;
  int32 = packer word decode_word;
  int64 = packer long decode_long;
  string_length = λ s. length (text_or_empty s) + 1;
  int32_length = 4;
  int64_length = 8;
  pack_check = check;
  unpack_check = check;
}

abbrev pub fields-laws : PackxLaws fields
fields-laws = record {
  encode_string = encode_text;
  encode_int32 = word;
  encode_int64 = long;
  strings =
      packer-laws (λ s. encode_text (text_or_empty s)) decode_string decode_string-encode_string;
  int32s = packer-laws word decode_word decode_word-word;
  int64s = packer-laws long decode_long decode_long-long;
  length-encode_string = λ s plain. length-append s (0 ∷ []);
  string_length_lem = λ s plain. refl;
  length-encode_int32 = λ v. refl;
  length-encode_int64 = λ v. refl;
  pack_check_lem = check-Accepts;
  pack_error = fail;
  pack_check_negative = check-Refuses;
  unpack_check_lem = check-Accepts;
}
