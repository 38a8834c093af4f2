-- ===== src/Packing.antt =====
-- How the packable records of dtmc_base_library/src write and read their fields: dtpackx of dtcore,
-- which is a parameter, and the chains of its calls in dtnetprofile.c, dtradioconfig.c, dtadc_scan.c
-- and dtadc_scanlist.c.
pub mod Steps
pub mod Samples
use dtmc_base.Common.{
  ℕ, ◌+◌, ◌^◌, ◌≤◌, ◌<◌, ◌≡◌, ◌≢◌, List, [], ◌∷◌, ◌++◌, Option, none, some, Result, ErrorCode, ok,
  err, length, take, drop, copy_into, true, is_negative,
}
use dtmc_base.Manifold.{CString}

-- The functions of dtpackx for one type. `pack` takes the value, the output, the position and the length
-- of the output, and gives an `int32_t` and the output; `unpack` takes the input, the position, its
-- length and the old value of the variable, and gives an `int32_t` and the new value.
pub record Packer (A : Type 0) : Type 0 where
  pub pack : A → List ℕ → ℕ → ℕ → ℕ × List ℕ
  pub unpack : List ℕ → ℕ → ℕ → A → ℕ × A

-- dtpackx. The two checks are the macros `DTPACKX_PACK` and `DTPACKX_UNPACK`: they take the result of a
-- call, the position and the length, and give the next position or go to cleanup with an error.
pub record Packx : Type 0 where
  pub string : Packer (Option CString)
  pub int32 : Packer ℕ
  pub int64 : Packer ℕ
  pub string_length : Option CString → ℕ
  pub int32_length : ℕ
  pub int64_length : ℕ
  pub pack_check : ℕ → ℕ → ℕ → Result ℕ
  pub unpack_check : ℕ → ℕ → ℕ → Result ℕ

-- The bytes stand in the input from the position on.
abbrev pub Holds : List ℕ → ℕ → List ℕ → Type 0
Holds input p bytes = take (length bytes) (drop p input) ≡ bytes

-- What users of one type of dtpackx count on, for the values that can be packed: a value that fits is
-- written as its code and is read back from it, and one that does not fit is refused.
pub record PackerLaws {A : Type 0} (packer : Packer A) (encode : A → List ℕ) (Packable : A → Type 0)
    : Type 0 where
  pub pack_fits :
      (a : A) (output : List ℕ) (p n : ℕ)
      → Packable a
      → p + length (encode a) ≤ n
      → n ≤ length output
      → n < 2 ^ 31
      → packer.pack a output p n ≡ (length (encode a), copy_into output p (encode a))
  pub pack_short :
      (a : A) (output : List ℕ) (p n : ℕ)
      → Packable a
      → n < p + length (encode a)
      → p ≤ n
      → n < 2 ^ 31
      → is_negative (packer.pack a output p n).0 ≡ true
  pub unpack_fits :
      (a : A) (input : List ℕ) (p n : ℕ) (old : A)
      → Packable a
      → Holds input p (encode a)
      → p + length (encode a) ≤ n
      → n ≤ length input
      → n < 2 ^ 31
      → packer.unpack input p n old ≡ (length (encode a), a)

-- A check of the calls of a chain goes on behind a call that stays inside the length.
abbrev pub Accepts : (ℕ → ℕ → ℕ → Result ℕ) → Type 0
Accepts check = (k p n : ℕ) → p + k ≤ n → n < 2 ^ 31 → check k p n ≡ ok (p + k)

-- It goes to cleanup with this error behind a call with a negative result.
abbrev pub Refuses : (ℕ → ℕ → ℕ → Result ℕ) → ErrorCode → Type 0
Refuses check code = (k p n : ℕ) → is_negative k ≡ true → check k p n ≡ err code

abbrev pub NoNul : CString → Type 0
NoNul [] = Unit
NoNul (c ∷ s) = (c ≢ 0) × NoNul s

-- A string that is not NULL.
abbrev pub IsString : Option CString → Type 0
IsString none = ⊥
IsString (some s) = NoNul s

abbrev pub text_or_empty : Option CString → CString
text_or_empty none = []
text_or_empty (some s) = s

pub record PackxLaws (packx : Packx) : Type 0 where
  pub encode_string : CString → List ℕ
  pub encode_int32 : ℕ → List ℕ
  pub encode_int64 : ℕ → List ℕ
  pub strings : PackerLaws packx.string (λ s. encode_string (text_or_empty s)) IsString
  pub int32s : PackerLaws packx.int32 encode_int32 (λ v. v < 2 ^ 32)
  pub int64s : PackerLaws packx.int64 encode_int64 (λ v. v < 2 ^ 64)
  pub length-encode_string : (s : CString) → NoNul s → length (encode_string s) ≡ length s + 1
  pub string_length_lem : (s : CString) → NoNul s → packx.string_length (some s) ≡ length s + 1
  pub length-encode_int32 : (v : ℕ) → length (encode_int32 v) ≡ packx.int32_length
  pub length-encode_int64 : (v : ℕ) → length (encode_int64 v) ≡ packx.int64_length
  pub pack_check_lem : Accepts packx.pack_check
  pub pack_error : ErrorCode
  pub pack_check_negative : Refuses packx.pack_check pack_error
  pub unpack_check_lem : Accepts packx.unpack_check

module _ {A : Type 0} (check : ℕ → ℕ → ℕ → Result ℕ) (packer : Packer A) where
  -- One call of a chain: `p` is the position, or the chain was left with an error.
  unfoldable pub put : ℕ → A → Result ℕ × List ℕ → Result ℕ × List ℕ
  put n a (err e, output) = (err e, output)
  put n a (ok p, output) = let (k, output') = packer.pack a output p n in (check k p n, output')

  -- The variable keeps its old value where the chain was left before.
  unfoldable pub get : List ℕ → ℕ → A → Result ℕ → Result ℕ × A
  get input n old (err e) = (err e, old)
  get input n old (ok p) = let (k, a) = packer.unpack input p n old in (check k p n, a)

  -- The same call for each value of a list, in order.
  unfoldable pub put_all : ℕ → List A → Result ℕ × List ℕ → Result ℕ × List ℕ
  put_all n [] state = state
  put_all n (a ∷ as') state = put_all n as' (put n a state)

  unfoldable pub get_all : List ℕ → ℕ → List A → Result ℕ → Result ℕ × List A
  get_all input n [] p = (p, [])
  get_all input n (old ∷ olds) p =
      let (p', a) = get input n old p in
      let (p'', rest) = get_all input n olds p' in (p'', a ∷ rest)

-- The codes of the values of a list, one behind the other.
unfoldable pub encode_all : {A : Type 0} → (A → List ℕ) → List A → List ℕ
encode_all encode [] = []
encode_all encode (a ∷ as') = encode a ++ encode_all encode as'

abbrev pub All : {A : Type 0} → (A → Type 0) → List A → Type 0
All P [] = Unit
All P (a ∷ as') = P a × All P as'

-- A call on a local variable, from which a variable is set where the chain goes on.
abbrev pub kept : {A : Type 0} → Result ℕ → A → A → A
kept (ok p) old a = a
kept (err e) old a = old

module _ (check : ℕ → ℕ → ℕ → Result ℕ) (packer : Packer ℕ) where
  unfoldable pub load : List ℕ → ℕ → ℕ → Result ℕ → Result ℕ × ℕ
  load input n old p = let (p', value) = get check packer input n 0 p in (p', kept p' old value)

  unfoldable pub load_all : List ℕ → ℕ → List ℕ → Result ℕ → Result ℕ × List ℕ
  load_all input n [] p = (p, [])
  load_all input n (old ∷ olds) p =
      let (p', value) = load input n old p in
      let (p'', rest) = load_all input n olds p' in (p'', value ∷ rest)
