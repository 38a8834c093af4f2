-- ===== src/NetProfile/Wire.antt =====
-- What a packed profile of dtnetprofile.c is, and reading it back.
use dtmc_base.Common.{
  ℕ, ◌+◌, ◌^◌, ◌≤◌, ◌<◌, ◌≡◌, refl, ap, List, [], ◌∷◌, Option, none, some, ok, err, fail, length,
  length-append, arith, copy_into, if◌then◌else◌, leb, Bool-cases, inl, inr, sub32, get_or,
  length-copy_into,
}
use dtmc_base.Manifold.{CString}
use dtmc_base.Packing.{
  Packx, PackxLaws, text_or_empty, IsString, Holds, Accepts, Refuses, All, put_all, get_all,
  encode_all,
}
use dtmc_base.Packing.Steps.{copy_into-Holds, put_all_lem, put_all_short, get_all_lem}
use dtmc_base.NetProfile.{
  NetProfile, str_bytes_or_one, step, distance, pack_length, put_lists, pack, unpack,
}

-- The strings that stand for the lists of a profile, in the order of the source.
abbrev pub lists : NetProfile → List (Option CString)
lists self =
    some (text_or_empty self.name_list)
    ∷ some (text_or_empty self.version_list)
    ∷ some (text_or_empty self.url_list)
    ∷ some (text_or_empty self.role_list)
    ∷ some (text_or_empty self.subscription_list)
    ∷ some (text_or_empty self.publication_list)
    ∷ some (text_or_empty self.state_list)
    ∷ []

-- The lists hold no NUL.
abbrev pub IsPackable : NetProfile → Type 0
IsPackable self = All IsString (lists self)

-- A profile with empty strings for the lists that are NULL.
abbrev pub filled : NetProfile → NetProfile
filled self = record {
  name_list = some (text_or_empty self.name_list);
  version_list = some (text_or_empty self.version_list);
  url_list = some (text_or_empty self.url_list);
  role_list = some (text_or_empty self.role_list);
  subscription_list = some (text_or_empty self.subscription_list);
  publication_list = some (text_or_empty self.publication_list);
  state_list = some (text_or_empty self.state_list);
}

-- The lists of a profile as they stand.
abbrev olds : NetProfile → List (Option CString)
olds self =
    self.name_list ∷ self.version_list ∷ self.url_list ∷ self.role_list ∷ self.subscription_list
    ∷ self.publication_list ∷ self.state_list ∷ []

abbrev from_lists : List (Option CString) → NetProfile
from_lists values = record {
  name_list = get_or values 0 none;
  version_list = get_or values 1 none;
  url_list = get_or values 2 none;
  role_list = get_or values 3 none;
  subscription_list = get_or values 4 none;
  publication_list = get_or values 5 none;
  state_list = get_or values 6 none;
}

abbrev total : List (Option CString) → ℕ
total [] = 0
total (s ∷ ss) = str_bytes_or_one s + total ss

step-Accepts : Accepts step
step-Accepts k p n fits small = ground arith

step-Refuses : Refuses step fail
step-Refuses k p n negative = rw negative refl

bytes_of_text :
    (s : Option CString) → str_bytes_or_one (some (text_or_empty s)) ≡ str_bytes_or_one s
bytes_of_text none = refl
bytes_of_text (some s) = refl

module _ {packx : Packx} (laws : PackxLaws packx) where
  abbrev pub encode : Option CString → List ℕ
  encode s = laws.encode_string (text_or_empty s)

  length-encode_strings :
      (ss : List (Option CString)) → All IsString ss → length (encode_all encode ss) ≡ total ss
  unfolding encode_all
  length-encode_strings [] packable = refl
  length-encode_strings (none ∷ ss) packable = absurd packable.0
  length-encode_strings (some s ∷ ss) packable = omega (
    arith,
    length-append (encode (some s)) (encode_all encode ss),
    laws.length-encode_string s packable.0,
    length-encode_strings ss packable.1,
  )

  -- The bytes of a packed profile.
  abbrev pub encode_profile : NetProfile → List ℕ
  encode_profile self = encode_all encode (lists self)

  -- The announced length is the number of these bytes.
  pub pack_length-eq-length :
      (self : NetProfile)
      → IsPackable self
      → length (encode_profile self) < 2 ^ 31
      → pack_length self ≡ length (encode_profile self)
  unfolding pack_length
  pack_length-eq-length self packable small = omega (
    arith,
    length-encode_strings (lists self) packable,
    bytes_of_text self.name_list,
    bytes_of_text self.version_list,
    bytes_of_text self.url_list,
    bytes_of_text self.role_list,
    bytes_of_text self.subscription_list,
    bytes_of_text self.publication_list,
    bytes_of_text self.state_list,
  )

  put_lists-put_all :
      (self : NetProfile) (output : List ℕ) (offset n : ℕ)
      → put_lists packx self output offset n
        ≡ put_all step packx.string n (lists self) (ok offset, output)
  unfolding put_lists put_all
  put_lists-put_all self output offset n = refl

  unpack-get_all :
      (self : NetProfile) (input : List ℕ) (offset n : ℕ)
      → unpack packx self input offset n ≡ (
          let (p, values) = get_all step packx.string input n (olds self) (ok offset) in
          (distance offset p, from_lists values))
  unfolding unpack get_all
  unpack-get_all self input offset n = refl

  -- A profile is read from where its bytes stand.
  pub unpack_lem :
      (self old : NetProfile) (input : List ℕ) (offset n : ℕ)
      → IsPackable self
      → Holds input offset (encode_profile self)
      → offset + length (encode_profile self) ≤ n
      → n ≤ length input
      → n < 2 ^ 31
      → unpack packx old input offset n ≡ (ok (length (encode_profile self)), filled self)
  unpack_lem self old input offset n packable holds fits room small =
      let e : sub32 (offset + length (encode_profile self)) offset ≡ length (encode_profile self) =
        omega arith in
      rw (unpack-get_all old input offset n) (
        rw
          (get_all_lem laws.strings step-Accepts input n (lists self) (olds old) offset refl
            packable holds fits room small)
          (rw e refl))

  module _ (self : NetProfile) (output : List ℕ) (offset n : ℕ) (packable : IsPackable self)
      (inside : offset ≤ n) (room : n ≤ length output) (small : n < 2 ^ 31) where
    pub pack_fits :
        offset + length (encode_profile self) ≤ n
        → pack packx self output offset n
          ≡ (ok (length (encode_profile self)), copy_into output offset (encode_profile self))
    unfolding pack
    pack_fits fits =
        let e : sub32 (offset + length (encode_profile self)) offset
            ≡ length (encode_profile self) =
          omega arith in
        rw (put_lists-put_all self output offset n) (
          rw
            (put_all_lem laws.strings step-Accepts n (lists self) output offset packable fits room
              small)
            (rw e refl))

    pack_short :
        n < offset + length (encode_profile self) → (pack packx self output offset n).0 ≡ err fail
    unfolding pack
    pack_short short = rw (put_lists-put_all self output offset n) (
        rw
          (put_all_short laws.strings step-Accepts step-Refuses n (lists self) output offset
            packable short inside room small)
          refl)

    -- A pack into a buffer of a length below 2 ^ 31, for lists without a NUL and with a packed form of less
    -- than 2 ^ 31 bytes, gives the announced length exactly if so many bytes fit behind the offset, and -1
    -- (an error of the model) otherwise.
    pub pack_exact :
        length (encode_profile self) < 2 ^ 31
        → (pack packx self output offset n).0
          ≡ (if leb (offset + pack_length self) n then ok (pack_length self) else err fail)
    pack_exact bounded =
        rw (pack_length-eq-length self packable bounded)
          (elim (Bool-cases (leb (offset + length (encode_profile self)) n)) [
            | inl fits ↦ rw fits (ap (λ s. s.0) (pack_fits (ground arith)))
            | inr over ↦ rw over (pack_short (ground arith))
          ])

    -- A profile that fits is read back from where it was packed, with empty strings for the lists that are
    -- NULL, whatever the profile that it is unpacked into had, and both give the same length.
    pub unpack-pack :
        (old : NetProfile)
        → offset + length (encode_profile self) ≤ n
        → ((pack packx self output offset n).0 ≡ ok (pack_length self))
          × (unpack packx old (pack packx self output offset n).1 offset n
              ≡ (ok (pack_length self), filled self))
    unpack-pack old fits =
        let size : pack_length self ≡ length (encode_profile self) =
          pack_length-eq-length self packable (omega arith) in
        let written : List ℕ = copy_into output offset (encode_profile self) in
        let read : unpack packx old written offset n
            ≡ (ok (length (encode_profile self)), filled self) =
          unpack_lem self old written offset n packable
            (copy_into-Holds output offset (encode_profile self) (omega arith)) fits
            (omega (arith, length-copy_into output offset (encode_profile self))) small in
        rw (pack_fits fits, size) (refl, read)
