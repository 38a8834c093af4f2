-- ===== src/NetProfile.antt =====
-- The profile of a node of dtmc_base_library/src/dtnetprofile.c: lists of names, each kept as one string
-- with newlines between the entries. The proofs stand in the children.
pub mod Wire
pub mod Text
pub mod Report
pub mod Tests
pub mod Entries
use dtmc_base.Common.{
  ℕ, zero, suc, ◌+◌, ◌-◌, ◌≡◌, List, [], ◌∷◌, ◌++◌, Option, none, some, Result, ok, err, fail,
  length, take, Bool, true, false, ◌==◌, ltb, leb, if◌then◌else◌, is_negative, add32, sub32,
  u32_mod, ◌%◌, ◌||◌, ◌&&◌,
}
use dtmc_base.Manifold.{CString}
use dtmc_base.Packing.{Packx, text_or_empty, put, get}

-- `dtnetprofile_t`. `none` is NULL.
pub record NetProfile : Type 0 where
  pub name_list : Option CString
  pub version_list : Option CString
  pub url_list : Option CString
  pub role_list : Option CString
  pub subscription_list : Option CString
  pub publication_list : Option CString
  pub state_list : Option CString

abbrev pub empty : NetProfile
empty = record {
  name_list = none;
  version_list = none;
  url_list = none;
  role_list = none;
  subscription_list = none;
  publication_list = none;
  state_list = none;
}

abbrev pub newline : ℕ
newline = 10

-- `str_bytes_or_one`.
abbrev pub str_bytes_or_one : Option CString → ℕ
str_bytes_or_one none = 1
str_bytes_or_one (some s) = length s + 1

-- `list_is_empty`.
abbrev pub list_is_empty : Option CString → Bool
list_is_empty none = true
list_is_empty (some []) = true
list_is_empty (some (c ∷ s)) = false

-- `dtstr_concat_format` of dtcore with the format `%s`: the string, a separator, and what is added.
abbrev pub ConcatFormat : Type 0
ConcatFormat = Option CString → CString → CString → Option CString

-- What it does, where there is memory: it begins with what is added, or puts the separator before it.
pub record ConcatFormatLaws (concat_format : ConcatFormat) : Type 0 where
  pub begins : (separator s : CString) → concat_format none separator s ≡ some s
  pub continues :
      (t separator s : CString) → concat_format (some t) separator s ≡ some (t ++ (separator ++ s))

module _ (concat_format : ConcatFormat) where
  unfoldable pub list_add : Option CString → CString → Option CString
  list_add list s = concat_format list (newline ∷ []) s

  unfoldable pub add_name : NetProfile → CString → NetProfile
  add_name self name = record self { name_list = list_add self.name_list name }

  abbrev pub text_or_null : Option CString → CString
  text_or_null none = 40 ∷ 110 ∷ 117 ∷ 108 ∷ 108 ∷ 41 ∷ []
  text_or_null (some s) = s

  -- `snprintf` into 128 bytes.
  unfoldable pub add_version : NetProfile → Option CString → Option CString → NetProfile
  add_version self component version =
      let buf = take 127 (text_or_null component ++ (61 ∷ text_or_null version)) in
      record self { version_list = list_add self.version_list buf }

  unfoldable pub add_url : NetProfile → CString → NetProfile
  add_url self url = record self { url_list = list_add self.url_list url }

  unfoldable pub add_role : NetProfile → CString → NetProfile
  add_role self role = record self { role_list = list_add self.role_list role }

  unfoldable pub add_subscription : NetProfile → CString → NetProfile
  add_subscription self subscription = record self {
    subscription_list = list_add self.subscription_list subscription;
  }

  unfoldable pub add_publication : NetProfile → CString → NetProfile
  add_publication self publication = record self {
    publication_list = list_add self.publication_list publication;
  }

  unfoldable pub add_state : NetProfile → CString → NetProfile
  add_state self state = record self { state_list = list_add self.state_list state }

-- The loop of `next_token_nl`: the token, and what stands behind its newline.
unfoldable pub scan_token : CString → CString × CString
scan_token [] = ([], [])
scan_token (c ∷ p) =
    let (token, rest) = scan_token p in if c == newline then ([], p) else (c ∷ token, rest)

-- `next_token_nl`. `none`: there is no token.
unfoldable pub next_token_nl : CString → Option (CString × CString)
next_token_nl [] = none
next_token_nl (c ∷ p) = some (scan_token (c ∷ p))

-- The loop of `get`, on the number of tokens to pass over.
unfoldable pub nth_token : ℕ → CString → Option CString
nth_token zero p = elim (next_token_nl p) [ none ↦ none | some (token, rest) ↦ some token ]
nth_token (suc k) p = elim (next_token_nl p) [ none ↦ none | some (token, rest) ↦ nth_token k rest ]

-- The token is copied into the scratch buffer, of which `held` bytes are allocated; they become more
-- where it is too long and `realloc` succeeds at that size.
unfoldable pub copy_token : (ℕ → Bool) → ℕ → Option CString → Option CString × ℕ
copy_token realloc held none = (none, held)
copy_token realloc held (some token) =
    let newcap = if ltb (length token + 1) 64 then 64 else length token + 1 in
    if ltb held (length token + 1)
    then (if realloc newcap then (some token, newcap) else (none, held))
    else (some token, held)

-- `dtnetprofile_get`, with `realloc` and the capacity of the scratch buffer.
unfoldable pub get_entry : (ℕ → Bool) → ℕ → Option CString → ℕ → Option CString × ℕ
get_entry realloc held none index = (none, held)
get_entry realloc held (some list) index =
    copy_token realloc held (if is_negative index then none else nth_token index list)

-- The lists are freed.
unfoldable pub dispose : NetProfile → NetProfile
dispose self = empty

unfoldable pub pack_length : NetProfile → ℕ
pack_length self =
    (str_bytes_or_one self.name_list
      + str_bytes_or_one self.version_list
      + str_bytes_or_one self.url_list
      + str_bytes_or_one self.role_list
      + str_bytes_or_one self.subscription_list
      + str_bytes_or_one self.publication_list
      + str_bytes_or_one self.state_list)
    % u32_mod

-- `if (n < 0) return -1; p += n;`. The error stands for the -1.
abbrev pub step : ℕ → ℕ → ℕ → Result ℕ
step k p n = if is_negative k then err fail else ok (add32 p k)

-- `return p - offset`.
abbrev pub distance : ℕ → Result ℕ → Result ℕ
distance offset (ok p) = ok (sub32 p offset)
distance offset (err e) = err e

module _ (packx : Packx) where
  abbrev pub put_list : ℕ → Option CString → Result ℕ × List ℕ → Result ℕ × List ℕ
  put_list n list = put step packx.string n (some (text_or_empty list))

  -- The calls of `pack`, up to its return.
  unfoldable pub put_lists : NetProfile → List ℕ → ℕ → ℕ → Result ℕ × List ℕ
  put_lists self output offset n = put_list n self.state_list (
      put_list n self.publication_list (
        put_list n self.subscription_list (
          put_list n self.role_list (
            put_list n self.url_list
              (put_list n self.version_list (put_list n self.name_list (ok offset, output)))))))

  unfoldable pub pack : NetProfile → List ℕ → ℕ → ℕ → Result ℕ × List ℕ
  pack self output offset n =
      let (p, output') = put_lists self output offset n in (distance offset p, output')

  abbrev pub get_list : List ℕ → ℕ → Option CString → Result ℕ → Result ℕ × Option CString
  get_list = get step packx.string

  unfoldable pub unpack : NetProfile → List ℕ → ℕ → ℕ → Result ℕ × NetProfile
  unpack self input offset n =
      let (p1, names) = get_list input n self.name_list (ok offset) in
      let (p2, versions) = get_list input n self.version_list p1 in
      let (p3, urls) = get_list input n self.url_list p2 in
      let (p4, roles) = get_list input n self.role_list p3 in
      let (p5, subscriptions) = get_list input n self.subscription_list p4 in
      let (p6, publications) = get_list input n self.publication_list p5 in
      let (p7, states) = get_list input n self.state_list p6 in
      let self' : NetProfile = record {
        name_list = names;
        version_list = versions;
        url_list = urls;
        role_list = roles;
        subscription_list = subscriptions;
        publication_list = publications;
        state_list = states;
      } in
      (distance offset p7, self')
