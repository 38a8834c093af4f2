-- ===== src/NetProfile/Entries.antt =====
-- The entries of the lists of dtnetprofile.c: what is added is what is read by index.
use dtmc_base.Common.{
  ℕ, zero, suc, ◌+◌, ◌^◌, ◌<◌, ◌≡◌, ◌≢◌, ◌∙◌, refl, ap, sym, List, [], ◌∷◌, ◌++◌, Option, none,
  some, Bool, true, false, length, get_elem?, arith, ◌==◌, ltb, if◌then◌else◌, is_negative,
  append_assoc, append-nil,
}
use dtmc_base.Manifold.{CString}
use dtmc_base.Packing.{text_or_empty}
use dtmc_base.NetProfile.{
  newline, ConcatFormat, ConcatFormatLaws, list_add, scan_token, next_token_nl, nth_token,
  copy_token, get_entry,
}

abbrev pub NoNewline : CString → Type 0
NoNewline [] = Unit
NoNewline (c ∷ s) = (c ≢ newline) × NoNewline s

-- A string that is one entry of a list: it is not empty and has no newline.
abbrev pub IsEntry : CString → Type 0
IsEntry [] = ⊥
IsEntry (c ∷ s) = NoNewline (c ∷ s)

abbrev pub AreEntries : List CString → Type 0
AreEntries [] = Unit
AreEntries (s ∷ entries) = IsEntry s × AreEntries entries

-- The calls of `list_add` for each of some strings.
unfoldable pub add_all : ConcatFormat → Option CString → List CString → Option CString
add_all concat_format list [] = list
add_all concat_format list (s ∷ entries) =
    add_all concat_format (list_add concat_format list s) entries

-- What stands behind the first entry.
joined : List CString → CString
joined [] = []
joined (s ∷ entries) = newline ∷ (s ++ joined entries)

behind : List CString → CString
behind [] = []
behind (s ∷ entries) = s ++ joined entries

add_all-some :
    {concat_format : ConcatFormat} (laws : ConcatFormatLaws concat_format) (t : CString)
    (entries : List CString)
    → add_all concat_format (some t) entries ≡ some (t ++ joined entries)
unfolding add_all joined list_add
add_all-some laws t [] = ap some (sym (append-nil t))
add_all-some {concat_format} laws t (s ∷ entries) =
    ap (λ list. add_all concat_format list entries) (laws.continues t (newline ∷ []) s)
    ∙ add_all-some laws (t ++ (newline ∷ s)) entries
    ∙ ap some (append_assoc t (newline ∷ s) (joined entries))

add_all-none :
    {concat_format : ConcatFormat} (laws : ConcatFormatLaws concat_format) (s : CString)
    (entries : List CString)
    → add_all concat_format none (s ∷ entries) ≡ some (s ++ joined entries)
unfolding add_all list_add
add_all-none {concat_format} laws s entries =
    ap (λ list. add_all concat_format list entries) (laws.begins (newline ∷ []) s)
    ∙ add_all-some laws s entries

scan_token-joined :
    (s : CString) (entries : List CString)
    → NoNewline s
    → scan_token (s ++ joined entries) ≡ (s, behind entries)
unfolding scan_token joined behind
scan_token-joined [] [] plain = refl
scan_token-joined [] (t ∷ entries) plain = refl
scan_token-joined (c ∷ s) entries plain =
    let e : (c == newline) ≡ false = ground arith in
    rw (e, scan_token-joined s entries plain.1) refl

nth_token-nil : (i : ℕ) → nth_token i [] ≡ none
unfolding nth_token next_token_nl
nth_token-nil zero = refl
nth_token-nil (suc i) = refl

nth_token-joined :
    (i : ℕ) (entries : List CString)
    → AreEntries entries
    → nth_token i (behind entries) ≡ get_elem? entries i
unfolding behind
nth_token-joined i [] are = nth_token-nil i
nth_token-joined i ([] ∷ entries) are = absurd are.0
nth_token-joined zero ((c ∷ s) ∷ entries) are =
    unfold nth_token next_token_nl in rw (scan_token-joined (c ∷ s) entries are.0) refl
nth_token-joined (suc i) ((c ∷ s) ∷ entries) are =
    let e : nth_token (suc i) ((c ∷ s) ++ joined entries) ≡ nth_token i (behind entries) =
      unfold nth_token next_token_nl in rw (scan_token-joined (c ∷ s) entries are.0) refl in
    e ∙ nth_token-joined i entries are.1

-- Where memory can be had, the token is copied.
copy_token_lem :
    (realloc : ℕ → Bool) (held : ℕ) (token : Option CString)
    → ((n : ℕ) → realloc n ≡ true)
    → (copy_token realloc held token).0 ≡ token
unfolding copy_token
copy_token_lem realloc held none room = refl
copy_token_lem realloc held (some token) room =
    let newcap : ℕ = if ltb (length token + 1) 64 then 64 else length token + 1 in
    ground (arith, room newcap)

get_entry-nth_token :
    (realloc : ℕ → Bool) (held : ℕ) (list : CString) (i : ℕ)
    → ((n : ℕ) → realloc n ≡ true)
    → i < 2 ^ 31
    → (get_entry realloc held (some list) i).0 ≡ nth_token i list
unfolding get_entry
get_entry-nth_token realloc held list i room small =
    let e : is_negative i ≡ false = ground arith in
    ap (λ b. (copy_token realloc held (if b then none else nth_token i list)).0) e
    ∙ copy_token_lem realloc held (nth_token i list) room

-- Reading a list by index gives the strings that were added to it, in order, and NULL behind the last
-- one, where no string is empty or has a newline, the index is below 2 ^ 31, `dtstr_concat_format`
-- appends with the separator and `realloc` succeeds.
pub get_entry-add_all :
    {concat_format : ConcatFormat} (laws : ConcatFormatLaws concat_format) (realloc : ℕ → Bool)
    (held : ℕ) (entries : List CString) (i : ℕ)
    → ((n : ℕ) → realloc n ≡ true)
    → AreEntries entries
    → i < 2 ^ 31
    → (get_entry realloc held (add_all concat_format none entries) i).0 ≡ get_elem? entries i
get_entry-add_all laws realloc held [] i room are small = unfold add_all get_entry in refl
get_entry-add_all laws realloc held (s ∷ entries) i room are small =
    ap (λ list. (get_entry realloc held list i).0) (add_all-none laws s entries)
    ∙ get_entry-nth_token realloc held (s ++ joined entries) i room small
    ∙ (unfold behind in nth_token-joined i (s ∷ entries) are)

-- A list that is NULL reads as an empty one.
pub get_entry-text_or_empty :
    (realloc : ℕ → Bool) (held : ℕ) (list : Option CString) (i : ℕ)
    → get_entry realloc held (some (text_or_empty list)) i ≡ get_entry realloc held list i
unfolding get_entry copy_token
get_entry-text_or_empty realloc held none i =
    let e : (if is_negative i then none else nth_token i []) ≡ none =
      ground (arith, nth_token-nil i) in
    ap (copy_token realloc held) e
get_entry-text_or_empty realloc held (some list) i = refl
