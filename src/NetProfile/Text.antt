-- ===== src/NetProfile/Text.antt =====
-- The text of a profile, `dtnetprofile_to_string` of dtnetprofile.c.
use dtmc_base.Common.{
  ℕ, zero, suc, ◌-◌, [], ◌∷◌, ◌++◌, Option, none, some, length, take, true, false, Bool, ◌==◌, leb,
  if◌then◌else◌,
}
use dtmc_base.Manifold.{CString}
use dtmc_base.Packing.{text_or_empty}
use dtmc_base.NetProfile.{NetProfile, newline, list_is_empty, next_token_nl}

-- `buf_vappend` and `buf_append`, for a text that is formatted: `vsnprintf` writes what there is space for
-- in front of a NUL. What is written so far stands for the buffer; its length is `used`.
unfoldable pub buf_append : ℕ → CString → CString → CString
buf_append out_size out text =
    if leb out_size (length out)
    then out
    else let space = out_size - length out in out ++ take (space - 1) text

-- The loop of `append_list_line`, on fuel.
unfoldable pub append_tokens : ℕ → ℕ → Bool → CString → CString → CString
append_tokens out_size zero first out p = out
append_tokens out_size (suc fuel) first out p = elim (next_token_nl p) [
  | none ↦ out
  | some (token, rest) ↦
      let out' = if first then out else buf_append out_size out (44 ∷ 32 ∷ []) in
      append_tokens out_size fuel false (buf_append out_size out' token) rest
]

abbrev pub heading : CString → CString
heading label = 32 ∷ 32 ∷ 32 ∷ 32 ∷ (label ++ (58 ∷ 32 ∷ []))

-- A token takes a byte at least, so the length of the list is enough fuel.
unfoldable pub append_list_line : ℕ → CString → CString → Option CString → CString
append_list_line out_size out label list =
    let text = text_or_empty list in
    let begun = buf_append out_size out (heading label) in
    let listed = append_tokens out_size (length text) true begun text in
    if list_is_empty list then out else buf_append out_size listed (newline ∷ [])

-- The final newline is cut off.
unfoldable pub trim : CString → CString
trim [] = []
trim (c ∷ []) = if c == newline then [] else c ∷ []
trim (c ∷ d ∷ text) = c ∷ trim (d ∷ text)

abbrev pub names : CString
names = 110 ∷ 97 ∷ 109 ∷ 101 ∷ 115 ∷ []

abbrev pub versions : CString
versions = 118 ∷ 101 ∷ 114 ∷ 115 ∷ 105 ∷ 111 ∷ 110 ∷ 115 ∷ []

abbrev pub urls : CString
urls = 117 ∷ 114 ∷ 108 ∷ 115 ∷ []

abbrev pub roles : CString
roles = 114 ∷ 111 ∷ 108 ∷ 101 ∷ 115 ∷ []

abbrev pub subscriptions : CString
subscriptions = 115 ∷ 117 ∷ 98 ∷ 115 ∷ 99 ∷ 114 ∷ 105 ∷ 112 ∷ 116 ∷ 105 ∷ 111 ∷ 110 ∷ 115 ∷ []

abbrev pub publications : CString
publications = 112 ∷ 117 ∷ 98 ∷ 108 ∷ 105 ∷ 99 ∷ 97 ∷ 116 ∷ 105 ∷ 111 ∷ 110 ∷ 115 ∷ []

abbrev pub states : CString
states = 115 ∷ 116 ∷ 97 ∷ 116 ∷ 101 ∷ 115 ∷ []

-- "(empty)" and a newline.
abbrev pub empty_text : CString
empty_text = 40 ∷ 101 ∷ 109 ∷ 112 ∷ 116 ∷ 121 ∷ 41 ∷ 10 ∷ []

unfoldable pub append_if_unused : ℕ → CString → CString
append_if_unused out_size [] = buf_append out_size [] empty_text
append_if_unused out_size (c ∷ out) = c ∷ out

-- The text in front of the NUL; `none` where nothing is written.
unfoldable pub to_string : NetProfile → ℕ → Option CString
to_string self zero = none
to_string self (suc n) =
    let line = append_list_line (suc n) in
    let out1 = line [] names self.name_list in
    let out2 = line out1 versions self.version_list in
    let out3 = line out2 urls self.url_list in
    let out4 = line out3 roles self.role_list in
    let out5 = line out4 subscriptions self.subscription_list in
    let out6 = line out5 publications self.publication_list in
    let out7 = line out6 states self.state_list in some (trim (append_if_unused (suc n) out7))
