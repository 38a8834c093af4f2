-- ===== src/NetProfile/Report.antt =====
-- What the text of a profile is, and that it stays inside its buffer.
use dtmc_base.Common.{
  ℕ, zero, suc, ◌-◌, ◌≤◌, ◌≡◌, ◌∙◌, refl, ap, sym, [], ◌∷◌, ◌++◌, Option, none, some, length, take,
  true, false, Bool, ◌==◌, leb, if◌then◌else◌, arith, length-take, append_assoc, append-nil,
  Bool-cases, inl, inr, min,
}
use dtmc_base.Manifold.{CString}
use dtmc_base.NetProfile.{NetProfile, newline, next_token_nl, scan_token}
use dtmc_base.NetProfile.Text.{
  buf_append, append_tokens, heading, append_list_line, trim, names, versions, urls, roles,
  subscriptions, publications, states, empty_text, append_if_unused, to_string,
}

-- The entries of a list with commas between them: a newline becomes a comma and a space, but for one at
-- the end.
separated : CString → CString → CString
separated [] rest = []
separated (c ∷ p) rest = 44 ∷ 32 ∷ rest

pub commas : CString → CString
commas [] = []
commas (c ∷ p) = let rest = commas p in if c == newline then separated p rest else c ∷ rest

-- The line of a list that is not empty.
pub line : CString → Option CString → CString
line label none = []
line label (some []) = []
line label (some (c ∷ list)) = heading label ++ (commas (c ∷ list) ++ (newline ∷ []))

-- The whole text of a profile.
pub report : NetProfile → CString
report self =
    (((((line names self.name_list ++ line versions self.version_list) ++ line urls self.url_list)
          ++ line roles self.role_list)
        ++ line subscriptions self.subscription_list)
      ++ line publications self.publication_list)
    ++ line states self.state_list

pub or_empty : CString → CString
or_empty [] = empty_text
or_empty (c ∷ text) = c ∷ text

take-append : (n : ℕ) (xs ys : CString) → take n (xs ++ ys) ≡ take n xs ++ take (n - length xs) ys
take-append zero [] ys = refl
take-append (suc n) [] ys = let e : suc n - length {A = ℕ} [] ≡ suc n = omega arith in rw e refl
take-append zero (x ∷ xs) ys = let e : zero - length (x ∷ xs) ≡ zero = omega arith in rw e refl
take-append (suc n) (x ∷ xs) ys =
    let e : suc n - length (x ∷ xs) ≡ n - length xs = omega arith in
    rw e (ap (◌∷◌ x) (take-append n xs ys))

take-nil : (n : ℕ) → take {A = ℕ} n [] ≡ []
take-nil zero = refl
take-nil (suc n) = refl

after : CString → CString
after p = separated p (commas p)

commas-scan_token : (p : CString) → commas p ≡ (scan_token p).0 ++ after (scan_token p).1
unfolding commas scan_token after separated
commas-scan_token [] = refl
commas-scan_token (c ∷ p) = elim (Bool-cases (c == newline)) [
  | inl e ↦ rw e refl
  | inr e ↦ rw e (ap (◌∷◌ c) (commas-scan_token p))
]

length-scan_token : (p : CString) → length (scan_token p).1 ≤ length p
unfolding scan_token
length-scan_token [] = omega arith
length-scan_token (c ∷ p) = elim (Bool-cases (c == newline)) [
  | inl e ↦ rw e (omega arith)
  | inr e ↦ rw e (omega (arith, length-scan_token p))
]

shorter : (c : ℕ) (p : CString) → length (scan_token (c ∷ p)).1 ≤ length p
unfolding scan_token
shorter c p = elim (Bool-cases (c == newline)) [
  | inl e ↦ rw e (omega arith)
  | inr e ↦ rw e (length-scan_token p)
]

-- In a buffer of n + 1 bytes with a text that is cut off there.
module _ (n : ℕ) where
  buf_append_lem : (t text : CString) → buf_append (suc n) (take n t) text ≡ take n (t ++ text)
  unfolding buf_append
  buf_append_lem t text =
      let l : length (take n t) ≡ min n (length t) = length-take n t in
      let e : leb (suc n) (length (take n t)) ≡ false = ground (arith, l) in
      let e' : suc n - length (take n t) - 1 ≡ n - length t = omega (arith, l) in
      rw (e, e') (sym (take-append n t text))

  append_tokens_lem :
      (fuel : ℕ) (first : Bool) (t p : CString)
      → length p ≤ fuel
      → append_tokens (suc n) fuel first (take n t) p
        ≡ take n (t ++ (if first then commas p else after p))
  unfolding append_tokens next_token_nl commas after separated
  append_tokens_lem zero true t [] enough = ap (take n) (sym (append-nil t))
  append_tokens_lem zero false t [] enough = ap (take n) (sym (append-nil t))
  append_tokens_lem zero first t (c ∷ p) enough = absurd (omega arith)
  append_tokens_lem (suc fuel) true t [] enough = ap (take n) (sym (append-nil t))
  append_tokens_lem (suc fuel) false t [] enough = ap (take n) (sym (append-nil t))
  append_tokens_lem (suc fuel) true t (c ∷ p) enough =
      let token : CString = (scan_token (c ∷ p)).0 in
      let rest : CString = (scan_token (c ∷ p)).1 in
      ap (λ out. append_tokens (suc n) fuel false out rest) (buf_append_lem t token)
      ∙ append_tokens_lem fuel false (t ++ token) rest (omega (arith, shorter c p))
      ∙ ap (take n)
          (append_assoc t token (after rest) ∙ ap (λ l. t ++ l) (sym (commas-scan_token (c ∷ p))))
  append_tokens_lem (suc fuel) false t (c ∷ p) enough =
      let token : CString = (scan_token (c ∷ p)).0 in
      let rest : CString = (scan_token (c ∷ p)).1 in
      let comma : CString = 44 ∷ 32 ∷ [] in
      ap (λ out. append_tokens (suc n) fuel false (buf_append (suc n) out token) rest)
        (buf_append_lem t comma)
      ∙ ap (λ out. append_tokens (suc n) fuel false out rest) (buf_append_lem (t ++ comma) token)
      ∙ append_tokens_lem fuel false ((t ++ comma) ++ token) rest (omega (arith, shorter c p))
      ∙ ap (take n) (
          append_assoc (t ++ comma) token (after rest)
          ∙ ap (λ l. (t ++ comma) ++ l) (sym (commas-scan_token (c ∷ p)))
          ∙ append_assoc t comma (commas (c ∷ p)))

  append_list_line_lem :
      (t label : CString) (list : Option CString)
      → append_list_line (suc n) (take n t) label list ≡ take n (t ++ line label list)
  unfolding append_list_line line
  append_list_line_lem t label none = ap (take n) (sym (append-nil t))
  append_list_line_lem t label (some []) = ap (take n) (sym (append-nil t))
  append_list_line_lem t label (some (c ∷ list)) =
      let h : CString = heading label in
      let cs : CString = commas (c ∷ list) in
      ap
        (λ out.
          buf_append (suc n) (append_tokens (suc n) (length (c ∷ list)) true out (c ∷ list))
            (newline ∷ []))
        (buf_append_lem t h)
      ∙ ap (λ out. buf_append (suc n) out (newline ∷ []))
          (append_tokens_lem (length (c ∷ list)) true (t ++ h) (c ∷ list) (omega arith))
      ∙ buf_append_lem ((t ++ h) ++ cs) (newline ∷ [])
      ∙ ap (take n)
          (append_assoc (t ++ h) cs (newline ∷ []) ∙ append_assoc t h (cs ++ (newline ∷ [])))

append_if_unused_lem :
    (n : ℕ) (text : CString) → append_if_unused (suc n) (take n text) ≡ take n (or_empty text)
unfolding append_if_unused or_empty
append_if_unused_lem n [] =
    ap (append_if_unused (suc n)) (take-nil n)
    ∙ ap (λ out. buf_append (suc n) out empty_text) (sym (take-nil n))
    ∙ buf_append_lem n [] empty_text
append_if_unused_lem zero (c ∷ text) = buf_append_lem zero [] empty_text
append_if_unused_lem (suc n) (c ∷ text) = refl

-- The text that is written into a buffer of one byte or more is the report of the profile, or "(empty)" and
-- a newline where this has no lines, cut off so that a NUL fits behind it, and then without a newline at its
-- end.
pub to_string-eq-report :
    (self : NetProfile) (n : ℕ)
    → to_string self (suc n) ≡ some (trim (take n (or_empty (report self))))
unfolding to_string report
to_string-eq-report self n =
    let l = append_list_line (suc n) in
    let line1 = line names self.name_list in
    let line2 = line versions self.version_list in
    let line3 = line urls self.url_list in
    let line4 = line roles self.role_list in
    let line5 = line subscriptions self.subscription_list in
    let line6 = line publications self.publication_list in
    let e1 : l [] names self.name_list ≡ take n line1 =
      ap (λ out. l out names self.name_list) (sym (take-nil n))
      ∙ append_list_line_lem n [] names self.name_list in
    let e2 : l (l [] names self.name_list) versions self.version_list ≡ take n (line1 ++ line2) =
      ap (λ out. l out versions self.version_list) e1
      ∙ append_list_line_lem n line1 versions self.version_list in
    let e3 =
      ap (λ out. l out urls self.url_list) e2
      ∙ append_list_line_lem n (line1 ++ line2) urls self.url_list in
    let e4 =
      ap (λ out. l out roles self.role_list) e3
      ∙ append_list_line_lem n ((line1 ++ line2) ++ line3) roles self.role_list in
    let e5 =
      ap (λ out. l out subscriptions self.subscription_list) e4
      ∙ append_list_line_lem n (((line1 ++ line2) ++ line3) ++ line4) subscriptions
          self.subscription_list in
    let e6 =
      ap (λ out. l out publications self.publication_list) e5
      ∙ append_list_line_lem n ((((line1 ++ line2) ++ line3) ++ line4) ++ line5) publications
          self.publication_list in
    let e7 =
      ap (λ out. l out states self.state_list) e6
      ∙ append_list_line_lem n (((((line1 ++ line2) ++ line3) ++ line4) ++ line5) ++ line6) states
          self.state_list in
    ap (λ out. some (trim (append_if_unused (suc n) out))) e7
    ∙ ap (λ out. some (trim out)) (append_if_unused_lem n (report self))
