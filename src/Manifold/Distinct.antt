-- ===== src/Manifold/Distinct.antt =====
-- The tables of recipients of dtmanifold.c: no recipient stands in one twice.
use dtmc_base.Common.{
  ℕ, zero, suc, ◌≡◌, ◌≢◌, refl, List, [], ◌∷◌, none, ◌==◌, arith, if◌then◌else◌, get_or, set,
  replicate, Option-cases, Bool-cases, inl, inr, ok,
}
use dtmc_base.Manifold.{Pointer, Recipient, Subject, Manifold, CString, no_recipient, no_subject}
use dtmc_base.Manifold.Table.{
  first_index, is_recipient, is_free_recipient, is_other_recipient, find_or_add_recipient,
  find_or_add_subject, has_name, is_free_subject,
}
use dtmc_base.Manifold.Update.{
  update_first, set-first_index, get_or-set_self, set-set, first_index-lt,
}
use dtmc_base.Manifold.Lookup.{lookup_recipient, with_callback, new_recipient}

-- The entry of a table is the only one of its recipient. A free entry has no recipient.
abbrev pub HasDistinct : List Recipient → Type 0
HasDistinct [] = Unit
HasDistinct (r ∷ rs) = (lookup_recipient r.recipient_self rs ≡ none) × HasDistinct rs

abbrev pub AllDistinct : List Subject → Type 0
AllDistinct [] = Unit
AllDistinct (s ∷ ss) = HasDistinct s.recipients × AllDistinct ss

abbrev pub no_entry : Recipient → Recipient
no_entry r = no_recipient

lookup_recipient-zero : (rs : List Recipient) → lookup_recipient 0 rs ≡ none
unfolding lookup_recipient
lookup_recipient-zero [] = refl
lookup_recipient-zero (r ∷ rs) = ground (arith, lookup_recipient-zero rs)

pub lookup_recipient-remove :
    (self q : Pointer) (rs : List Recipient)
    → HasDistinct rs
    → lookup_recipient q (update_first (is_recipient self) no_entry rs)
      ≡ (if self == q then none else lookup_recipient q rs)
unfolding lookup_recipient
lookup_recipient-remove self q [] d = ground arith
lookup_recipient-remove self q (r ∷ rs) (d, ds) =
    ground (arith, lookup_recipient-remove self q rs ds)

pub HasDistinct-remove :
    (self : Pointer) (rs : List Recipient)
    → HasDistinct rs
    → HasDistinct (update_first (is_recipient self) no_entry rs)
HasDistinct-remove self [] d = tt
HasDistinct-remove self (r ∷ rs) (d, ds) = elim (Bool-cases (is_recipient self r)) [
  | inl here ↦ rw here (lookup_recipient-zero rs, ds)
  | inr later ↦ rw later (
    ground (arith, lookup_recipient-remove self r.recipient_self rs ds),
    HasDistinct-remove self rs ds,
  )
]

-- A recipient that the search does not find has no callback.
lookup_recipient-missing :
    (self : Pointer) (rs : List Recipient)
    → first_index (is_other_recipient self) rs ≡ none
    → lookup_recipient self rs ≡ none
unfolding lookup_recipient first_index
lookup_recipient-missing self [] h = refl
lookup_recipient-missing self (r ∷ rs) h = ground (arith, lookup_recipient-missing self rs)

-- A write of a callback adds no recipient, and a new entry only its own.
lookup_recipient-known_none :
    (self cb q : Pointer) (rs : List Recipient)
    → lookup_recipient q rs ≡ none
    → lookup_recipient q (update_first (is_other_recipient self) (with_callback cb) rs) ≡ none
unfolding lookup_recipient
lookup_recipient-known_none self cb q [] n = refl
lookup_recipient-known_none self cb q (r ∷ rs) n =
    ground (arith, lookup_recipient-known_none self cb q rs)

lookup_recipient-new_none :
    (self cb q : Pointer) (rs : List Recipient)
    → q ≢ self
    → lookup_recipient q rs ≡ none
    → lookup_recipient q (update_first is_free_recipient (new_recipient self cb) rs) ≡ none
unfolding lookup_recipient
lookup_recipient-new_none self cb q [] o n = refl
lookup_recipient-new_none self cb q (r ∷ rs) o n =
    ground (arith, lookup_recipient-new_none self cb q rs o)

HasDistinct-known :
    (self cb : Pointer) (rs : List Recipient)
    → HasDistinct rs
    → HasDistinct (update_first (is_other_recipient self) (with_callback cb) rs)
HasDistinct-known self cb [] d = tt
HasDistinct-known self cb (r ∷ rs) (d, ds) = elim (Bool-cases (is_other_recipient self r)) [
  | inl here ↦ rw here (d, ds)
  | inr later ↦
      rw later
        (lookup_recipient-known_none self cb r.recipient_self rs d, HasDistinct-known self cb rs ds)
]

HasDistinct-new :
    (self cb : Pointer) (rs : List Recipient)
    → HasDistinct rs
    → lookup_recipient self rs ≡ none
    → HasDistinct (update_first is_free_recipient (new_recipient self cb) rs)
unfolding lookup_recipient
HasDistinct-new self cb [] d n = tt
HasDistinct-new self cb (r ∷ rs) (d, ds) n =
    let n' : lookup_recipient self rs ≡ none = ground arith in
    elim (Bool-cases (is_free_recipient r)) [
      | inl here ↦ rw here (n', ds)
      | inr later ↦
          let o : r.recipient_self ≢ self = λ e. ground arith in
          rw later (
            lookup_recipient-new_none self cb r.recipient_self rs o d,
            HasDistinct-new self cb rs ds n',
          )
    ]

-- The table of a subject after a subscription.
pub HasDistinct-add :
    (rs rs' : List Recipient) (self cb : Pointer) (j : ℕ)
    → HasDistinct rs
    → find_or_add_recipient rs self ≡ ok (j, rs')
    → HasDistinct (set rs' j (with_callback cb (get_or rs' j no_recipient)))
HasDistinct-add rs rs' self cb j d e =
    elim (Option-cases (first_index (is_other_recipient self) rs)) [
      | inr (i, known) ↦
          let (ei, er) : (i ≡ j) × (rs ≡ rs') = unfold find_or_add_recipient in ground arith in
          rw
            (
              ← ei,
              ← er,
              set-first_index (is_other_recipient self) (with_callback cb) no_recipient rs i known,
            )
            (HasDistinct-known self cb rs d)
      | inl new ↦ elim (Option-cases (first_index is_free_recipient rs)) [
        | inl full ↦ absurd (unfold find_or_add_recipient in ground arith)
        | inr (i, room) ↦
            let named : Recipient = record (get_or rs i no_recipient) { recipient_self = self } in
            let (ei, er) : (i ≡ j) × (set rs i named ≡ rs') =
              unfold find_or_add_recipient in ground arith in
            rw
              (
                ← ei,
                ← er,
                get_or-set_self rs i named no_recipient
                    (first_index-lt is_free_recipient rs i room),
                set-set,
                set-first_index is_free_recipient (new_recipient self cb) no_recipient rs i room,
              )
              (HasDistinct-new self cb rs d (lookup_recipient-missing self rs new))
      ]
    ]

pub AllDistinct-set :
    (ss : List Subject) (i : ℕ) (s : Subject)
    → AllDistinct ss
    → HasDistinct s.recipients
    → AllDistinct (set ss i s)
AllDistinct-set [] i s d n = tt
AllDistinct-set (x ∷ ss) zero s d n = (n, d.1)
AllDistinct-set (x ∷ ss) (suc i) s d n = (d.0, AllDistinct-set ss i s d.1 n)

pub free-HasDistinct : (n : ℕ) → HasDistinct (replicate n no_recipient)
free-HasDistinct zero = tt
free-HasDistinct (suc n) = (lookup_recipient-zero (replicate n no_recipient), free-HasDistinct n)

pub AllDistinct-get :
    (ss : List Subject) (i : ℕ) → AllDistinct ss → HasDistinct (get_or ss i no_subject).recipients
AllDistinct-get [] i d = free-HasDistinct 10
AllDistinct-get (x ∷ ss) zero d = d.0
AllDistinct-get (x ∷ ss) (suc i) d = AllDistinct-get ss i d.1

pub AllDistinct-find_or_add_subject :
    (m m' : Manifold) (name : CString) (i : ℕ)
    → AllDistinct m.subjects
    → find_or_add_subject m name ≡ ok (i, m')
    → AllDistinct m'.subjects
AllDistinct-find_or_add_subject m m' name i d e =
    elim (Option-cases (first_index (has_name name) m.subjects)) [
      | inr (k, known) ↦ let em : m ≡ m' = unfold find_or_add_subject in ground arith in rw (← em) d
      | inl new ↦ elim (Option-cases (first_index is_free_subject m.subjects)) [
        | inl full ↦ absurd (unfold find_or_add_subject in ground arith)
        | inr (k, room) ↦
            let named : Subject = record (get_or m.subjects k no_subject) { subject_name = name } in
            let es : set m.subjects k named ≡ m'.subjects =
              unfold find_or_add_subject in ground arith in
            rw (← es) (AllDistinct-set m.subjects k named d (AllDistinct-get m.subjects k d))
      ]
    ]
