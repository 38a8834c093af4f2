-- ===== src/Manifold/Subscriptions.antt =====
-- The two steps of `dtmanifold_subscribe` on the table of subjects.
use mathlib.Core.Option
use dtmc_base.Common.{
  zero, ◌||◌, ok, Option-cases, ℕ, suc, ◌≡◌, ◌∙◌, refl, sym, List, [], ◌∷◌, Option, none, some,
  arith, true, false, ◌==◌, if◌then◌else◌, get_or, set, inl, inr, Bool-cases, not,
}
use dtmc_base.Manifold.{
  CString, Pointer, Recipient, Subject, Manifold, string_eq, is_empty, no_subject,
}
use dtmc_base.Manifold.Table.{
  first_index, has_name, is_free_subject, find_or_add_subject, recipient_count,
}
use dtmc_base.Manifold.Update.{
  first_index-passes, set-first_index, first_index-lt, get_or-set_self, set-set,
}
use dtmc_base.Manifold.Lookup.{
  lookup, lookup_recipient, lookup-known, lookup-new, with_recipients, new_subject,
}

-- A subject entry that is free has no recipient.
abbrev pub HasCleanSlots : List Subject → Type 0
HasCleanSlots [] = Unit
HasCleanSlots (s ∷ ss) =
    ((not (is_empty s.subject_name) || recipient_count s.recipients == 0) ≡ true) × HasCleanSlots ss

abbrev pub AtFound : CString → Pointer → List Subject → Subject → Option ℕ → Type 0
AtFound name q ss d none = lookup name q ss ≡ none
AtFound name q ss d (some i) = lookup name q ss ≡ lookup_recipient q (get_or ss i d).recipients

AtFound-cons :
    (name : CString) (q : Pointer) (s : Subject) (ss : List Subject) (d : Subject) (o : Option ℕ)
    → has_name name s ≡ false
    → AtFound name q ss d o
    → AtFound name q (s ∷ ss) d (Option.map suc o)
unfolding lookup
AtFound-cons name q s ss d none h a = rw h a
AtFound-cons name q s ss d (some i) h a = rw h a

-- The subject that the search finds is the one that messages on the name go to.
pub lookup_found :
    (name : CString) (q : Pointer) (ss : List Subject) (d : Subject)
    → AtFound name q ss d (first_index (has_name name) ss)
unfolding lookup first_index
lookup_found name q [] d = refl
lookup_found name q (s ∷ ss) d = elim (Bool-cases (has_name name s)) [
  | inl here ↦ rw here (rw here)
  | inr later ↦ rw later (AtFound-cons name q s ss d _ later (lookup_found name q ss d))
]

no_recipients-lookup :
    (q : Pointer) (rs : List Recipient) → recipient_count rs ≡ 0 → lookup_recipient q rs ≡ none
unfolding recipient_count lookup_recipient
no_recipients-lookup q [] z = refl
no_recipients-lookup q (r ∷ rs) z = ground (arith, no_recipients-lookup q rs)

abbrev CleanAt : Pointer → List Subject → Subject → Option ℕ → Type 0
CleanAt q ss d none = Unit
CleanAt q ss d (some i) = lookup_recipient q (get_or ss i d).recipients ≡ none

CleanAt-cons :
    (q : Pointer) (s : Subject) (ss : List Subject) (d : Subject) (o : Option ℕ)
    → CleanAt q ss d o
    → CleanAt q (s ∷ ss) d (Option.map suc o)
CleanAt-cons q s ss d none a = tt
CleanAt-cons q s ss d (some i) a = a

free_is_clean :
    (q : Pointer) (ss : List Subject) (d : Subject)
    → HasCleanSlots ss
    → CleanAt q ss d (first_index is_free_subject ss)
unfolding first_index
free_is_clean q [] d c = tt
free_is_clean q (s ∷ ss) d c = elim (Bool-cases (is_free_subject s)) [
  | inl here ↦ rw here (no_recipients-lookup q s.recipients (ground arith))
  | inr later ↦ rw later (CleanAt-cons q s ss d _ (free_is_clean q ss d (c.1)))
]

-- The write of a subject's recipients, after `find_or_add_subject`.
pub lookup-write :
    (m m' : Manifold) (name n : CString) (q : Pointer) (i : ℕ) (rs : List Recipient)
    → is_empty name ≡ false
    → HasCleanSlots m.subjects
    → find_or_add_subject m name ≡ ok (i, m')
    → (lookup n q (set m'.subjects i (with_recipients rs (get_or m'.subjects i no_subject)))
        ≡ (if string_eq name n then lookup_recipient q rs else lookup n q m.subjects))
      × (lookup_recipient q (get_or m'.subjects i no_subject).recipients ≡ lookup name q m.subjects)
lookup-write m m' name n q i rs z c e =
    elim (Option-cases (first_index (has_name name) m.subjects)) [
      | inr (k, known) ↦
          let (ek, em) : (k ≡ i) × (m ≡ m') = unfold find_or_add_subject in ground arith in
          (
            rw
                (
                  ← ek,
                  ← em,
                  set-first_index (has_name name) (with_recipients rs) no_subject m.subjects k
                      known,
                )
                (lookup-known name n q rs m.subjects (ground arith)),
            rw (← ek, ← em) (sym (rw known at (lookup_found name q m.subjects no_subject))),
          )
      | inl new ↦ elim (Option-cases (first_index is_free_subject m.subjects)) [
        | inl full ↦ absurd (unfold find_or_add_subject in ground arith)
        | inr (k, room) ↦
            let named : Subject = record (get_or m.subjects k no_subject) { subject_name = name } in
            let added : List Subject = set m.subjects k named in
            let (ek, es) : (k ≡ i) × (added ≡ m'.subjects) =
              unfold find_or_add_subject in ground arith in
            let at : get_or added k no_subject ≡ named =
              get_or-set_self m.subjects k named no_subject
                (first_index-lt is_free_subject m.subjects k room) in
            (
              rw
                  (
                    ← ek,
                    ← es,
                    at,
                    set-set,
                    set-first_index is_free_subject (new_subject name rs) no_subject m.subjects k
                        room,
                  )
                  (lookup-new name n q rs m.subjects z new (ground arith)),
              rw (← ek, ← es, at)
                  (rw room at (free_is_clean q m.subjects no_subject c)
                    ∙ sym (rw new at (lookup_found name q m.subjects no_subject))),
            )
      ]
    ]

pub HasCleanSlots-set :
    (ss : List Subject) (i : ℕ) (s : Subject)
    → HasCleanSlots ss
    → is_empty s.subject_name ≡ false
    → HasCleanSlots (set ss i s)
HasCleanSlots-set [] i s c n = tt
HasCleanSlots-set (x ∷ ss) zero s c n = (ground arith, c.1)
HasCleanSlots-set (x ∷ ss) (suc i) s c n = (c.0, HasCleanSlots-set ss i s (c.1) n)

pub find_or_add_subject-names :
    (m m' : Manifold) (name : CString) (i : ℕ)
    → is_empty name ≡ false
    → HasCleanSlots m.subjects
    → find_or_add_subject m name ≡ ok (i, m')
    → HasCleanSlots m'.subjects × (is_empty (get_or m'.subjects i no_subject).subject_name ≡ false)
find_or_add_subject-names m m' name i z c e =
    elim (Option-cases (first_index (has_name name) m.subjects)) [
      | inr (k, known) ↦
          let (ek, em) : (k ≡ i) × (m ≡ m') = unfold find_or_add_subject in ground arith in
          rw (← ek, ← em)
            (c, ground (arith, first_index-passes (has_name name) no_subject m.subjects k known))
      | inl new ↦ elim (Option-cases (first_index is_free_subject m.subjects)) [
        | inl full ↦ absurd (unfold find_or_add_subject in ground arith)
        | inr (k, room) ↦
            let named : Subject = record (get_or m.subjects k no_subject) { subject_name = name } in
            let added : List Subject = set m.subjects k named in
            let (ek, es) : (k ≡ i) × (added ≡ m'.subjects) =
              unfold find_or_add_subject in ground arith in
            rw
              (
                ← ek,
                ← es,
                get_or-set_self m.subjects k named no_subject
                    (first_index-lt is_free_subject m.subjects k room),
              )
              (HasCleanSlots-set m.subjects k named c z, z)
      ]
    ]
