-- ===== src/Manifold/Room.antt =====
-- When `dtmanifold_subscribe` succeeds.
use dtmc_base.Common.{
  ℕ, zero, suc, ◌<◌, ◌≡◌, ◌≢◌, refl, List, [], ◌∷◌, none, ok, arith, inl, inr, Option-cases, get_or,
  length, fail_if, ◌or_else◌, argument_null, set, ◌==◌,
}
use dtmc_base.Manifold.{
  CString, Pointer, Recipient, Subject, Manifold, System, no_recipient, no_subject,
}
use dtmc_base.Manifold.Table.{
  first_index, has_name, is_free_subject, is_free_recipient, is_other_recipient,
  find_or_add_subject, find_or_add_recipient, validate_subject_name,
}
use dtmc_base.Manifold.Api.{add_subscription, subscribe, acquire}
use dtmc_base.Manifold.Update.{first_index-lt, get_or-set_self}

-- Every subject entry has a free recipient entry.
abbrev pub HasRoom : List Subject → Type 0
HasRoom [] = Unit
HasRoom (s ∷ ss) = (first_index is_free_recipient s.recipients ≢ none) × HasRoom ss

get_or-HasRoom :
    (ss : List Subject) (i : ℕ)
    → HasRoom ss
    → first_index is_free_recipient (get_or ss i no_subject).recipients ≢ none
get_or-HasRoom [] i h = unfold first_index in ground arith
get_or-HasRoom (s ∷ ss) zero h = h.0
get_or-HasRoom (s ∷ ss) (suc i) h = get_or-HasRoom ss i (h.1)

find_or_add_recipient_ok :
    (rs : List Recipient) (self : Pointer)
    → first_index is_free_recipient rs ≢ none
    → (j : ℕ) × (rs' : List Recipient) × (find_or_add_recipient rs self ≡ ok (j, rs'))
unfolding find_or_add_recipient
find_or_add_recipient_ok rs self room =
    elim (Option-cases (first_index (is_other_recipient self) rs)) [
      | inr (i, known) ↦ (i, rs, rw (find_or_add_recipient, known) refl)
      | inl new ↦ elim (Option-cases (first_index is_free_recipient rs)) [
        | inl full ↦ absurd (room full)
        | inr (i, free) ↦ (
          i,
          set rs i (record (get_or rs i no_recipient) { recipient_self = self }),
          rw (find_or_add_recipient, new, free) refl,
        )
      ]
    ]

-- The subject that is found or added has a free recipient entry.
find_or_add_subject_ok :
    (m : Manifold) (name : CString)
    → length name < 65
    → first_index is_free_subject m.subjects ≢ none
    → HasRoom m.subjects
    → (i : ℕ) × (m' : Manifold) × (find_or_add_subject m name ≡ ok (i, m'))
      × (first_index is_free_recipient (get_or m'.subjects i no_subject).recipients ≢ none)
find_or_add_subject_ok m name short free room =
    elim (Option-cases (first_index (has_name name) m.subjects)) [
      | inr (i, known) ↦ (
        i,
        m,
        unfold find_or_add_subject in unfold validate_subject_name in ground arith,
        get_or-HasRoom m.subjects i room,
      )
      | inl new ↦ elim (Option-cases (first_index is_free_subject m.subjects)) [
        | inl full ↦ absurd (free full)
        | inr (i, at) ↦
            let named : Subject = record (get_or m.subjects i no_subject) { subject_name = name } in
            (
              i,
              record m { subjects = set m.subjects i named },
              unfold find_or_add_subject in unfold validate_subject_name in ground arith,
              rw
                  (get_or-set_self m.subjects i named no_subject
                    (first_index-lt is_free_subject m.subjects i at))
                  (get_or-HasRoom m.subjects i room),
            )
      ]
    ]

module _ {W : Type 0} (system : System W) where
  -- `subscribe` succeeds for a recipient and a callback that are not NULL and a name of at most 64
  -- bytes, where the semaphore is there to be taken, a subject entry is free and every subject entry
  -- has a free recipient entry.
  pub subscribe_ok :
      (m : Manifold) (name : CString) (self cb : Pointer) (w : W)
      → self ≢ 0
      → cb ≢ 0
      → length name < 65
      → (acquire system m w).0 ≡ none
      → first_index is_free_subject m.subjects ≢ none
      → HasRoom m.subjects
      → (subscribe system m name self cb w).0 ≡ none
  unfolding subscribe add_subscription
  subscribe_ok m name self cb w s c short taken free room =
      let (i, m', found, place) = find_or_add_subject_ok m name short free room in
      let (j, rs, added) =
        find_or_add_recipient_ok (get_or m'.subjects i no_subject).recipients self place in
      let valid : (fail_if (self == 0) argument_null
            or_else fail_if (cb == 0) argument_null
            or_else validate_subject_name name)
          ≡ none =
        unfold validate_subject_name in ground arith in
      rw (subscribe, valid, taken, add_subscription, found, added) refl
