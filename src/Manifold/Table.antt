-- ===== src/Manifold/Table.antt =====
-- The tables of subjects and recipients: `search_subject`, `search_recipient`,
-- `find_or_add_subject`, `find_or_add_recipient`, `subject_recipient_count`. A pointer into a table
-- is an index.
use mathlib.Core.Option
use dtmc_base.Common.{
  ℕ, suc, ◌+◌, List, [], ◌∷◌, Option, none, some, Dterr, range, overflow, Bool, not, ◌&&◌, ◌==◌,
  leb, length, get_or, set, if◌then◌else◌, Result, ok, err,
}
use dtmc_base.Manifold.{
  CString, Pointer, Recipient, Subject, Manifold, no_recipient, no_subject, subject_name_cap,
  string_eq, is_empty,
}

-- `validate_subject_name_cstr`, and `validate_subject_name_param` around it.
unfoldable pub validate_subject_name : CString → Dterr
validate_subject_name name = if leb subject_name_cap (length name) then some range else none

-- The loops over a table stop at the first entry that passes their test.
unfoldable pub first_index {ℓ} : {A : Type ℓ} → (A → Bool) → List A → Option ℕ
first_index test [] = none
first_index test (x ∷ xs) =
    let later = Option.map suc (first_index test xs) in if test x then some 0 else later

abbrev pub has_name : CString → Subject → Bool
has_name name s = not (is_empty s.subject_name) && string_eq s.subject_name name

abbrev pub is_free_subject : Subject → Bool
is_free_subject s = is_empty s.subject_name

abbrev pub is_recipient : Pointer → Recipient → Bool
is_recipient self r = r.recipient_self == self

abbrev pub is_free_recipient : Recipient → Bool
is_free_recipient r = r.recipient_self == 0

-- `search_subject` behind its checks.
abbrev pub search_subject : Manifold → CString → Option ℕ
search_subject m name = first_index (has_name name) m.subjects

-- `search_recipient`.
abbrev pub search_recipient : Subject → Pointer → Option ℕ
search_recipient s self = first_index (is_recipient self) s.recipients

-- `find_or_add_subject`: the index of the subject, and the router. The loop's `free_subject` is
-- read only where no subject has the name, so it is the first free entry of the whole table.
unfoldable pub find_or_add_subject : Manifold → CString → Result (ℕ × Manifold)
find_or_add_subject m name = elim (validate_subject_name name) [
  | some e ↦ err e
  | none ↦ elim (search_subject m name) [
    | some i ↦ ok (i, m)
    | none ↦ elim (first_index is_free_subject m.subjects) [
      | none ↦ err overflow
      | some i ↦ ok (
        i,
        record m {
          subjects =
              set m.subjects i (record (get_or m.subjects i no_subject) { subject_name = name });
        },
      )
    ]
  ]
]

-- The test of the second branch of its loop.
abbrev pub is_other_recipient : Pointer → Recipient → Bool
is_other_recipient self r = not (is_free_recipient r) && is_recipient self r

-- `find_or_add_recipient`, on the recipients of the subject.
unfoldable pub find_or_add_recipient : List Recipient → Pointer → Result (ℕ × List Recipient)
find_or_add_recipient rs self = elim (first_index (is_other_recipient self) rs) [
  | some i ↦ ok (i, rs)
  | none ↦ elim (first_index is_free_recipient rs) [
    | none ↦ err overflow
    | some i ↦ ok (i, set rs i (record (get_or rs i no_recipient) { recipient_self = self }))
  ]
]

-- `subject_recipient_count`.
unfoldable pub recipient_count : List Recipient → ℕ
recipient_count [] = 0
recipient_count (r ∷ rs) = (if not (is_free_recipient r) then 1 else 0) + recipient_count rs
