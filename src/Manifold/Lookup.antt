-- ===== src/Manifold/Lookup.antt =====
-- The router as a map from a subject name and a recipient to a callback.
use dtmc_base.Common.{
  inl, inr, get_or, set, false, true, ℕ, ok, ◌↔◌, Option-cases, ◌≡◌, ◌≢◌, refl, List, [], ◌∷◌,
  Option, none, some, arith, if◌then◌else◌, ◌==◌,
}
use dtmc_base.Manifold.{no_recipient, is_empty, string_eq, CString, Pointer, Recipient, Subject}
use dtmc_base.Manifold.Table.{
  is_free_subject, find_or_add_recipient, first_index, has_name, is_free_recipient,
  is_other_recipient,
}
use dtmc_base.Manifold.Update.{
  first_index-lt, get_or-set_self, set-set, set-first_index, update_first,
}

-- The callback of a recipient in a table of recipients.
unfoldable pub lookup_recipient : Pointer → List Recipient → Option Pointer
lookup_recipient q [] = none
lookup_recipient q (r ∷ rs) =
    let later = lookup_recipient q rs in
    if is_other_recipient q r then some r.newbuffer_callback else later

-- The callback that a message on the subject goes to for the recipient.
unfoldable pub lookup : CString → Pointer → List Subject → Option Pointer
lookup name q [] = none
lookup name q (s ∷ ss) =
    let later = lookup name q ss in
    if has_name name s then lookup_recipient q s.recipients else later

abbrev pub with_callback : Pointer → Recipient → Recipient
with_callback cb r = record r { newbuffer_callback = cb }

abbrev pub new_recipient : Pointer → Pointer → Recipient → Recipient
new_recipient self cb r = record r { recipient_self = self; newbuffer_callback = cb }

lookup_recipient-known :
    (self cb q : Pointer) (rs : List Recipient)
    → first_index (is_other_recipient self) rs ≢ none
    → lookup_recipient q (update_first (is_other_recipient self) (with_callback cb) rs)
      ≡ (if self == q then some cb else lookup_recipient q rs)
unfolding lookup_recipient first_index
lookup_recipient-known self cb q [] h = absurd (h refl)
lookup_recipient-known self cb q (r ∷ rs) h = ground (arith, lookup_recipient-known self cb q rs)

lookup_recipient-new :
    (self cb q : Pointer) (rs : List Recipient)
    → self ≢ 0
    → first_index (is_other_recipient self) rs ≡ none
    → first_index is_free_recipient rs ≢ none
    → lookup_recipient q (update_first is_free_recipient (new_recipient self cb) rs)
      ≡ (if self == q then some cb else lookup_recipient q rs)
unfolding lookup_recipient first_index
lookup_recipient-new self cb q [] z n h = absurd (h refl)
lookup_recipient-new self cb q (r ∷ rs) z n h = ground (arith, lookup_recipient-new self cb q rs z)

-- A table of recipients after a successful `find_or_add_recipient` and the write of the callback.
pub lookup_recipient-add :
    (rs rs' : List Recipient) (self cb q : Pointer) (j : ℕ)
    → self ≢ 0
    → find_or_add_recipient rs self ≡ ok (j, rs')
    → lookup_recipient q (set rs' j (with_callback cb (get_or rs' j no_recipient)))
      ≡ (if self == q then some cb else lookup_recipient q rs)
lookup_recipient-add rs rs' self cb q j z e =
    elim (Option-cases (first_index (is_other_recipient self) rs)) [
      | inr (i, known) ↦
          let (ei, er) : (i ≡ j) × (rs ≡ rs') = unfold find_or_add_recipient in ground arith in
          rw
            (
              ← ei,
              ← er,
              set-first_index (is_other_recipient self) (with_callback cb) no_recipient rs i known,
            )
            (lookup_recipient-known self cb q rs (ground arith))
      | inl new ↦ elim (Option-cases (first_index is_free_recipient rs)) [
        | inl full ↦ absurd (unfold find_or_add_recipient in ground arith)
        | inr (i, room) ↦
            let added : List Recipient =
              set rs i (record (get_or rs i no_recipient) { recipient_self = self }) in
            let (ei, er) : (i ≡ j) × (added ≡ rs') = unfold find_or_add_recipient in ground arith in
            rw
              (
                ← ei,
                ← er,
                get_or-set_self rs i (record (get_or rs i no_recipient) { recipient_self = self })
                    no_recipient (first_index-lt is_free_recipient rs i room),
                set-set,
                set-first_index is_free_recipient (new_recipient self cb) no_recipient rs i room,
              )
              (lookup_recipient-new self cb q rs z new (ground arith))
      ]
    ]

pub string_eq_iff : (a b : CString) → (string_eq a b ≡ true) ↔ (a ≡ b)
unfolding string_eq
string_eq_iff [] [] = ground arith
string_eq_iff [] (y ∷ ys) = ground arith
string_eq_iff (x ∷ xs) [] = ground arith
string_eq_iff (x ∷ xs) (y ∷ ys) = ground (arith, string_eq_iff xs ys)

abbrev pub with_recipients : List Recipient → Subject → Subject
with_recipients rs s = record s { recipients = rs }

abbrev pub new_subject : CString → List Recipient → Subject → Subject
new_subject name rs s = record { subject_name = name; recipients = rs }

pub lookup-known :
    (name n : CString) (q : Pointer) (rs : List Recipient) (ss : List Subject)
    → first_index (has_name name) ss ≢ none
    → lookup n q (update_first (has_name name) (with_recipients rs) ss)
      ≡ (if string_eq name n then lookup_recipient q rs else lookup n q ss)
unfolding lookup first_index
lookup-known name n q rs [] h = absurd (h refl)
lookup-known name n q rs (s ∷ ss) h = ground (
  arith,
  string_eq_iff s.subject_name name,
  string_eq_iff s.subject_name n,
  string_eq_iff name n,
  lookup-known name n q rs ss,
)

pub lookup-new :
    (name n : CString) (q : Pointer) (rs : List Recipient) (ss : List Subject)
    → is_empty name ≡ false
    → first_index (has_name name) ss ≡ none
    → first_index is_free_subject ss ≢ none
    → lookup n q (update_first is_free_subject (new_subject name rs) ss)
      ≡ (if string_eq name n then lookup_recipient q rs else lookup n q ss)
unfolding lookup first_index
lookup-new name n q rs [] z k h = absurd (h refl)
lookup-new name n q rs (s ∷ ss) z k h = ground (
  arith,
  string_eq_iff s.subject_name name,
  string_eq_iff s.subject_name n,
  string_eq_iff name n,
  lookup-new name n q rs ss z,
)
