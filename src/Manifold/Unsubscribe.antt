-- ===== src/Manifold/Unsubscribe.antt =====
-- `dtmanifold_unsubscribe` as an update of the map of subscriptions, and runs of both updates.
use dtmc_base.Common.{
  ℕ, ◌≡◌, ◌∙◌, sym, refl, List, [], ◌∷◌, Option, none, some, ◌&&◌, ◌==◌, arith, if◌then◌else◌,
  get_or, set, Option-cases, Bool-cases, inl, inr,
}
use dtmc_base.Manifold.{
  Pointer, Recipient, Subject, Manifold, CString, no_recipient, no_subject, string_eq,
}
use dtmc_base.Manifold.Table.{first_index, is_recipient, has_name, search_subject}
use dtmc_base.Manifold.Api.{remove_subscription}
use dtmc_base.Manifold.Update.{update_first, set-first_index, first_index-passes}
use dtmc_base.Manifold.Lookup.{
  lookup, lookup_recipient, lookup-known, with_recipients, string_eq_iff,
}
use dtmc_base.Manifold.Subscriptions.{HasCleanSlots, HasCleanSlots-set, lookup_found}
use dtmc_base.Manifold.Subscribe.{both_updates}
use dtmc_base.Manifold.Distinct.{
  HasDistinct, AllDistinct, no_entry, lookup_recipient-remove, HasDistinct-remove, AllDistinct-set,
  AllDistinct-get,
}

-- A recipient that the search does not find has no callback.
missing-lookup_recipient :
    (self : Pointer) (rs : List Recipient)
    → first_index (is_recipient self) rs ≡ none
    → lookup_recipient self rs ≡ none
unfolding first_index lookup_recipient
missing-lookup_recipient self [] e = refl
missing-lookup_recipient self (r ∷ rs) e = ground (arith, missing-lookup_recipient self rs)

-- Nothing changes where there is nothing to remove.
nothing_removed :
    (name n : CString) (self q : Pointer) (ss : List Subject)
    → lookup name self ss ≡ none
    → lookup n q ss ≡ (if string_eq name n && (self == q) then none else lookup n q ss)
nothing_removed name n self q ss h = elim (Bool-cases (string_eq name n)) [
  | inl same ↦
      let e : name ≡ n = (string_eq_iff name n).0 same in
      elim (Bool-cases (self == q)) [
        | inl own ↦ let e' : self ≡ q = ground arith in rw (same, own) (rw (e, e') at h)
        | inr other ↦ rw (same, other) refl
      ]
  | inr other ↦ rw other refl
]

-- What holds of a router whose subscriptions are a map.
abbrev pub IsMap : Manifold → Type 0
IsMap m = HasCleanSlots m.subjects × AllDistinct m.subjects

-- The map of the router after one update of it: the value of one key is `v`.
abbrev pub Updates : Manifold → CString → Pointer → Option Pointer → Manifold → Type 0
Updates m name self v m' =
    (n : CString) (q : Pointer)
    → lookup n q m'.subjects
      ≡ (if string_eq name n && (self == q) then v else lookup n q m.subjects)

remove_found :
    (m : Manifold) (name : CString) (self : Pointer) (i j : ℕ)
    → IsMap m
    → search_subject m name ≡ some i
    → first_index (is_recipient self) (get_or m.subjects i no_subject).recipients ≡ some j
    → let s = get_or m.subjects i no_subject in
      let m' = record m {
        subjects = set m.subjects i (record s { recipients = set s.recipients j no_recipient });
      } in
      IsMap m' × Updates m name self none m'
remove_found m name self i j (clean, distinct) e e' =
    let old : List Recipient = (get_or m.subjects i no_subject).recipients in
    let new : List Recipient = update_first (is_recipient self) no_entry old in
    let removed : set old j no_recipient ≡ new =
      set-first_index (is_recipient self) no_entry no_recipient old j e' in
    let d : HasDistinct old = AllDistinct-get m.subjects i distinct in
    let whole : set m.subjects i (with_recipients new (get_or m.subjects i no_subject))
        ≡ update_first (has_name name) (with_recipients new) m.subjects =
      set-first_index (has_name name) (with_recipients new) no_subject m.subjects i e in
    rw removed (
      (
        HasCleanSlots-set m.subjects i (with_recipients new (get_or m.subjects i no_subject)) clean
            (ground (arith, first_index-passes (has_name name) no_subject m.subjects i e)),
        AllDistinct-set m.subjects i (with_recipients new (get_or m.subjects i no_subject)) distinct
            (HasDistinct-remove self old d),
      ),
      λ n q.
          both_updates m.subjects
            (set m.subjects i (with_recipients new (get_or m.subjects i no_subject))) old new name n
            self q none (rw whole (lookup-known name n q new m.subjects (ground arith)))
            (lookup_recipient-remove self q old d)
            (sym (rw e at (lookup_found name q m.subjects no_subject))),
    )

pub remove_subscription-Updates :
    (m : Manifold) (name : CString) (self : Pointer)
    → IsMap m
    → IsMap (remove_subscription m name self)
      × Updates m name self none (remove_subscription m name self)
unfolding remove_subscription
remove_subscription-Updates m name self v = elim (Option-cases (search_subject m name)) [
  | inl new ↦
      rw (remove_subscription, new)
        (
          v,
          λ n q.
              nothing_removed name n self q m.subjects
                (rw new at (lookup_found name self m.subjects no_subject)),
        )
  | inr (i, e) ↦
      let old : List Recipient = (get_or m.subjects i no_subject).recipients in
      elim (Option-cases (first_index (is_recipient self) old)) [
        | inl missing ↦
            rw (remove_subscription, e, missing)
              (
                v,
                λ n q. nothing_removed name n self q m.subjects (
                    rw e at (lookup_found name self m.subjects no_subject)
                    ∙ missing-lookup_recipient self old missing),
              )
        | inr (j, e') ↦ rw (remove_subscription, e, e') (remove_found m name self i j v e e')
      ]
]
