-- ===== src/Manifold/Subscribe.antt =====
-- `dtmanifold_subscribe` as an update of the map of subscriptions.
use dtmc_base.Common.{
  Option, ◌≡◌, ◌≢◌, refl, List, none, some, ErrorCode, Result, ok, err, false, ◌&&◌, ◌==◌, arith,
  ◌⊎◌, inl, inr, Option-cases, Bool-cases, if◌then◌else◌, get_or, fail_if, ◌or_else◌, argument_null,
  set,
}
use dtmc_base.Manifold.{
  CString, Pointer, Recipient, Subject, Manifold, System, string_eq, is_empty, no_recipient,
  no_subject,
}
use dtmc_base.Manifold.Table.{find_or_add_subject, find_or_add_recipient, validate_subject_name}
use dtmc_base.Manifold.Api.{add_subscription, subscribe, acquire}
use dtmc_base.Manifold.Lookup.{
  lookup, lookup_recipient, lookup_recipient-add, with_callback, with_recipients, string_eq_iff,
}
use dtmc_base.Manifold.Subscriptions.{
  HasCleanSlots, HasCleanSlots-set, lookup-write, find_or_add_subject-names,
}

pub Result-cases {ℓ} :
    {A : Type ℓ} (r : Result A) → ((c : ErrorCode) × (r ≡ err c)) ⊎ ((a : A) × (r ≡ ok a))
Result-cases (ok a) = inr (a, refl)
Result-cases (err c) = inl (c, refl)

-- The table's two updates together: the right subject, the right recipient.
pub both_updates :
    (ss ss' : List Subject) (rs rs' : List Recipient) (name n : CString) (self q : Pointer)
    (v : Option Pointer)
    → lookup n q ss' ≡ (if string_eq name n then lookup_recipient q rs' else lookup n q ss)
    → lookup_recipient q rs' ≡ (if self == q then v else lookup_recipient q rs)
    → lookup_recipient q rs ≡ lookup name q ss
    → lookup n q ss' ≡ (if string_eq name n && (self == q) then v else lookup n q ss)
both_updates ss ss' rs rs' name n self q v a b c = elim (Bool-cases (string_eq name n)) [
  | inl same ↦
      let e : name ≡ n = (string_eq_iff name n).0 same in
      let c' : lookup_recipient q rs ≡ lookup n q ss = rw e at c in ground arith
  | inr other ↦ ground arith
]

add_subscription_lem :
    (m : Manifold) (name n : CString) (self cb q : Pointer)
    → self ≢ 0
    → is_empty name ≡ false
    → HasCleanSlots m.subjects
    → (add_subscription m name self cb).0 ≡ none
    → HasCleanSlots (add_subscription m name self cb).1.subjects
      × (lookup n q (add_subscription m name self cb).1.subjects
          ≡ (if string_eq name n && (self == q) then some cb else lookup n q m.subjects))
unfolding add_subscription
add_subscription_lem m name n self cb q z named c h =
    elim (Result-cases (find_or_add_subject m name)) [
      | inl (code, e) ↦ absurd (ground arith)
      | inr ((i, m'), e) ↦
          let old : List Recipient = (get_or m'.subjects i no_subject).recipients in
          elim (Result-cases (find_or_add_recipient old self)) [
            | inl (code, e') ↦ absurd (ground arith)
            | inr ((j, rs), e') ↦
                let rs' : List Recipient = set rs j (with_callback cb (get_or rs j no_recipient)) in
                let (clean, named') = find_or_add_subject-names m m' name i named c e in
                let (at, before) = lookup-write m m' name n q i rs' named c e in
                rw (add_subscription, e, e')
                  (
                    HasCleanSlots-set m'.subjects i
                        (with_recipients rs' (get_or m'.subjects i no_subject)) clean named',
                    both_updates m.subjects
                        (set m'.subjects i (with_recipients rs' (get_or m'.subjects i no_subject)))
                        old rs' name n self q (some cb) at
                        (lookup_recipient-add old rs self cb q j z e') before,
                  )
          ]
    ]

module _ {W : Type 0} (system : System W) where
  -- A successful `subscribe` on a subject with a name, where the table's free entries have no
  -- recipients, sets the callback of this recipient on this subject, changes no other subscription,
  -- and leaves the free entries without recipients.
  pub subscribe-lookup :
      (m : Manifold) (name n : CString) (self cb q : Pointer) (w : W)
      → is_empty name ≡ false
      → HasCleanSlots m.subjects
      → (subscribe system m name self cb w).0 ≡ none
      → let (_, m', _) = subscribe system m name self cb w in
        HasCleanSlots m'.subjects
        × (lookup n q m'.subjects
            ≡ (if string_eq name n && (self == q) then some cb else lookup n q m.subjects))
  unfolding subscribe
  subscribe-lookup m name n self cb q w named c h =
      elim (Option-cases (
        fail_if (self == 0) argument_null
        or_else fail_if (cb == 0) argument_null
        or_else validate_subject_name name)) [
          | inr (code, bad) ↦ absurd (ground arith)
          | inl good ↦ elim (Option-cases (acquire system m w).0) [
            | inr (code, e) ↦ absurd (ground arith)
            | inl e ↦
                rw (subscribe, good, e)
                  (add_subscription_lem m name n self cb q (ground arith) named c
                    (rw (subscribe, good, e) at h))
          ]
        ]
