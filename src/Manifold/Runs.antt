-- ===== src/Manifold/Runs.antt =====
-- Runs of `dtmanifold_subscribe` and `dtmanifold_unsubscribe`, beside a map from a subject name and a
-- recipient to a callback.
use dtmc_base.Common.{
  ℕ, zero, suc, ◌≡◌, ◌∙◌, ap, refl, List, [], ◌∷◌, Option, none, some, Dterr, false, ◌&&◌, ◌==◌,
  arith, if◌then◌else◌, get_or, set, replicate, Option-cases, inl, inr, fail_if, ◌or_else◌,
  argument_null,
}
use dtmc_base.Manifold.{
  Pointer, Recipient, Manifold, System, CString, no_recipient, no_subject, string_eq, is_empty,
}
use dtmc_base.Manifold.Table.{
  find_or_add_subject, find_or_add_recipient, validate_subject_name, recipient_count,
}
use dtmc_base.Manifold.Api.{
  init, set_threadsafe_semaphore, unsubscribe, add_subscription, subscribe, acquire,
}
use dtmc_base.Manifold.Lookup.{lookup, with_callback, with_recipients}
use dtmc_base.Manifold.Subscriptions.{HasCleanSlots}
use dtmc_base.Manifold.Subscribe.{Result-cases, subscribe-lookup}
use dtmc_base.Manifold.Distinct.{
  AllDistinct, HasDistinct-add, AllDistinct-set, AllDistinct-get, AllDistinct-find_or_add_subject,
  free-HasDistinct,
}
use dtmc_base.Manifold.Unsubscribe.{IsMap, Updates, remove_subscription-Updates}

add_subscription-AllDistinct :
    (m : Manifold) (name : CString) (self cb : Pointer)
    → AllDistinct m.subjects
    → (add_subscription m name self cb).0 ≡ none
    → AllDistinct (add_subscription m name self cb).1.subjects
unfolding add_subscription
add_subscription-AllDistinct m name self cb d h = elim (Result-cases (find_or_add_subject m name)) [
  | inl (code, e) ↦ absurd (ground arith)
  | inr ((i, m'), e) ↦
      let old : List Recipient = (get_or m'.subjects i no_subject).recipients in
      elim (Result-cases (find_or_add_recipient old self)) [
        | inl (code, e') ↦ absurd (ground arith)
        | inr ((j, rs), e') ↦
            let rs' : List Recipient = set rs j (with_callback cb (get_or rs j no_recipient)) in
            let d' = AllDistinct-find_or_add_subject m m' name i d e in
            rw (add_subscription, e, e')
              (AllDistinct-set m'.subjects i (with_recipients rs' (get_or m'.subjects i no_subject))
                d' (HasDistinct-add old rs self cb j (AllDistinct-get m'.subjects i d') e'))
      ]
]

-- A table of free subjects.
fresh_clean : (k : ℕ) → HasCleanSlots (replicate k no_subject)
unfolding recipient_count
fresh_clean zero = tt
fresh_clean (suc k) = (refl, fresh_clean k)

fresh_distinct : (k : ℕ) → AllDistinct (replicate k no_subject)
fresh_distinct zero = tt
fresh_distinct (suc k) = (free-HasDistinct 10, fresh_distinct k)

fresh_lookup : (n : CString) (q : Pointer) (k : ℕ) → lookup n q (replicate k no_subject) ≡ none
unfolding lookup
fresh_lookup n q zero = refl
fresh_lookup n q (suc k) = fresh_lookup n q k

-- An update of the subscriptions that a user asks for.
pub data Change : Type 0 where
  add : CString → Pointer → Pointer → Change
  drop_out : CString → Pointer → Change

-- The abstract view: a map from a name and a recipient to a callback.
abbrev pub Subscriptions : Type 0
Subscriptions = CString → Pointer → Option Pointer

abbrev pub apply_change : Change → Subscriptions → Subscriptions
apply_change (add name self cb) f n q = if string_eq name n && (self == q) then some cb else f n q
apply_change (drop_out name self) f n q = if string_eq name n && (self == q) then none else f n q

abbrev pub apply_changes : List Change → Subscriptions → Subscriptions
apply_changes [] f = f
apply_changes (c ∷ cs) f = apply_changes cs (apply_change c f)

-- The names to subscribe to are not empty.
abbrev pub AllNamed : List Change → Type 0
AllNamed [] = Unit
AllNamed (add name self cb ∷ cs) = (is_empty name ≡ false) × AllNamed cs
AllNamed (drop_out name self ∷ cs) = AllNamed cs

module _ {W : Type 0} (system : System W) where
  unfoldable pub change : Change → Manifold → W → Dterr × Manifold × W
  change (add name self cb) m w = subscribe system m name self cb w
  change (drop_out name self) m w = unsubscribe system m name self w

  -- The changes one by one, up to the first error.
  unfoldable pub run_changes : List Change → Manifold → W → Dterr × Manifold × W
  run_changes [] m w = (none, m, w)
  run_changes (c ∷ cs) m w =
      let (e, m', w') = change c m w in
      elim e [ some code ↦ (some code, m', w') | none ↦ run_changes cs m' w' ]

  subscribe-IsMap :
      (m : Manifold) (name : CString) (self cb : Pointer) (w : W)
      → is_empty name ≡ false
      → IsMap m
      → (subscribe system m name self cb w).0 ≡ none
      → IsMap (subscribe system m name self cb w).1
        × Updates m name self (some cb) (subscribe system m name self cb w).1
  unfolding subscribe
  subscribe-IsMap m name self cb w z (c, d) h =
      let checks : Dterr =
        fail_if (self == 0) argument_null
        or_else fail_if (cb == 0) argument_null
        or_else validate_subject_name name in
      let (clean, _) = subscribe-lookup system m name name self cb self w z c h in
      let distinct : AllDistinct (subscribe system m name self cb w).1.subjects =
        elim (Option-cases checks) [
          | inr (code, bad) ↦ absurd (ground arith)
          | inl good ↦ elim (Option-cases (acquire system m w).0) [
            | inr (code, e) ↦ absurd (ground arith)
            | inl e ↦
                rw (subscribe, good, e)
                  (add_subscription-AllDistinct m name self cb d (rw (subscribe, good, e) at h))
          ]
        ] in
      ((clean, distinct), λ n q. (subscribe-lookup system m name n self cb q w z c h).1)

  unsubscribe-IsMap :
      (m : Manifold) (name : CString) (self : Pointer) (w : W)
      → IsMap m
      → (unsubscribe system m name self w).0 ≡ none
      → IsMap (unsubscribe system m name self w).1
        × Updates m name self none (unsubscribe system m name self w).1
  unfolding unsubscribe
  unsubscribe-IsMap m name self w v h =
      let checks : Dterr = fail_if (self == 0) argument_null or_else validate_subject_name name in
      elim (Option-cases checks) [
        | inr (code, bad) ↦ absurd (ground arith)
        | inl good ↦ elim (Option-cases (acquire system m w).0) [
          | inr (code, e) ↦ absurd (ground arith)
          | inl e ↦ rw (unsubscribe, good, e) (remove_subscription-Updates m name self v)
        ]
      ]

  -- The router's map is this one.
  abbrev Views : Manifold → Subscriptions → Type 0
  Views m f = (n : CString) (q : Pointer) → lookup n q m.subjects ≡ f n q

  change-Views :
      (c : Change) (cs : List Change) (m : Manifold) (w : W) (f : Subscriptions)
      → AllNamed (c ∷ cs)
      → IsMap m
      → Views m f
      → (change c m w).0 ≡ none
      → IsMap (change c m w).1 × Views (change c m w).1 (apply_change c f) × AllNamed cs
  unfolding change
  change-Views (add name self cb) cs m w f (z, a) v s h =
      let (v', u) = subscribe-IsMap m name self cb w z v h in
      (
        v',
        λ n q. u n q ∙ ap (λ x. if string_eq name n && (self == q) then some cb else x) (s n q),
        a,
      )
  change-Views (drop_out name self) cs m w f a v s h =
      let (v', u) = unsubscribe-IsMap m name self w v h in
      (v', λ n q. u n q ∙ ap (λ x. if string_eq name n && (self == q) then none else x) (s n q), a)

  run_changes-Views :
      (cs : List Change) (m : Manifold) (w : W) (f : Subscriptions)
      → AllNamed cs
      → IsMap m
      → Views m f
      → (run_changes cs m w).0 ≡ none
      → IsMap (run_changes cs m w).1 × Views (run_changes cs m w).1 (apply_changes cs f)
  unfolding run_changes
  run_changes-Views [] m w f a v s h = (v, s)
  run_changes-Views (c ∷ cs) m w f a v s h =
      let (e, m', w') = change c m w in
      elim (Option-cases e) [
        | inr (code, bad) ↦ absurd (ground arith)
        | inl fine ↦
            let (v', s', a') = change-Views c cs m w f a v s fine in
            rw (run_changes, fine)
              (run_changes-Views cs m' w' (apply_change c f) a' v' s' (rw (run_changes, fine) at h))
      ]

  -- From a fresh router on, with any semaphore, a run of calls of `subscribe` to names that are not empty and
  -- of `unsubscribe` that ends without an error leaves exactly the subscriptions that the calls ask for, as a
  -- map from a name and a recipient to a callback: each name and recipient has at most one entry.
  pub run_changes-apply_changes :
      (cs : List Change) (handle : Pointer) (timeout : ℕ) (w : W)
      → AllNamed cs
      → (run_changes cs (set_threadsafe_semaphore init handle timeout) w).0 ≡ none
      → let m = (run_changes cs (set_threadsafe_semaphore init handle timeout) w).1 in
        IsMap m
        × ((n : CString) (q : Pointer)
            → lookup n q m.subjects ≡ apply_changes cs (λ name recipient. none) n q)
  run_changes-apply_changes cs handle timeout w a h =
      run_changes-Views cs (set_threadsafe_semaphore init handle timeout) w (λ n q. none) a
        (fresh_clean 10, fresh_distinct 10) (λ n q. fresh_lookup n q 10) h
