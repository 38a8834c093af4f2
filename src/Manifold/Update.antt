-- ===== src/Manifold/Update.antt =====
-- A write at the index that a search over a table gives.
use mathlib.Core.Option
use dtmc_base.Common.{
  true, ℕ, zero, suc, ◌<◌, ◌≡◌, ◌∙◌, ap, refl, sym, List, [], ◌∷◌, Option, none, some, arith, Bool,
  length, get_or, set, if◌then◌else◌, Bool-cases, inl, inr,
}
use dtmc_base.Manifold.Table.{first_index}

abbrev Below : Option ℕ → ℕ → Type 0
Below none n = Unit
Below (some i) n = i < n

Below-suc : (o : Option ℕ) (n : ℕ) → Below o n → Below (Option.map suc o) (suc n)
Below-suc none n h = tt
Below-suc (some i) n h = omega arith

module _ {ℓ} {A : Type ℓ} where
  -- The first entry that passes the test is replaced.
  abbrev pub update_first : (A → Bool) → (A → A) → List A → List A
  update_first test f [] = []
  update_first test f (x ∷ xs) =
      let later = x ∷ update_first test f xs in if test x then f x ∷ xs else later

  at_index : (A → A) → A → List A → Option ℕ → List A
  at_index f d xs none = xs
  at_index f d xs (some i) = set xs i (f (get_or xs i d))

  at_index-cons :
      (f : A → A) (d x : A) (xs : List A) (o : Option ℕ)
      → at_index f d (x ∷ xs) (Option.map suc o) ≡ x ∷ at_index f d xs o
  unfolding at_index
  at_index-cons f d x xs none = refl
  at_index-cons f d x xs (some i) = refl

  at_index-first_index :
      (test : A → Bool) (f : A → A) (d : A) (xs : List A)
      → at_index f d xs (first_index test xs) ≡ update_first test f xs
  unfolding first_index
  at_index-first_index test f d [] = unfold at_index in refl
  at_index-first_index test f d (x ∷ xs) = elim (Bool-cases (test x)) [
    | inl here ↦ rw here (unfold at_index in refl)
    | inr later ↦ rw later (
        at_index-cons f d x xs (first_index test xs)
        ∙ ap (◌∷◌ x) (at_index-first_index test f d xs))
  ]

  pub set-first_index :
      (test : A → Bool) (f : A → A) (d : A) (xs : List A) (i : ℕ)
      → first_index test xs ≡ some i
      → set xs i (f (get_or xs i d)) ≡ update_first test f xs
  unfolding at_index
  set-first_index test f d xs i e = ap (at_index f d xs) (sym e) ∙ at_index-first_index test f d xs

  first_index-Below : (test : A → Bool) (xs : List A) → Below (first_index test xs) (length xs)
  unfolding first_index
  first_index-Below test [] = tt
  first_index-Below test (x ∷ xs) = elim (Bool-cases (test x)) [
    | inl here ↦ rw here (omega arith)
    | inr later ↦ rw later (Below-suc (first_index test xs) (length xs) (first_index-Below test xs))
  ]

  pub first_index-lt :
      (test : A → Bool) (xs : List A) (i : ℕ) → first_index test xs ≡ some i → i < length xs
  first_index-lt test xs i e = rw e at (first_index-Below test xs)

  pub get_or-set_self :
      (xs : List A) (i : ℕ) (v d : A) → i < length xs → get_or (set xs i v) i d ≡ v
  get_or-set_self [] i v d h = absurd (omega arith)
  get_or-set_self (x ∷ xs) zero v d h = refl
  get_or-set_self (x ∷ xs) (suc i) v d h = get_or-set_self xs i v d (omega arith)

  pub set-set : (xs : List A) (i : ℕ) (u v : A) → set (set xs i u) i v ≡ set xs i v
  set-set [] i u v = refl
  set-set (x ∷ xs) zero u v = refl
  set-set (x ∷ xs) (suc i) u v = ap (◌∷◌ x) (set-set xs i u v)

  pub length-update_first :
      (test : A → Bool) (f : A → A) (xs : List A) → length (update_first test f xs) ≡ length xs
  length-update_first test f [] = refl
  length-update_first test f (x ∷ xs) = ground (arith, length-update_first test f xs)

abbrev Passes {ℓ} : {A : Type ℓ} → (A → Bool) → A → List A → Option ℕ → Type 0
Passes test d xs none = Unit
Passes test d xs (some i) = test (get_or xs i d) ≡ true

Passes-cons {ℓ} :
    {A : Type ℓ} (test : A → Bool) (d x : A) (xs : List A) (o : Option ℕ)
    → Passes test d xs o
    → Passes test d (x ∷ xs) (Option.map suc o)
Passes-cons test d x xs none h = tt
Passes-cons test d x xs (some i) h = h

first_index-Passes {ℓ} :
    {A : Type ℓ} (test : A → Bool) (d : A) (xs : List A) → Passes test d xs (first_index test xs)
unfolding first_index
first_index-Passes test d [] = tt
first_index-Passes test d (x ∷ xs) = elim (Bool-cases (test x)) [
  | inl here ↦ rw here here
  | inr later ↦
      rw later (Passes-cons test d x xs (first_index test xs) (first_index-Passes test d xs))
]

pub first_index-passes {ℓ} :
    {A : Type ℓ} (test : A → Bool) (d : A) (xs : List A) (i : ℕ)
    → first_index test xs ≡ some i
    → test (get_or xs i d) ≡ true
first_index-passes test d xs i e = rw e at (first_index-Passes test d xs)
