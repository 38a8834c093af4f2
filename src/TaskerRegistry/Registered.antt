-- ===== src/TaskerRegistry/Registered.antt =====
-- The registry of tasks as a map, and its lock.
use dtmc_base.Common.{
  ◌⊎◌, ℕ, ◌+◌, ◌≡◌, ◌∙◌, refl, ap, sym, Option, none, some, Result, ok, err, ErrorCode, Dterr, ◌==◌,
  if◌then◌else◌, ◌or_else◌, arith, Option-cases, Bool-cases, inl, inr,
}
use dtmc_base.Manifold.{Pointer}
use dtmc_base.TaskerRegistry.{
  GuidablePool, Platform, TaskerRegistry, failed, release, insert_found, insert_locked,
  insert_known, insert_informed, insert,
}

-- How often the lock is held: a successful acquire holds it once more and a failing one changes nothing;
-- a release, which is made by a holder only, holds it once less, also where it reports an error.
pub record LockLaws {W : Type 0} (platform : Platform W) : Type 0 where
  pub held : W → ℕ
  pub acquired :
      (lock : Pointer) (w w' : W) → platform.lock_acquire lock w ≡ (none, w') → held w' ≡ held w + 1
  pub refused :
      (lock : Pointer) (w w' : W) (e : ErrorCode)
      → platform.lock_acquire lock w ≡ (some e, w')
      → held w' ≡ held w
  pub released :
      (lock : Pointer) (w : W) (n : ℕ) → held w ≡ n + 1 → held (platform.lock_release lock w).1 ≡ n

-- What the registry counts on: the pool gives the item of a number, if there is one, and an item that is
-- inserted is found by its number.
pub record PoolLaws {T W : Type 0} (pool : GuidablePool T) (platform : Platform W) : Type 0 where
  pub found : T → ℕ → Option Pointer
  pub search_lem : (t : T) (guid : ℕ) → pool.search t guid ≡ ok (found t guid)
  pub insert_lem :
      (t : T) (item : Pointer) (guid other : ℕ)
      → platform.get_guid item ≡ ok guid
      → (pool.insert_item t item).0 ≡ none
      → found (pool.insert_item t item).1 other
        ≡ (if guid == other then some item else found t other)

some-ne-none : {c : ErrorCode} → ◌≡◌ {A = Dterr} (some c) none → ⊥
some-ne-none e = cc

Result-cases :
    {A : Type 0} (r : Result A) → ((a : A) × (r ≡ ok a)) ⊎ ((e : ErrorCode) × (r ≡ err e))
Result-cases (ok a) = inl (a, refl)
Result-cases (err e) = inr (e, refl)

module _ {T W : Type 0} (pool : GuidablePool T) (platform : Platform W) where
  module _ (laws : LockLaws platform) (self : TaskerRegistry T) (tasker_handle : Pointer) where
    found-held :
        (w : W) (n : ℕ) (r : Result (Option Pointer))
        → laws.held w ≡ n + 1
        → laws.held (insert_found pool platform self tasker_handle w r).2 ≡ n
    unfolding insert_found release
    found-held w n (err e) held = laws.released self.lock w n held
    found-held w n (ok (some found)) held = laws.released self.lock w n held
    found-held w n (ok none) held = laws.released self.lock w n held

    locked-held :
        (w : W) (guid : ℕ)
        → laws.held
            (insert_locked pool platform self tasker_handle guid
              (platform.lock_acquire self.lock w)).2
          ≡ laws.held w
    unfolding insert_locked
    locked-held w guid = elim (Option-cases (platform.lock_acquire self.lock w).0) [
      | inl taken ↦
          let w' : W = (platform.lock_acquire self.lock w).1 in
          let e : platform.lock_acquire self.lock w ≡ (none, w') = λ i. (taken i, w') in
          rw e (
            found-held w' (laws.held w) (pool.search self.pool guid)
              (laws.acquired self.lock w w' e))
      | inr (c, given) ↦
          let w' : W = (platform.lock_acquire self.lock w).1 in
          let e : platform.lock_acquire self.lock w ≡ (some c, w') = λ i. (given i, w') in
          rw e (laws.refused self.lock w w' c e)
    ]

    -- An insert leaves the lock held as often as it was, on every path, those that fail included, where a
    -- release by a holder lets it go once, also if it reports an error.
    pub insert-held :
        (w : W) → laws.held (insert pool platform self tasker_handle w).2 ≡ laws.held w
    unfolding insert insert_informed insert_known
    insert-held w = elim (Bool-cases (tasker_handle == 0)) [
      | inl missing ↦ rw missing refl
      | inr given ↦ rw given (elim (Option-cases (platform.get_info tasker_handle)) [
        | inr (c, e) ↦ rw e refl
        | inl e ↦ rw e (elim (Result-cases (platform.get_guid tasker_handle)) [
          | inl (guid, known) ↦ rw known (locked-held w guid)
          | inr (c, unknown) ↦ rw unknown refl
        ])
      ])
    ]

  module _ (laws : PoolLaws pool platform) (self : TaskerRegistry T) (tasker_handle : Pointer) where
    abbrev pub or_new : Option Pointer → Pointer
    or_new none = tasker_handle
    or_new (some known) = known

    -- What the registry has for a number behind an insert of a task with another or the same number.
    abbrev pub Inserted : ℕ → T → Type 0
    Inserted guid t =
        (other : ℕ)
        → laws.found t other ≡ (
            if guid == other
            then some (or_new (laws.found self.pool guid))
            else laws.found self.pool other)

    or_else-none : (a b : Dterr) → (a or_else b) ≡ none → a ≡ none
    or_else-none none b e = refl
    or_else-none (some c) b e = cc

    unchanged :
        (guid : ℕ) (known : Pointer)
        → laws.found self.pool guid ≡ some known
        → Inserted guid self.pool
    unchanged guid known e other = elim (Bool-cases (guid == other)) [
      | inl same ↦
          let eq : guid ≡ other = ground arith in
          rw (same, e) (ap (laws.found self.pool) (sym eq) ∙ e)
      | inr differs ↦ rw differs refl
    ]

    found-Inserted :
        (w : W) (guid : ℕ)
        → platform.get_guid tasker_handle ≡ ok guid
        → (insert_found pool platform self tasker_handle w (pool.search self.pool guid)).0 ≡ none
        → Inserted guid
            (insert_found pool platform self tasker_handle w (pool.search self.pool guid)).1.pool
    unfolding insert_found release
    found-Inserted w guid known done = elim (Option-cases (laws.found self.pool guid)) [
      | inr (item, e) ↦
          let r : pool.search self.pool guid ≡ ok (some item) =
            laws.search_lem self.pool guid ∙ ap ok e in
          rw r (unchanged guid item e)
      | inl e ↦
          let r : pool.search self.pool guid ≡ ok none = laws.search_lem self.pool guid ∙ ap ok e in
          let inserted : (pool.insert_item self.pool tasker_handle).0 ≡ none =
            or_else-none (pool.insert_item self.pool tasker_handle).0
              (platform.lock_release self.lock w).0 (rw r at done) in
          rw r (λ other.
            laws.insert_lem self.pool tasker_handle guid other known inserted
            ∙ ap (λ o. if guid == other then some (or_new o) else laws.found self.pool other)
                (sym e))
    ]

    failed-none : (e : Dterr) → failed pool platform e ≡ none → e ≡ none
    failed-none none h = refl
    failed-none (some c) h = cc

    -- Behind an insert without an error the registry has, under the number of the task, the task that it
    -- had before or else this one, and under every other number what it had.
    pub insert-found :
        (w : W) (guid : ℕ)
        → platform.get_guid tasker_handle ≡ ok guid
        → (insert pool platform self tasker_handle w).0 ≡ none
        → (other : ℕ)
        → laws.found (insert pool platform self tasker_handle w).1.pool other ≡ (
            if guid == other
            then some (or_new (laws.found self.pool guid))
            else laws.found self.pool other)
    unfolding insert insert_informed insert_known insert_locked
    insert-found w guid known done other = elim (Bool-cases (tasker_handle == 0)) [
      | inl missing ↦ absurd (some-ne-none (rw missing at done))
      | inr given ↦ elim (Option-cases (platform.get_info tasker_handle)) [
        | inr (c, e) ↦ absurd (some-ne-none (rw (given, e) at done))
        | inl e ↦ elim (Option-cases (platform.lock_acquire self.lock w).0) [
          | inr (c, refused) ↦
              let r : platform.lock_acquire self.lock w
                  ≡ (some c, (platform.lock_acquire self.lock w).1) =
                λ i. (refused i, (platform.lock_acquire self.lock w).1) in
              absurd (some-ne-none (rw (given, e, known, r) at done))
          | inl taken ↦
              let w' : W = (platform.lock_acquire self.lock w).1 in
              let r : platform.lock_acquire self.lock w ≡ (none, w') = λ i. (taken i, w') in
              rw (given, e, known, r)
                (found-Inserted w' guid known
                  (failed-none
                    (insert_found pool platform self tasker_handle w'
                      (pool.search self.pool guid)).0
                    (rw (given, e, known, r) at done))
                  other)
        ]
      ]
    ]
