-- ===== src/TaskerRegistry.antt =====
-- The registry of tasks of dtmc_base_library/src/dttasker_registry.c: a pool of dtcore behind a lock.
pub mod Registered
pub mod Tests
use dtmc_base.Common.{
  ℕ, ◌≡◌, ◌+◌, Option, none, some, Result, ok, err, Dterr, fail, badarg, Bool, true, false, ◌==◌,
  if◌then◌else◌, ◌or_else◌,
}
use dtmc_base.Manifold.{Pointer}

-- `dtguidable_pool_t` of dtcore, for items that are known by a number.
pub record GuidablePool (T : Type 0) : Type 0 where
  pub zeroed_pool : T
  pub pool_init : T → ℕ → Dterr × T
  pub search : T → ℕ → Result (Option Pointer)
  pub insert_item : T → Pointer → Dterr × T
  pub remove_item : T → Pointer → Dterr × T

-- The lock, and what a task tells of itself: `dttasker_get_info`, of which only the error is looked at,
-- and `dtguidable_get_guid`.
pub record Platform (W : Type 0) : Type 0 where
  pub lock_create : W → Result Pointer × W
  pub lock_acquire : Pointer → W → Dterr × W
  pub lock_release : Pointer → W → Dterr × W
  pub lock_dispose : Pointer → W → W
  pub get_info : Pointer → Dterr
  pub get_guid : Pointer → Result ℕ

-- `dttasker_registry_t`.
pub record TaskerRegistry (T : Type 0) : Type 0 where
  pub pool : T
  pub lock : Pointer
  pub is_initialized : Bool

abbrev pub max_tasks : ℕ
max_tasks = 30

module _ {T : Type 0} (pool : GuidablePool T) where
  abbrev pub zeroed : TaskerRegistry T
  zeroed = record { pool = pool.zeroed_pool; lock = 0; is_initialized = false }

  module _ {W : Type 0} (platform : Platform W) where
    unfoldable pub init_pool : W → Result Pointer → Dterr × TaskerRegistry T × W
    init_pool w (err e) = (some e, zeroed, w)
    init_pool w (ok lock) =
        let (e, t) = pool.pool_init pool.zeroed_pool max_tasks in
        elim e [
          | some c ↦ (some c, record zeroed { lock = lock; pool = t }, w)
          | none ↦ (none, record { pool = t; lock = lock; is_initialized = true }, w)
        ]

    unfoldable pub init : W → Dterr × TaskerRegistry T × W
    init w = let (created, w') = platform.lock_create w in init_pool w' created

    abbrev pub failed : Dterr → Dterr
    failed none = none
    failed (some e) = some fail

    -- The way out with the lock: an error of the release is put behind an error that there is.
    unfoldable pub release : Dterr → TaskerRegistry T → W → Dterr × TaskerRegistry T × W
    release e self w = let (e', w') = platform.lock_release self.lock w in (e or_else e', self, w')

    -- What is done under the lock.
    unfoldable pub insert_found :
        TaskerRegistry T → Pointer → W → Result (Option Pointer) → Dterr × TaskerRegistry T × W
    insert_found self tasker_handle w (err e) = release (some e) self w
    insert_found self tasker_handle w (ok (some found)) = release none self w
    insert_found self tasker_handle w (ok none) =
        let (e, t) = pool.insert_item self.pool tasker_handle in
        release e (record self { pool = t }) w

    unfoldable pub insert_locked :
        TaskerRegistry T → Pointer → ℕ → Dterr × W → Dterr × TaskerRegistry T × W
    insert_locked self tasker_handle guid (some e, w) = (some e, self, w)
    insert_locked self tasker_handle guid (none, w) =
        insert_found self tasker_handle w (pool.search self.pool guid)

    unfoldable pub insert_known :
        TaskerRegistry T → Pointer → W → Result ℕ → Dterr × TaskerRegistry T × W
    insert_known self tasker_handle w (err e) = (some e, self, w)
    insert_known self tasker_handle w (ok guid) =
        insert_locked self tasker_handle guid (platform.lock_acquire self.lock w)

    unfoldable pub insert_informed :
        TaskerRegistry T → Pointer → W → Dterr → Dterr × TaskerRegistry T × W
    insert_informed self tasker_handle w (some e) = (some e, self, w)
    insert_informed self tasker_handle w none =
        insert_known self tasker_handle w (platform.get_guid tasker_handle)

    unfoldable pub insert : TaskerRegistry T → Pointer → W → Dterr × TaskerRegistry T × W
    insert self tasker_handle w =
        let (e, self', w') =
          insert_informed self tasker_handle w (platform.get_info tasker_handle) in
        if tasker_handle == 0 then (some badarg, self, w) else (failed e, self', w')

    unfoldable pub remove_locked :
        TaskerRegistry T → Pointer → Dterr × W → Dterr × TaskerRegistry T × W
    remove_locked self tasker_handle (some e, w) = (some e, self, w)
    remove_locked self tasker_handle (none, w) =
        let (e, t) = pool.remove_item self.pool tasker_handle in
        release e (record self { pool = t }) w

    unfoldable pub remove : TaskerRegistry T → Pointer → W → Dterr × TaskerRegistry T × W
    remove self tasker_handle w =
        if tasker_handle == 0
        then (some badarg, self, w)
        else if self.is_initialized
        then remove_locked self tasker_handle (platform.lock_acquire self.lock w)
        else (none, self, w)

    -- The memory of the pool is freed.
    unfoldable pub dispose : TaskerRegistry T → W → TaskerRegistry T × W
    dispose self w = (zeroed, platform.lock_dispose self.lock w)
