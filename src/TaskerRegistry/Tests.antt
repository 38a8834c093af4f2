-- ===== src/TaskerRegistry/Tests.antt =====
-- The registry at concrete inputs: the pool is a map, and the world is how often the lock is held.
use dtmc_base.Common.{
  ℕ, ◌+◌, ◌-◌, ◌≡◌, refl, sym, ap, Option, none, some, ok, true, arith, ◌==◌, if◌then◌else◌,
}
use dtmc_base.Manifold.{Pointer}
use dtmc_base.TaskerRegistry.{
  GuidablePool, Platform, TaskerRegistry, insert, insert_informed, insert_known, insert_locked,
  insert_found, release,
}
use dtmc_base.TaskerRegistry.Registered.{LockLaws, PoolLaws, or_new, insert-held, insert-found}

abbrev pool : GuidablePool (ℕ → Option Pointer)
pool = record {
  zeroed_pool = λ guid. none;
  pool_init = λ t n. (none, t);
  search = λ t guid. ok (t guid);
  insert_item = λ t item. (none, λ guid. if item == guid then some item else t guid);
  remove_item = λ t item. (none, λ guid. if item == guid then none else t guid);
}

-- The number of a task is its address.
abbrev platform : Platform ℕ
platform = record {
  lock_create = λ w. (ok 1, w);
  lock_acquire = λ lock w. (none, w + 1);
  lock_release = λ lock w. (none, w - 1);
  lock_dispose = λ lock w. w;
  get_info = λ tasker_handle. none;
  get_guid = λ tasker_handle. ok tasker_handle;
}

abbrev lock-laws : LockLaws platform
lock-laws = record {
  held = λ w. w;
  acquired = λ lock w w' e. sym (ap (λ r. r.1) e);
  refused = λ lock w w' c e. cc;
  released = λ lock w n e. omega arith;
}

insert_lem :
    (t : ℕ → Option Pointer) (item guid other : ℕ)
    → platform.get_guid item ≡ ok guid
    → (if item == other then some item else t other)
      ≡ (if guid == other then some item else t other)
insert_lem t item guid other e =
    let same : item ≡ guid = cc in ap (λ k. if k == other then some item else t other) same

abbrev pool-laws : PoolLaws pool platform
pool-laws = record {
  found = λ t guid. t guid;
  search_lem = λ t guid. refl;
  insert_lem = λ t item guid other e done. insert_lem t item guid other e;
}

abbrev registry : TaskerRegistry (ℕ → Option Pointer)
registry = record {
  pool = λ guid. if guid == 5 then some 5 else none;
  lock = 1;
  is_initialized = true;
}

insert-held_example : (insert pool platform registry 7 0).2 ≡ 0
insert-held_example = insert-held pool platform lock-laws registry 7 0

done : (insert pool platform registry 7 0).0 ≡ none
unfolding insert insert_informed insert_known insert_locked insert_found release
done = refl

insert-found_example : (insert pool platform registry 7 0).1.pool 5 ≡ (
    if 7 == 5
    then some (or_new pool platform pool-laws registry 7 (registry.pool 7))
    else registry.pool 5)
insert-found_example = insert-found pool platform pool-laws registry 7 0 7 refl done 5
