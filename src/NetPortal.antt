-- ===== src/NetPortal.antt =====
-- The portals of dtmc_base_library/src/dtnetportal_iox.c and dtnetportal_shm.c, which send messages
-- under topics and hand those that arrive to subscribers: their types, and the interfaces of what
-- they stand on. The operations and what holds of them stand in the children.
pub mod Stream
pub mod Drain
pub mod Publishing
pub mod Writing
pub mod Sending
pub mod Echo
pub mod Life
pub mod Task
pub mod Opening
pub mod Bursts
pub mod Double
pub mod Shm
pub mod Alike
pub mod Samples
pub mod Tests
use dtmc_base.Common.{
  ℕ, ◌+◌, ◌≤◌, ◌<◌, ◌^◌, ◌≡◌, List, [], ◌++◌, Dterr, none, Bool, Option, length, take,
}
use dtmc_base.Framer.{Framer}
use dtmc_base.Manifold.{Pointer, CString, Manifold}

-- `dtiox_t`, the operations of a byte stream that the portal calls, by dtiox.h. A read gives the
-- bytes that `*out_read` counts, a write the number in `*out_written`. `nap` is what becomes of the
-- device while its user sleeps for a millisecond.
pub record Iox (I : Type 0) : Type 0 where
  pub iox_attach : I → Dterr × I
  pub iox_enable : I → Bool → Dterr × I
  pub iox_set_rx_semaphore : I → Pointer → Dterr × I
  pub iox_read : I → ℕ → Dterr × List ℕ × I
  pub iox_write : I → List ℕ → ℕ → Dterr × ℕ × I
  pub nap : I → I

-- The bytes that the portal asks for at a time.
abbrev pub raw_input_length : ℕ
raw_input_length = 128

-- What users count on of a device that hears what it sends. It holds the bytes that wait to be read,
-- and has room to send some more. A write for which there is room sends a part that is not empty; a
-- read gives the first bytes that wait, and none only where none wait; a nap changes neither. A device
-- that is ready and on which nothing waits stays so when it is set up.
pub record EchoLaws {I : Type 0} (iox : Iox I) : Type 1 where
  pub Ready : I → Type 0
  pub incoming : I → List ℕ
  pub room : I → ℕ
  pub Silent : I → Type 0
  pub Silent-Ready : (i : I) → Silent i → Ready i × (incoming i ≡ [])
  pub write-Ready :
      (i : I) (bytes : List ℕ) (n : ℕ)
      → Ready i
      → n ≤ length bytes
      → n ≤ room i
      → n < 2 ^ 31
      → let (e, k, i') = iox.iox_write i bytes n in
        (e ≡ none)
        × (k ≤ n)
        × (0 < n → 0 < k)
        × (incoming i' ≡ incoming i ++ take k bytes)
        × (room i' + k ≡ room i)
        × Ready i'
  pub nap-Ready :
      (i : I)
      → Ready i
      → (incoming (iox.nap i) ≡ incoming i) × (room (iox.nap i) ≡ room i) × Ready (iox.nap i)
  pub read-Ready :
      (i : I)
      → Ready i
      → let (e, bytes, i') = iox.iox_read i raw_input_length in
        (e ≡ none)
        × (incoming i ≡ bytes ++ incoming i')
        × (length bytes ≡ 0 → incoming i ≡ [])
        × (room i' ≡ room i)
        × Ready i'
  pub set_rx_semaphore-Ready :
      (i : I) (handle : Pointer) → Silent i → Silent (iox.iox_set_rx_semaphore i handle).1
  pub attach-Ready : (i : I) → Silent i → Silent (iox.iox_attach i).1
  pub enable-Ready : (i : I) (on : Bool) → Silent i → Silent (iox.iox_enable i on).1

-- What the framer's callback reads and writes: the portal's members for it, and the world.
pub record Fan (W : Type 0) : Type 0 where
  pub manifold : Manifold
  pub should_fan_out : Bool
  pub world : W

-- `dtnetportal_iox_t` with `dtnetportal_iox_config_t` and the objects behind its two handles, `none`
-- where a handle is NULL. Of the buffer for raw input, which is only read behind a write of the same
-- round, nothing is kept.
pub record NetportalIox (I W : Type 0) : Type 0 where
  pub model_number : ℕ
  pub iox_handle : Option I
  pub framer_handle : Option (Framer (Fan W))
  pub max_encoded_buffer_length : ℕ
  pub rx_tasker_priority : ℕ
  pub rx_semaphore_handle : Pointer
  pub rxtasker_handle : Pointer
  pub manifold : Manifold
  pub encoded_buffer : List ℕ
  pub is_malloced : Bool
  pub should_fan_out : Bool
  pub should_rx_thread_stop : Bool
  pub internal_task_dterr : Dterr

-- The functions of the platform and of dtcore that portals call, on the state `W` of the world:
-- `malloc`, the registration of the portal's and the object's functions, semaphores, buffers by
-- their length, tasks with their priority, and sleeping for some milliseconds.
pub record Runtime (W : Type 0) : Type 0 where
  pub malloc : W → Bool × W
  pub set_portal_vtable : ℕ → Dterr
  pub set_object_vtable : ℕ → Dterr
  pub semaphore_create : W → Dterr × Pointer × W
  pub semaphore_post : Pointer → W → W
  pub semaphore_dispose : Pointer → W → W
  pub new_buffer : ℕ → W → Dterr × List ℕ × W
  pub dispose_buffer : W → W
  pub tasker_create : ℕ → W → Dterr × Pointer × W
  pub tasker_set_entry_point : Pointer → W → Dterr × W
  pub tasker_start : Pointer → W → Dterr × W
  pub tasker_ready : W → Dterr × W
  pub tasker_is_running : Pointer → W → Bool
  pub sleep : ℕ → W → W

-- `dtnetportal_info_t`, of which the two texts stay NULL.
pub record PortalInfo : Type 0 where
  pub listening_origin : CString
  pub task_dterr : Dterr
