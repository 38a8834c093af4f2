-- ===== src/Distributors.antt =====
-- The distributors of dtmc_base_library/src: an object is packed and published at a portal, and what the
-- portal receives is put on a queue, from which it is collected. What the three of them share.
pub mod Profiles
pub mod Listening
pub mod Received
pub mod Buffers
pub mod Chunks
pub mod Objects
pub mod Exchange
pub mod Samples
pub mod Tests
use dtmc_base.Common.{
  ℕ, ◌+◌, ◌<◌, ◌≡◌, List, [], ◌∷◌, ◌++◌, Option, none, some, Result, ok, Dterr, length,
}
use dtmc_base.Manifold.{Pointer}

-- The queue of buffers behind its handle and `dtbuffer_create`, on the state of the world. `put` does not
-- wait; `get` waits as long as it takes, so it gives a buffer or an error; `get_within` waits for some
-- milliseconds and gives no buffer where none comes. The bytes of a new buffer are what the memory has.
pub record Bufferqueue (W : Type 0) : Type 0 where
  pub put : Pointer → List ℕ → W → Dterr × W
  pub get : Pointer → W → Result (List ℕ) × W
  pub get_within : Pointer → ℕ → W → Result (Option (List ℕ)) × W
  pub create_buffer : ℕ → W → Result (List ℕ) × W

-- What users of a queue of bounded capacity count on: the buffers come out in the order in which they
-- were put, and memory for buffers can be had.
pub record BufferqueueLaws {W : Type 0} (queue : Bufferqueue W) (handle : Pointer) : Type 0 where
  pub contents : W → List (List ℕ)
  pub capacity : ℕ
  pub put_lem :
      (bytes : List ℕ) (w : W)
      → length (contents w) < capacity
      → (w' : W) × (queue.put handle bytes w ≡ (none, w'))
        × (contents w' ≡ contents w ++ (bytes ∷ []))
  pub get_lem :
      (bytes : List ℕ) (rest : List (List ℕ)) (w : W)
      → contents w ≡ bytes ∷ rest
      → (w' : W) × (queue.get handle w ≡ (ok bytes, w')) × (contents w' ≡ rest)
  pub create_buffer_lem :
      (n : ℕ) (w : W)
      → (buffer : List ℕ) × (queue.create_buffer n w ≡ (ok buffer, w)) × (length buffer ≡ n)
