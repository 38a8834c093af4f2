-- ===== src/IoxDummy.antt =====
-- The in-memory test double of a byte stream, dtmc_base_library/src/dtiox_dummy.c: its types, and
-- the ring buffer of dtcore that it stands on. The operations and what holds of them stand in the
-- children.
pub mod Device
pub mod Streams
pub mod Tests
use dtmc_base.Common.{
  drop, min, ℕ, ◌+◌, ◌<◌, ◌≤◌, ◌^◌, ◌≡◌, List, [], ◌++◌, Dterr, none, Bool, length, take,
}

-- `dtringfifo_t` of dtcore, on an object `Q`: `dtringfifo_init`, `_configure` with a capacity,
-- `_reset`, `_push` of the bytes at a pointer with a length, which gives the number of bytes taken,
-- and `_pop` with the length of a buffer, which gives that number and the bytes. Lengths and results
-- are `int32_t`.
pub record Ringfifo (Q : Type 0) : Type 0 where
  pub zeroed_fifo : Q
  pub fifo_init : Q → Dterr × Q
  pub fifo_configure : Q → ℕ → Dterr × Q
  pub fifo_reset : Q → Q
  pub push : Q → List ℕ → ℕ → ℕ × Q
  pub pop : Q → ℕ → ℕ × List ℕ × Q

-- What users of a ring buffer count on: it holds bytes in order and has space for some more. A push
-- takes as many bytes as there is space for, a pop gives the first bytes, as many as the buffer is
-- long or as there are.
pub record RingfifoLaws {Q : Type 0} (fifo : Ringfifo Q) : Type 0 where
  pub contents : Q → List ℕ
  pub space : Q → ℕ
  pub push-count :
      (q : Q) (bytes : List ℕ) (n : ℕ)
      → n ≤ length bytes
      → n < 2 ^ 31
      → (fifo.push q bytes n).0 ≡ min n (space q)
  pub push-contents :
      (q : Q) (bytes : List ℕ) (n : ℕ)
      → n ≤ length bytes
      → n < 2 ^ 31
      → contents (fifo.push q bytes n).1 ≡ contents q ++ take (min n (space q)) bytes
  pub push-space :
      (q : Q) (bytes : List ℕ) (n : ℕ)
      → n ≤ length bytes
      → n < 2 ^ 31
      → space (fifo.push q bytes n).1 + min n (space q) ≡ space q
  pub pop-count : (q : Q) (n : ℕ) → n < 2 ^ 31 → (fifo.pop q n).0 ≡ min n (length (contents q))
  pub pop-bytes : (q : Q) (n : ℕ) → n < 2 ^ 31 → (fifo.pop q n).1 ≡ take n (contents q)
  pub pop-contents : (q : Q) (n : ℕ) → n < 2 ^ 31 → contents (fifo.pop q n).2 ≡ drop n (contents q)
  pub pop-space :
      (q : Q) (n : ℕ) → n < 2 ^ 31 → space (fifo.pop q n).2 ≡ space q + min n (length (contents q))

-- `dtiox_dummy_behavior_t`.
pub record IoxBehavior : Type 0 where
  pub loopback : Bool
  pub rx_capacity : ℕ
  pub tx_capacity : ℕ

-- `dtiox_dummy_config_t`. The settings of a UART and the name are only stored: numbers and bytes.
pub record IoxConfig : Type 0 where
  pub uart_config : ℕ × ℕ × ℕ × ℕ × ℕ
  pub name : List ℕ
  pub pin_tx : ℕ
  pub pin_rx : ℕ
  pub pin_rts : ℕ
  pub pin_cts : ℕ

-- `dtiox_dummy_t`. Of the two memory blocks only whether they are there is kept; their bytes are the
-- ring buffers'.
pub record IoxDummy (Q : Type 0) : Type 0 where
  pub model_number : ℕ
  pub is_malloced : Bool
  pub cfg : IoxConfig
  pub enabled : Bool
  pub behavior : IoxBehavior
  pub rx_semaphore : ℕ
  pub rx_mem : Bool
  pub tx_mem : Bool
  pub rx_fifo : Q
  pub tx_fifo : Q
