-- ===== src/Scans.antt =====
-- Records of analogue readings and lists of them, of dtmc_base_library/src/dtadc_scan.c and
-- dtadc_scanlist.c.
pub mod Single
pub mod Lists
pub mod RoundTrip
pub mod Size
pub mod Whole
pub mod Tests
use dtmc_base.Common.{
  ℕ, zero, suc, ◌+◌, ◌*◌, ◌%◌, List, [], ◌∷◌, Option, none, some, Result, ok, err, badarg, u32_mod,
  is_negative, ◌==◌, ◌||◌, if◌then◌else◌, add32, Dterr,
}

-- `dtadc_scan_t`. The array is as long as its memory.
pub record Scan : Type 0 where
  pub timestamp_ns : ℕ
  pub sequence_number : ℕ
  pub channels : List ℕ

-- `dtadc_scanlist_t`. `none` is NULL.
pub record ScanList : Type 0 where
  pub scan_count : ℕ
  pub channel_count : ℕ
  pub scans : Option (List Scan)

-- What `dtheaper_alloc` gives: the timestamps, the sequence numbers and the readings that the memory
-- has, as an array of scans and an array of readings behind it.
pub record Memory : Type 0 where
  pub timestamps : ℕ → ℕ
  pub sequence_numbers : ℕ → ℕ
  pub readings : ℕ → ℕ

pub record Heaper : Type 0 where
  pub sizeof_scan : ℕ
  pub alloc : ℕ → Result Memory

abbrev pub mul32 : ℕ → ℕ → ℕ
mul32 a b = (a * b) % u32_mod

abbrev pub zeroed : ScanList
zeroed = record { scan_count = 0; channel_count = 0; scans = none }

-- `count` readings from an index on.
unfoldable pub cells : (ℕ → ℕ) → ℕ → ℕ → List ℕ
cells readings start zero = []
cells readings start (suc count) = readings start ∷ cells readings (start + 1) count

-- The scans from an index on, as the loop of `init` sets them up.
unfoldable pub scans_from : Memory → ℕ → ℕ → ℕ → List Scan
scans_from memory channel_count i zero = []
scans_from memory channel_count i (suc count) =
    record {
      timestamp_ns = memory.timestamps i;
      sequence_number = memory.sequence_numbers i;
      channels = cells memory.readings (mul32 i channel_count) channel_count;
    }
    ∷ scans_from memory channel_count (i + 1) count

abbrev pub total_bytes : ℕ → ScanList → ℕ
total_bytes sizeof_scan self =
    let scans_bytes = mul32 self.scan_count sizeof_scan in
    let channels_bytes = mul32 (mul32 self.scan_count self.channel_count) 4 in
    add32 scans_bytes channels_bytes

module _ (heaper : Heaper) where
  unfoldable pub init : ScanList → Dterr × ScanList
  init self =
      if is_negative self.scan_count || self.scan_count == 0
      then (some badarg, self)
      else if is_negative self.channel_count || self.channel_count == 0
      then (some badarg, self)
      else elim (heaper.alloc (total_bytes heaper.sizeof_scan self)) [
        | err e ↦ (some e, self)
        | ok memory ↦ (
          none,
          record self { scans = some (scans_from memory self.channel_count 0 self.scan_count) },
        )
      ]

-- The memory is freed.
unfoldable pub dispose : ScanList → ScanList
dispose self = zeroed
