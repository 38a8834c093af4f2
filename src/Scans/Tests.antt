-- ===== src/Scans/Tests.antt =====
-- A list of two scans of two channels at a concrete input.
use dtmc_base.Common.{
  ◌^◌, ℕ, ◌+◌, ◌≡◌, refl, List, [], ◌∷◌, some, ok, fail, replicate, arith, length,
}
use dtmc_base.Packing.{encode_all}
use dtmc_base.Packing.Samples.{fields, fields-laws}
use dtmc_base.Scans.{Scan, ScanList, Memory, Heaper}
use dtmc_base.Scans.Lists
use dtmc_base.Scans.RoundTrip.{IsScanList, encode_list}
use dtmc_base.Scans.Whole.{unpackx-packx}

abbrev memory : Memory
memory = record { timestamps = λ i. 5; sequence_numbers = λ i. 6; readings = λ i. 7 }

abbrev heaper : Heaper
heaper = record { sizeof_scan = 24; alloc = λ bytes. ok memory }

abbrev scans : List Scan
scans =
    record { timestamp_ns = 2 ^ 40; sequence_number = 1; channels = 3 ∷ 2 ^ 31 ∷ [] }
    ∷ record { timestamp_ns = 2 ^ 41; sequence_number = 2; channels = 4 ∷ 5 ∷ [] }
    ∷ []

abbrev list : ScanList
list = record { scan_count = 2; channel_count = 2; scans = some scans }

list-IsScanList : IsScanList list scans
list-IsScanList = record {
  stored = refl;
  scan_count_lem = refl;
  scans_are = (
    record {
      timestamp_small = omega arith;
      sequence_small = omega arith;
      readings_small = omega arith;
      count = refl;
    },
    (
      record {
        timestamp_small = omega arith;
        sequence_small = omega arith;
        readings_small = omega arith;
        count = refl;
      },
      tt,
    ),
  );
  positive_scans = omega arith;
  positive_channels = omega arith;
  small_scans = omega arith;
  small_channels = omega arith;
}

abbrev output : List ℕ
output = replicate 70 9

unpackx-packx_example :
    let (end, output') = Lists.packx fields list output 3 70 in
    (end ≡ ok (3 + length (encode_list fields-laws list scans)))
    × (Lists.unpackx fields fail heaper output' 3 70 ≡ (end, list))
    × (Lists.packx_length fields fail list ≡ ok (length (encode_list fields-laws list scans)))
unfolding encode_all
unpackx-packx_example =
    unpackx-packx fields-laws 70 (omega arith) heaper fail list scans output 3
      (λ bytes small. (memory, refl)) list-IsScanList (omega arith) (omega arith) (omega arith)
