-- ===== src/Scans/Size.antt =====
-- The length that is announced for a packed list of scans.
use dtmc_base.Common.{
  ℕ, ◌+◌, ◌*◌, ◌^◌, ◌≤◌, ◌<◌, ◌≡◌, ◌∙◌, refl, ap, sym, List, [], ◌∷◌, ◌++◌, ErrorCode, ok, length,
  length-append, arith, is_negative, false, add32,
}
use dtmc_base.Packing.{Packx, PackxLaws, All, encode_all}
use dtmc_base.Scans.{Scan, ScanList, mul32}
use dtmc_base.Scans.Single
use dtmc_base.Scans.Lists
use dtmc_base.Scans.RoundTrip.{IsScan, IsScanList, encode_scan, encode_list}

-- A product of words that is a word.
mul32_lem : (a b : ℕ) → a * b < 2 ^ 32 → mul32 a b ≡ a * b
mul32_lem a b small = omega arith

module _ {fields : Packx} (laws : PackxLaws fields) where
  length-encode_readings :
      (values : List ℕ)
      → length (encode_all laws.encode_int32 values) ≡ length values * fields.int32_length
  unfolding encode_all
  length-encode_readings [] = grind arith
  length-encode_readings (v ∷ values) =
      let one = laws.length-encode_int32 v in
      let others = length-encode_readings values in
      let l = length-append (laws.encode_int32 v) (encode_all laws.encode_int32 values) in
      grind arith

  abbrev scan_size : ℕ → ℕ
  scan_size channel_count =
      fields.int64_length + fields.int64_length + channel_count * fields.int32_length

  length-encode_scan :
      (scan : Scan) (channel_count : ℕ)
      → length scan.channels ≡ channel_count
      → length (encode_scan laws scan) ≡ scan_size channel_count
  length-encode_scan scan channel_count count =
      let readings : List ℕ = encode_all laws.encode_int32 scan.channels in
      let e : length readings ≡ channel_count * fields.int32_length =
        length-encode_readings scan.channels ∙ ap (λ n. n * fields.int32_length) count in
      omega (
        arith,
        length-append (laws.encode_int64 scan.timestamp_ns)
            (laws.encode_int64 scan.sequence_number ++ readings),
        length-append (laws.encode_int64 scan.sequence_number) readings,
        laws.length-encode_int64 scan.timestamp_ns,
        laws.length-encode_int64 scan.sequence_number,
        e,
      )

  length-encode_scans :
      (scans : List Scan) (channel_count : ℕ)
      → All (IsScan channel_count) scans
      → length (encode_all (encode_scan laws) scans) ≡ length scans * scan_size channel_count
  unfolding encode_all
  length-encode_scans [] channel_count are = grind arith
  length-encode_scans (scan ∷ scans) channel_count are =
      let one = length-encode_scan scan channel_count are.0.count in
      let others = length-encode_scans scans channel_count are.1 in
      let l = length-append (encode_scan laws scan) (encode_all (encode_scan laws) scans) in
      let k : ℕ = scan_size channel_count in
      let e : length (scan ∷ scans) * k ≡ k + length scans * k = grind arith in
      omega (arith, one, others, l, e)

  size_bound : (a b : ℕ) → 0 < b → a ≤ a * b
  size_bound a b positive = grind arith

  -- The announced length of a list is the number of its bytes.
  pub packx_length-eq-length :
      (null_error : ErrorCode) (self : ScanList) (scans : List Scan)
      → IsScanList self scans
      → length (encode_list laws self scans) < 2 ^ 31
      → Lists.packx_length fields null_error self ≡ ok (length (encode_list laws self scans))
  unfolding Lists.packx_length Single.packx_length
  packx_length-eq-length null_error self scans is small =
      let k : ℕ = scan_size self.channel_count in
      let body : List ℕ = encode_all (encode_scan laws) scans in
      let plain : is_negative self.channel_count ≡ false = ground (arith, is.small_channels) in
      let plain' : is_negative self.scan_count ≡ false = ground (arith, is.small_scans) in
      let swapped : self.scan_count * k ≡ k * self.scan_count = grind arith in
      let scans_size : length body ≡ k * self.scan_count =
        length-encode_scans scans self.channel_count is.scans_are
        ∙ ap (λ n. n * k) (sym is.scan_count_lem)
        ∙ swapped in
      let whole : length (encode_list laws self scans)
          ≡ fields.int32_length + fields.int32_length + k * self.scan_count =
        omega (
          arith,
          scans_size,
          length-append (laws.encode_int32 self.scan_count)
              (laws.encode_int32 self.channel_count ++ body),
          length-append (laws.encode_int32 self.channel_count) body,
          laws.length-encode_int32 self.scan_count,
          laws.length-encode_int32 self.channel_count,
        ) in
      let bound : k ≤ k * self.scan_count = size_bound k self.scan_count is.positive_scans in
      let readings : mul32 self.channel_count fields.int32_length
          ≡ self.channel_count * fields.int32_length =
        mul32_lem self.channel_count fields.int32_length (omega (arith, bound, whole)) in
      let one : add32 (add32 fields.int64_length fields.int64_length)
            (mul32 self.channel_count fields.int32_length)
          ≡ k =
        omega (arith, readings, bound, whole) in
      let all : mul32 k self.scan_count ≡ k * self.scan_count =
        mul32_lem k self.scan_count (omega (arith, whole)) in
      let sum : add32 (add32 fields.int32_length fields.int32_length) (mul32 k self.scan_count)
          ≡ length (encode_list laws self scans) =
        omega (arith, all, whole) in
      rw (plain, plain', is.stored, plain, one, sum) refl
