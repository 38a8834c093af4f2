-- ===== src/Scans/Whole.antt =====
-- A list of scans as a whole: its memory, its packed form, and reading it back.
use dtmc_base.Common.{
  ℕ, zero, suc, ◌+◌, ◌*◌, ◌^◌, ◌≤◌, ◌<◌, ◌≡◌, ◌∙◌, refl, ap, sym, List, ◌++◌, none, some, ErrorCode,
  ok, length, length-append, arith, copy_into, take, take_all, is_negative, false, length-copy_into,
  ◌==◌,
}
use dtmc_base.Packing.{Packx, PackxLaws, Holds, All, put, encode_all}
use dtmc_base.Packing.Steps.{
  put_lem, load_lem, Writes-then, Holds-append_left, Holds-append_right, copy_into-Holds,
}
use dtmc_base.Scans.{Scan, ScanList, Memory, Heaper, init, scans_from, cells, total_bytes, mul32}
use dtmc_base.Scans.Lists
use dtmc_base.Scans.Size.{packx_length-eq-length}
use dtmc_base.Scans.RoundTrip.{
  IsScanList, encode_scan, encode_list, put_scans-Writes, get_scans_lem,
}

length-cells : (readings : ℕ → ℕ) (start count : ℕ) → length (cells readings start count) ≡ count
unfolding cells
length-cells readings start zero = refl
length-cells readings start (suc count) = ap suc (length-cells readings (start + 1) count)

module _ (memory : Memory) (channel_count : ℕ) where
  length-scans_from : (i count : ℕ) → length (scans_from memory channel_count i count) ≡ count
  unfolding scans_from
  length-scans_from i zero = refl
  length-scans_from i (suc count) = ap suc (length-scans_from (i + 1) count)

  scans_from-channels :
      (i count : ℕ)
      → All
          (λ scan. length (Scan.channels scan) ≡ channel_count)
          (scans_from memory channel_count i count)
  unfolding scans_from
  scans_from-channels i zero = tt
  scans_from-channels i (suc count) = (
    length-cells memory.readings (mul32 i channel_count) channel_count,
    scans_from-channels (i + 1) count,
  )

-- The memory of a list is asked for with its size, as long as this is below 2 ^ 31.
total_bytes_lem :
    (sizeof_scan : ℕ) (self : ScanList)
    → self.scan_count * sizeof_scan + self.scan_count * self.channel_count * 4 < 2 ^ 31
    → total_bytes sizeof_scan self
      ≡ self.scan_count * sizeof_scan + self.scan_count * self.channel_count * 4
total_bytes_lem sizeof_scan self small = omega arith

-- Memory can be had in any size below 2 ^ 31.
abbrev pub HasMemory : Heaper → Type 0
HasMemory heaper =
    (bytes : ℕ) → bytes < 2 ^ 31 → (memory : Memory) × (heaper.alloc bytes ≡ ok memory)

module _ {fields : Packx} (laws : PackxLaws fields) (n : ℕ) (small : n < 2 ^ 31) where
  put_list-Writes :
      (self : ScanList) (scans : List Scan)
      → IsScanList self scans
      → (output : List ℕ) (p : ℕ) → p + length (encode_list laws self scans) ≤ n
      → n ≤ length output
      → Lists.put_list fields self output p n ≡ (
        ok (p + length (encode_list laws self scans)),
        copy_into output p (encode_list laws self scans),
      )
  unfolding Lists.put_list
  put_list-Writes self scans is output p fits room =
      let whole : take self.scan_count scans ≡ scans =
        take_all self.scan_count scans (omega (arith, is.scan_count_lem)) in
      let plain : is_negative self.channel_count ≡ false = ground (arith, is.small_channels) in
      rw (is.stored, whole)
        (Writes-then n (put fields.pack_check fields.int32 n self.scan_count)
          (λ state.
            Lists.put_scans fields n self.channel_count scans
              (put fields.pack_check fields.int32 n self.channel_count state))
          (laws.encode_int32 self.scan_count)
          (laws.encode_int32 self.channel_count ++ encode_all (encode_scan laws) scans)
          (λ output p fits room.
            put_lem laws.int32s laws.pack_check_lem n self.scan_count output p
              (omega (arith, is.small_scans)) fits room small)
          (Writes-then n (put fields.pack_check fields.int32 n self.channel_count)
            (Lists.put_scans fields n self.channel_count scans)
            (laws.encode_int32 self.channel_count) (encode_all (encode_scan laws) scans)
            (λ output p fits room.
              put_lem laws.int32s laws.pack_check_lem n self.channel_count output p
                (omega (arith, is.small_channels)) fits room small)
            (put_scans-Writes laws n small scans self.channel_count is.scans_are plain))
          output p fits room)

  pub packx_lem :
      (self : ScanList) (scans : List Scan) (output : List ℕ) (offset : ℕ)
      → IsScanList self scans
      → offset + length (encode_list laws self scans) ≤ n
      → n ≤ length output
      → Lists.packx fields self output offset n ≡ (
        ok (offset + length (encode_list laws self scans)),
        copy_into output offset (encode_list laws self scans),
      )
  unfolding Lists.packx
  packx_lem self scans output offset is fits room =
      let plain : is_negative self.channel_count ≡ false = ground (arith, is.small_channels) in
      let plain' : is_negative self.scan_count ≡ false = ground (arith, is.small_scans) in
      rw (plain, plain', is.stored) (put_list-Writes self scans is output offset fits room)

  init_lem :
      (heaper : Heaper) (self : ScanList)
      → HasMemory heaper
      → 0 < self.scan_count
      → 0 < self.channel_count
      → self.scan_count * heaper.sizeof_scan + self.scan_count * self.channel_count * 4 < 2 ^ 31
      → self.scan_count < 2 ^ 31
      → self.channel_count < 2 ^ 31
      → (memory : Memory) × (init heaper self ≡ (
        none,
        record self { scans = some (scans_from memory self.channel_count 0 self.scan_count) },
      ))
  unfolding init
  init_lem heaper self room scans channels bytes small_scans small_channels =
      let e : total_bytes heaper.sizeof_scan self < 2 ^ 31 =
        omega (arith, total_bytes_lem heaper.sizeof_scan self bytes) in
      let (memory, given) = room (total_bytes heaper.sizeof_scan self) e in
      let a : is_negative self.scan_count ≡ false = ground arith in
      let b : (self.scan_count == 0) ≡ false = ground arith in
      let c : is_negative self.channel_count ≡ false = ground arith in
      let d : (self.channel_count == 0) ≡ false = ground arith in
      (memory, rw (a, b, c, d, given) refl)

  unpackx_lem :
      (heaper : Heaper) (null_error : ErrorCode) (self : ScanList) (scans : List Scan)
      (input : List ℕ) (p : ℕ)
      → HasMemory heaper
      → IsScanList self scans
      → self.scan_count * heaper.sizeof_scan + self.scan_count * self.channel_count * 4 < 2 ^ 31
      → Holds input p (encode_list laws self scans)
      → p + length (encode_list laws self scans) ≤ n
      → n ≤ length input
      → Lists.unpackx fields null_error heaper input p n
        ≡ (ok (p + length (encode_list laws self scans)), self)
  unfolding Lists.unpackx Lists.unpack_scans Lists.get_list
  unpackx_lem heaper null_error self scans input p has is bytes holds fits room =
      let a : List ℕ = laws.encode_int32 self.scan_count in
      let b : List ℕ = laws.encode_int32 self.channel_count in
      let c : List ℕ = encode_all (encode_scan laws) scans in
      let l1 : length (encode_list laws self scans) ≡ length a + length (b ++ c) =
        length-append a (b ++ c) in
      let l2 : length (b ++ c) ≡ length b + length c = length-append b c in
      let e : p + length (encode_list laws self scans) ≡ p + length a + length b + length c =
        omega arith in
      let behind : Holds input (p + length a) (b ++ c) =
        Holds-append_right input p a (b ++ c) holds in
      let plain : is_negative self.channel_count ≡ false = ground (arith, is.small_channels) in
      let empty : ScanList = record {
        scan_count = self.scan_count;
        channel_count = self.channel_count;
        scans = none;
      } in
      let (memory, allocated) =
        init_lem heaper empty has is.positive_scans is.positive_channels bytes is.small_scans
          is.small_channels in
      let fresh : List Scan = scans_from memory self.channel_count 0 self.scan_count in
      let whole : self ≡ record empty { scans = some scans } =
        λ i. record empty { scans = is.stored i } in
      rw
        (load_lem laws.int32s laws.unpack_check_lem input n self.scan_count 0 p
          (omega (arith, is.small_scans)) (Holds-append_left input p a (b ++ c) holds) (omega arith)
          room small)
        (rw
          (load_lem laws.int32s laws.unpack_check_lem input n self.channel_count 0 (p + length a)
            (omega (arith, is.small_channels)) (Holds-append_left input (p + length a) b c behind)
            (omega arith) room small)
          (rw allocated (
            rw
              (get_scans_lem laws n small fresh scans self.channel_count input
                (p + length a + length b)
                (length-scans_from memory self.channel_count 0 self.scan_count ∙ is.scan_count_lem)
                (scans_from-channels memory self.channel_count 0 self.scan_count) is.scans_are plain
                (Holds-append_right input (p + length a) b c behind) (omega arith) room)
              (rw e (ap (λ s. (ok (p + length a + length b + length c), s)) (sym whole))))))

  -- A list of scans whose counts are positive and those of its arrays is read back from where it was
  -- packed, where it fits, memory can be had, the length is below 2 ^ 31 and so is the size of its arrays.
  -- The offsets behind the bytes written and read are the same, and the announced length is the number of
  -- these bytes.
  pub unpackx-packx :
      (heaper : Heaper) (null_error : ErrorCode) (self : ScanList) (scans : List Scan)
      (output : List ℕ) (offset : ℕ)
      → HasMemory heaper
      → IsScanList self scans
      → self.scan_count * heaper.sizeof_scan + self.scan_count * self.channel_count * 4 < 2 ^ 31
      → offset + length (encode_list laws self scans) ≤ n
      → n ≤ length output
      → let (end, output') = Lists.packx fields self output offset n in
        (end ≡ ok (offset + length (encode_list laws self scans)))
        × (Lists.unpackx fields null_error heaper output' offset n ≡ (end, self))
        × (Lists.packx_length fields null_error self ≡ ok (length (encode_list laws self scans)))
  unpackx-packx heaper null_error self scans output offset has is bytes fits room =
      let code : List ℕ = encode_list laws self scans in
      rw (packx_lem self scans output offset is fits room) (
        refl,
        unpackx_lem heaper null_error self scans (copy_into output offset code) offset has is bytes
            (copy_into-Holds output offset code (omega arith)) fits
            (omega (arith, length-copy_into output offset code)),
        packx_length-eq-length laws null_error self scans is (omega arith),
      )
