-- ===== src/Scans/RoundTrip.antt =====
-- What a packed scan and a packed list of scans are, and reading them back.
use dtmc_base.Common.{
  subst, ℕ, ◌+◌, ◌^◌, ◌≤◌, ◌<◌, ◌≡◌, ◌∙◌, refl, ap, sym, List, [], ◌∷◌, ◌++◌, some, ok, length,
  length-append, arith, take, drop, take_all, drop_all, is_negative, false, append-nil,
}
use dtmc_base.Packing.{Packx, PackxLaws, Holds, All, put, put_all, encode_all}
use dtmc_base.Packing.Steps.{
  put_lem, put_all_lem, load_lem, load_all_lem, Writes, Writes-nil, Writes-then, Holds-append_left,
  Holds-append_right,
}
use dtmc_base.Scans.{Scan, ScanList}
use dtmc_base.Scans.Single
use dtmc_base.Scans.Lists

-- A scan with this number of readings, of which all values are words of their width.
pub record IsScan (channel_count : ℕ) (scan : Scan) : Type 0 where
  pub timestamp_small : scan.timestamp_ns < 2 ^ 64
  pub sequence_small : scan.sequence_number < 2 ^ 64
  pub readings_small : All (λ v. v < 2 ^ 32) scan.channels
  pub count : length scan.channels ≡ channel_count

-- A list whose counts are those of its arrays, and positive.
pub record IsScanList (self : ScanList) (scans : List Scan) : Type 0 where
  pub stored : self.scans ≡ some scans
  pub scan_count_lem : self.scan_count ≡ length scans
  pub scans_are : All (IsScan self.channel_count) scans
  pub positive_scans : 0 < self.scan_count
  pub positive_channels : 0 < self.channel_count
  pub small_scans : self.scan_count < 2 ^ 31
  pub small_channels : self.channel_count < 2 ^ 31

module _ {fields : Packx} (laws : PackxLaws fields) where
  abbrev pub encode_scan : Scan → List ℕ
  encode_scan scan =
      laws.encode_int64 scan.timestamp_ns
      ++ (laws.encode_int64 scan.sequence_number ++ encode_all laws.encode_int32 scan.channels)

  -- The bytes of a packed list.
  abbrev pub encode_list : ScanList → List Scan → List ℕ
  encode_list self scans =
      laws.encode_int32 self.scan_count
      ++ (laws.encode_int32 self.channel_count ++ encode_all encode_scan scans)

module _ {fields : Packx} (laws : PackxLaws fields) (n : ℕ) (small : n < 2 ^ 31) where
  pub put_scan-Writes :
      (scan : Scan) (channel_count : ℕ)
      → IsScan channel_count scan
      → Writes n (Single.put_scan fields scan channel_count n) (encode_scan laws scan)
  unfolding Single.put_scan
  put_scan-Writes scan channel_count is =
      let whole : take channel_count scan.channels ≡ scan.channels =
        take_all channel_count scan.channels (omega (arith, is.count)) in
      subst
        (λ cs.
          Writes n
            (λ state. put_all fields.pack_check fields.int32 n cs (
              put fields.pack_check fields.int64 n scan.sequence_number
                (put fields.pack_check fields.int64 n scan.timestamp_ns state)))
            (encode_scan laws scan))
        (sym whole)
        (Writes-then n (put fields.pack_check fields.int64 n scan.timestamp_ns)
          (λ state.
            put_all fields.pack_check fields.int32 n scan.channels
              (put fields.pack_check fields.int64 n scan.sequence_number state))
          (laws.encode_int64 scan.timestamp_ns)
          (laws.encode_int64 scan.sequence_number ++ encode_all laws.encode_int32 scan.channels)
          (λ output p fits room.
            put_lem laws.int64s laws.pack_check_lem n scan.timestamp_ns output p is.timestamp_small
              fits room small)
          (Writes-then n (put fields.pack_check fields.int64 n scan.sequence_number)
            (put_all fields.pack_check fields.int32 n scan.channels)
            (laws.encode_int64 scan.sequence_number) (encode_all laws.encode_int32 scan.channels)
            (λ output p fits room.
              put_lem laws.int64s laws.pack_check_lem n scan.sequence_number output p
                is.sequence_small fits room small)
            (λ output p fits room.
              put_all_lem laws.int32s laws.pack_check_lem n scan.channels output p is.readings_small
                fits room small)))

  pub get_scan_lem :
      (old scan : Scan) (channel_count : ℕ) (input : List ℕ) (p : ℕ)
      → IsScan channel_count scan
      → length old.channels ≡ channel_count
      → Holds input p (encode_scan laws scan)
      → p + length (encode_scan laws scan) ≤ n
      → n ≤ length input
      → Single.get_scan fields old channel_count input p n
        ≡ (ok (p + length (encode_scan laws scan)), scan)
  unfolding Single.get_scan
  get_scan_lem old scan channel_count input p is same holds fits room =
      let ts : List ℕ = laws.encode_int64 scan.timestamp_ns in
      let seq : List ℕ = laws.encode_int64 scan.sequence_number in
      let readings : List ℕ = encode_all laws.encode_int32 scan.channels in
      let l1 : length (encode_scan laws scan) ≡ length ts + length (seq ++ readings) =
        length-append ts (seq ++ readings) in
      let l2 : length (seq ++ readings) ≡ length seq + length readings =
        length-append seq readings in
      let behind : Holds input (p + length ts) (seq ++ readings) =
        Holds-append_right input p ts (seq ++ readings) holds in
      let whole : take channel_count old.channels ≡ old.channels =
        take_all channel_count old.channels (omega (arith, same)) in
      let nothing : drop channel_count old.channels ≡ [] =
        drop_all channel_count old.channels (omega (arith, same)) in
      let e : p + length (encode_scan laws scan) ≡ p + length ts + length seq + length readings =
        omega arith in
      rw
        (load_lem laws.int64s laws.unpack_check_lem input n scan.timestamp_ns old.timestamp_ns p
          is.timestamp_small (Holds-append_left input p ts (seq ++ readings) holds) (omega arith)
          room small)
        (rw
          (load_lem laws.int64s laws.unpack_check_lem input n scan.sequence_number
            old.sequence_number (p + length ts) is.sequence_small
            (Holds-append_left input (p + length ts) seq readings behind) (omega arith) room small)
          (rw (whole, nothing)
            (rw
              (load_all_lem laws.int32s laws.unpack_check_lem input n scan.channels old.channels
                (p + length ts + length seq) (omega (arith, same, is.count)) is.readings_small
                (Holds-append_right input (p + length ts) seq readings behind) (omega arith) room
                small)
              (rw (e, append-nil scan.channels) refl))))

  pub put_scans-Writes :
      (scans : List Scan) (channel_count : ℕ)
      → All (IsScan channel_count) scans
      → is_negative channel_count ≡ false
      → Writes n
          (Lists.put_scans fields n channel_count scans)
          (encode_all (encode_scan laws) scans)
  unfolding Lists.put_scans encode_all
  put_scans-Writes [] channel_count are whole output p fits room = Writes-nil n output p fits room
  put_scans-Writes (scan ∷ scans) channel_count are whole output p fits room =
      let call : Single.packx fields scan channel_count output p n
          ≡ Single.put_scan fields scan channel_count n (ok p, output) =
        unfold Single.packx in rw whole refl in
      ap (Lists.put_scans fields n channel_count scans) call
      ∙ Writes-then n (Single.put_scan fields scan channel_count n)
          (Lists.put_scans fields n channel_count scans) (encode_scan laws scan)
          (encode_all (encode_scan laws) scans) (put_scan-Writes scan channel_count are.0)
          (put_scans-Writes scans channel_count are.1 whole) output p fits room

  pub get_scans_lem :
      (olds scans : List Scan) (channel_count : ℕ) (input : List ℕ) (p : ℕ)
      → length olds ≡ length scans
      → All (λ old. length (Scan.channels old) ≡ channel_count) olds
      → All (IsScan channel_count) scans
      → is_negative channel_count ≡ false
      → Holds input p (encode_all (encode_scan laws) scans)
      → p + length (encode_all (encode_scan laws) scans) ≤ n
      → n ≤ length input
      → Lists.get_scans fields olds channel_count input n (ok p)
        ≡ (ok (p + length (encode_all (encode_scan laws) scans)), scans)
  unfolding Lists.get_scans encode_all
  get_scans_lem [] [] channel_count input p same old are whole holds fits room =
      let e : p + length {A = ℕ} [] ≡ p = omega arith in rw e refl
  get_scans_lem [] (scan ∷ scans) channel_count input p same old are whole holds fits room =
      absurd (omega arith)
  get_scans_lem (o ∷ olds) [] channel_count input p same old are whole holds fits room =
      absurd (omega arith)
  get_scans_lem (o ∷ olds) (scan ∷ scans) channel_count input p same old are whole holds fits room =
      let rest : List ℕ = encode_all (encode_scan laws) scans in
      let l : length (encode_scan laws scan ++ rest)
          ≡ length (encode_scan laws scan) + length rest =
        length-append (encode_scan laws scan) rest in
      let e : p + length (encode_scan laws scan ++ rest)
          ≡ p + length (encode_scan laws scan) + length rest =
        omega arith in
      let call : Single.unpackx fields o channel_count input p n
          ≡ (ok (p + length (encode_scan laws scan)), scan) =
        unfold Single.unpackx in
        rw whole (
          get_scan_lem o scan channel_count input p are.0 old.0
            (Holds-append_left input p (encode_scan laws scan) rest holds) (omega arith) room) in
      rw call (
        rw
          (get_scans_lem olds scans channel_count input (p + length (encode_scan laws scan))
            (omega arith) old.1 are.1 whole
            (Holds-append_right input p (encode_scan laws scan) rest holds) (omega arith) room)
          (rw e refl))
