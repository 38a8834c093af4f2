-- ===== src/Scans/Single.antt =====
-- Packing and unpacking of one scan, dtadc_scan.c.
use dtmc_base.Common.{
  ℕ, List, ◌++◌, Result, ok, err, badarg, take, drop, is_negative, if◌then◌else◌, add32,
}
use dtmc_base.Packing.{Packx, put, put_all, load, load_all}
use dtmc_base.Scans.{Scan, mul32}

module _ (fields : Packx) where
  unfoldable pub packx_length : ℕ → Result ℕ
  packx_length channel_count =
      if is_negative channel_count
      then err badarg
      else ok (
          add32 (add32 fields.int64_length fields.int64_length)
            (mul32 channel_count fields.int32_length))

  -- The calls of `packx`, from a position on. The loop reads `channel_count` elements.
  unfoldable pub put_scan : Scan → ℕ → ℕ → Result ℕ × List ℕ → Result ℕ × List ℕ
  put_scan self channel_count n state =
      put_all fields.pack_check fields.int32 n (take channel_count self.channels) (
        put fields.pack_check fields.int64 n self.sequence_number
          (put fields.pack_check fields.int64 n self.timestamp_ns state))

  -- The result is the new value of `*offset`, which stays as it was on an error.
  unfoldable pub packx : Scan → ℕ → List ℕ → ℕ → ℕ → Result ℕ × List ℕ
  packx self channel_count output offset n =
      if is_negative channel_count
      then (err badarg, output)
      else put_scan self channel_count n (ok offset, output)

  unfoldable pub get_scan : Scan → ℕ → List ℕ → ℕ → ℕ → Result ℕ × Scan
  get_scan self channel_count input offset n =
      let (p1, timestamp_ns) =
        load fields.unpack_check fields.int64 input n self.timestamp_ns (ok offset) in
      let (p2, sequence_number) =
        load fields.unpack_check fields.int64 input n self.sequence_number p1 in
      let (p3, readings) =
        load_all fields.unpack_check fields.int32 input n (take channel_count self.channels) p2 in
      let self' : Scan = record {
        timestamp_ns = timestamp_ns;
        sequence_number = sequence_number;
        channels = readings ++ drop channel_count self.channels;
      } in
      (p3, self')

  unfoldable pub unpackx : Scan → ℕ → List ℕ → ℕ → ℕ → Result ℕ × Scan
  unpackx self channel_count input offset n =
      if is_negative channel_count
      then (err badarg, self)
      else get_scan self channel_count input offset n
