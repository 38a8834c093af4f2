-- ===== src/Scans/Lists.antt =====
-- Packing and unpacking of a list of scans, dtadc_scanlist.c.
use dtmc_base.Common.{
  ℕ, List, [], ◌∷◌, none, some, Result, ErrorCode, ok, err, badarg, take, is_negative,
  if◌then◌else◌, add32, ◌==◌, ◌||◌,
}
use dtmc_base.Packing.{Packx, put, load}
use dtmc_base.Scans.{Scan, ScanList, Heaper, mul32, zeroed, init, dispose}
use dtmc_base.Scans.Single

module _ (fields : Packx) where
  unfoldable pub put_scans : ℕ → ℕ → List Scan → Result ℕ × List ℕ → Result ℕ × List ℕ
  put_scans n channel_count [] state = state
  put_scans n channel_count (scan ∷ scans) (err e, output) = (err e, output)
  put_scans n channel_count (scan ∷ scans) (ok p, output) =
      put_scans n channel_count scans (Single.packx fields scan channel_count output p n)

  -- The calls of `packx` behind its checks. Nothing is read of an array that is NULL, as the count is
  -- then 0.
  unfoldable pub put_list : ScanList → List ℕ → ℕ → ℕ → Result ℕ × List ℕ
  put_list self output offset n =
      let scans : List Scan = elim self.scans [ none ↦ [] | some scans ↦ scans ] in
      put_scans n self.channel_count (take self.scan_count scans) (
        put fields.pack_check fields.int32 n self.channel_count
          (put fields.pack_check fields.int32 n self.scan_count (ok offset, output)))

  unfoldable pub packx : ScanList → List ℕ → ℕ → ℕ → Result ℕ × List ℕ
  packx self output offset n =
      if is_negative self.scan_count || is_negative self.channel_count
      then (err badarg, output)
      else elim self.scans [
        | none ↦
            (if self.scan_count == 0 then put_list self output offset n else (err badarg, output))
        | some scans ↦ put_list self output offset n
      ]

  unfoldable pub get_scans : List Scan → ℕ → List ℕ → ℕ → Result ℕ → Result ℕ × List Scan
  get_scans [] channel_count input n p = (p, [])
  get_scans (scan ∷ scans) channel_count input n (err e) = (err e, scan ∷ scans)
  get_scans (scan ∷ scans) channel_count input n (ok p) =
      let (p', scan') = Single.unpackx fields scan channel_count input p n in
      let (p'', scans') = get_scans scans channel_count input n p' in (p'', scan' ∷ scans')

-- The cleanup of `unpackx`.
abbrev pub disposed_on_error : Result ℕ × ScanList → Result ℕ × ScanList
disposed_on_error (err e, self) = (err e, dispose self)
disposed_on_error (ok p, self) = (ok p, self)

-- `null_error` is the error of `DTERR_ASSERT_NOT_NULL` of dtcore, which a scan at a NULL address meets.
module _ (fields : Packx) (null_error : ErrorCode) where
  unfoldable pub packx_length : ScanList → Result ℕ
  packx_length self =
      if is_negative self.scan_count || is_negative self.channel_count
      then err badarg
      else elim self.scans [
        | none ↦ err null_error
        | some scans ↦ elim (Single.packx_length fields self.channel_count) [
          | err e ↦ err e
          | ok scan_length ↦ ok (
              add32 (add32 fields.int32_length fields.int32_length)
                (mul32 scan_length self.scan_count))
        ]
      ]

  -- The loop over the scans. The first one has the address NULL where the array is NULL.
  unfoldable pub get_list : ScanList → List ℕ → ℕ → ℕ → Result ℕ × ScanList
  get_list self input p n = elim self.scans [
    | none ↦
        (if is_negative self.scan_count || self.scan_count == 0
          then (ok p, self)
          else (err null_error, self))
    | some scans ↦
        let (p', scans') = get_scans fields scans self.channel_count input n (ok p) in
        (p', record self { scans = some scans' })
  ]

  -- The calls behind the allocation.
  unfoldable pub unpack_scans : List ℕ → ℕ → Result ℕ → ScanList → Result ℕ × ScanList
  unpack_scans input n (err e) self = (err e, zeroed)
  unpack_scans input n (ok p) self = disposed_on_error (get_list self input p n)

  -- The error of `init` is not looked at.
  unfoldable pub unpackx : Heaper → List ℕ → ℕ → ℕ → Result ℕ × ScanList
  unpackx heaper input offset n =
      let (p1, scan_count) = load fields.unpack_check fields.int32 input n 0 (ok offset) in
      let (p2, channel_count) = load fields.unpack_check fields.int32 input n 0 p1 in
      let (ignored, self) =
        init heaper
          (record { scan_count = scan_count; channel_count = channel_count; scans = none }) in
      unpack_scans input n p2 self
