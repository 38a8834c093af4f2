-- ===== src/RadioConfig/Stored.antt =====
-- The settings of a radio, written to a blob of memory and read back.
use dtmc_base.Common.{
  ℕ, ◌+◌, ◌^◌, ◌≤◌, ◌<◌, ◌≡◌, ◌∙◌, refl, ap, sym, List, [], ◌∷◌, ◌++◌, Option, none, some, ok,
  length, length-append, arith, copy_into, get_or, length-copy_into, ==_self,
}
use dtmc_base.Manifold.{CString}
use dtmc_base.Packing.{
  Packx, PackxLaws, text_or_empty, IsString, Holds, Accepts, All, put_all, get_all, encode_all,
}
use dtmc_base.Packing.Steps.{
  copy_into-Holds, copy_into_whole, put_all_lem, get_all_lem, Writes-then, Holds-append_left,
  Holds-append_right,
}
use dtmc_base.RadioConfig.{
  RadioConfig, Nvblob, NvblobLaws, advance, packx_length, packx, unpackx, error_of, check_written,
  write_buffer, write_nvblob, unpack_read, read_buffer, read_nvblob,
}

-- The strings and the numbers of the settings, in the order in which they are packed.
abbrev pub texts : RadioConfig → List (Option CString)
texts self =
    self.signature ∷ self.self_node_name ∷ self.wifi_ssid ∷ self.wifi_password ∷ self.mqtt_host
    ∷ self.mqtt_user ∷ self.mqtt_password ∷ []

abbrev pub numbers : RadioConfig → List ℕ
numbers self = self.mqtt_port ∷ self.mqtt_wsport ∷ []

abbrev from_fields : List (Option CString) → List ℕ → RadioConfig
from_fields ts ns = record {
  signature = get_or ts 0 none;
  self_node_name = get_or ts 1 none;
  wifi_ssid = get_or ts 2 none;
  wifi_password = get_or ts 3 none;
  mqtt_host = get_or ts 4 none;
  mqtt_port = get_or ns 0 0;
  mqtt_wsport = get_or ns 1 0;
  mqtt_user = get_or ts 5 none;
  mqtt_password = get_or ts 6 none;
}

-- All strings are set and hold no NUL, and the ports are words.
abbrev pub IsPackable : RadioConfig → Type 0
IsPackable self = All IsString (texts self) × All (λ v. v < 2 ^ 32) (numbers self)

advance-Accepts : Accepts advance
advance-Accepts k p n fits small = ground arith

module _ {fields : Packx} (laws : PackxLaws fields) where
  abbrev encode_text : Option CString → List ℕ
  encode_text s = laws.encode_string (text_or_empty s)

  abbrev pub encode_config : RadioConfig → List ℕ
  encode_config self =
      encode_all encode_text (texts self) ++ encode_all laws.encode_int32 (numbers self)

  string_length_lem :
      (s : Option CString) → IsString s → fields.string_length s ≡ length (encode_text s)
  string_length_lem none is = absurd is
  string_length_lem (some s) is = laws.string_length_lem s is ∙ sym (laws.length-encode_string s is)

  abbrev total : List (Option CString) → ℕ
  total [] = 0
  total (s ∷ ss) = fields.string_length s + total ss

  length-encode_texts :
      (ss : List (Option CString)) → All IsString ss → length (encode_all encode_text ss) ≡ total ss
  unfolding encode_all
  length-encode_texts [] are = refl
  length-encode_texts (s ∷ ss) are = omega (
    arith,
    length-append (encode_text s) (encode_all encode_text ss),
    string_length_lem s are.0,
    length-encode_texts ss are.1,
  )

  pub packx_length-eq-length :
      (self : RadioConfig)
      → IsPackable self
      → length (encode_config self) < 2 ^ 31
      → packx_length fields self ≡ length (encode_config self)
  unfolding packx_length encode_all
  packx_length-eq-length self is small = omega (
    arith,
    length-append (encode_all encode_text (texts self))
        (encode_all laws.encode_int32 (numbers self)),
    length-encode_texts (texts self) is.0,
    length-append (laws.encode_int32 self.mqtt_port) (laws.encode_int32 self.mqtt_wsport ++ []),
    length-append (laws.encode_int32 self.mqtt_wsport) [],
    laws.length-encode_int32 self.mqtt_port,
    laws.length-encode_int32 self.mqtt_wsport,
  )

  module _ (n : ℕ) (small : n < 2 ^ 31) where
    pub packx_lem :
        (self : RadioConfig) (output : List ℕ)
        → IsPackable self
        → length (encode_config self) ≤ n
        → n ≤ length output
        → packx fields self output none n
          ≡ (ok (length (encode_config self)), copy_into output 0 (encode_config self))
    unfolding packx put_all
    packx_lem self output is fits room =
        let e : 0 + length (encode_config self) ≡ length (encode_config self) = omega arith in
        Writes-then n (put_all advance fields.string n (texts self))
          (put_all advance fields.int32 n (numbers self)) (encode_all encode_text (texts self))
          (encode_all laws.encode_int32 (numbers self))
          (λ output p fits room.
            put_all_lem laws.strings advance-Accepts n (texts self) output p is.0 fits room small)
          (λ output p fits room.
            put_all_lem laws.int32s advance-Accepts n (numbers self) output p is.1 fits room small)
          output 0 (omega arith) room
        ∙ rw e refl

    unpackx-get_all :
        (self : RadioConfig) (input : List ℕ)
        → unpackx fields self input none n ≡ (
            let (p, ts) = get_all fields.unpack_check fields.string input n (texts self) (ok 0) in
            let (p', ns) = get_all fields.unpack_check fields.int32 input n (numbers self) p in
            (p', from_fields ts ns))
    unfolding unpackx get_all
    unpackx-get_all self input = refl

    pub unpackx_lem :
        (old self : RadioConfig) (input : List ℕ)
        → IsPackable self
        → Holds input 0 (encode_config self)
        → length (encode_config self) ≤ n
        → n ≤ length input
        → unpackx fields old input none n ≡ (ok (length (encode_config self)), self)
    unpackx_lem old self input is holds fits room =
        let a : List ℕ = encode_all encode_text (texts self) in
        let b : List ℕ = encode_all laws.encode_int32 (numbers self) in
        let l : length (a ++ b) ≡ length a + length b = length-append a b in
        let e : 0 + length a + length b ≡ length (a ++ b) = omega arith in
        rw (unpackx-get_all old input) (
          rw
            (get_all_lem laws.strings laws.unpack_check_lem input n (texts self) (texts old) 0 refl
              is.0 (Holds-append_left input 0 a b holds) (omega arith) room small)
            (rw
              (get_all_lem laws.int32s laws.unpack_check_lem input n (numbers self) (numbers old)
                (0 + length a) refl is.1 (Holds-append_right input 0 a b holds) (omega arith) room
                small)
              (rw e refl)))

  module _ {W : Type 0} {nvblob : Nvblob W} (blob : NvblobLaws nvblob) where
    write_nvblob_lem :
        (self : RadioConfig) (w : W)
        → IsPackable self
        → length (encode_config self) ≤ blob.capacity
        → length (encode_config self) < 2 ^ 31
        → (w' : W) × (write_nvblob fields nvblob self w ≡ (none, w'))
          × (blob.contents w' ≡ encode_config self)
    unfolding write_nvblob write_buffer check_written
    write_nvblob_lem self w is fits small =
        let code : List ℕ = encode_config self in
        let size : packx_length fields self ≡ length code = packx_length-eq-length self is small in
        let (buffer, created, room) = blob.create_buffer_lem (length code) w in
        let packed : packx fields self buffer none (length code)
            ≡ (ok (length code), copy_into buffer 0 code) =
          packx_lem (length code) small self buffer is (omega arith) (omega (arith, room)) in
        let copied : copy_into buffer 0 code ≡ code = copy_into_whole buffer code room in
        let (w', written, kept) = blob.write_lem code (length code) w refl fits in
        (
          w',
          ap (λ n. write_buffer fields nvblob self n (nvblob.create_buffer n w)) size
              ∙ ap (write_buffer fields nvblob self (length code)) created
              ∙ ap
                  (λ bytes.
                    check_written fields nvblob (length code) (nvblob.write bytes (length code) w))
                  (ap (λ s. s.1) packed ∙ copied)
              ∙ ap (check_written fields nvblob (length code)) written
              ∙ rw (==_self (length code)) refl,
          kept,
        )

    read_nvblob_lem :
        (old self : RadioConfig) (w : W)
        → IsPackable self
        → length (encode_config self) ≤ 1024
        → blob.contents w ≡ encode_config self
        → read_nvblob fields nvblob old w ≡ (none, self, w)
    unfolding read_nvblob read_buffer unpack_read
    read_nvblob_lem old self w is fits stored =
        let code : List ℕ = encode_config self in
        let (buffer, created, room) = blob.create_buffer_lem 1024 w in
        let read : nvblob.read buffer 1024 w ≡ (none, copy_into buffer 0 code, length code, w) =
          blob.read_lem buffer 1024 w room (omega (arith, ap length stored))
          ∙ ap (λ bytes. (none, copy_into buffer 0 bytes, length bytes, w)) stored in
        let unpacked : unpackx fields old (copy_into buffer 0 code) none 1024
            ≡ (ok (length code), self) =
          unpackx_lem 1024 (omega arith) old self (copy_into buffer 0 code) is
            (copy_into-Holds buffer 0 code (omega (arith, room))) fits
            (omega (arith, room, length-copy_into buffer 0 code)) in
        ap (read_buffer fields nvblob old) created
        ∙ ap (unpack_read fields nvblob old) read
        ∙ ap (λ s. (error_of s.0, s.1, w)) unpacked

    -- Settings with all strings set, without a NUL in them, and numbers of 32 bits, whose packed form
    -- fits the blob and is of at most 1024 bytes, are written without an error, and whatever object they
    -- are then read into has them.
    pub read_nvblob-write_nvblob :
        (self old : RadioConfig) (w : W)
        → IsPackable self
        → length (encode_config self) ≤ blob.capacity
        → length (encode_config self) ≤ 1024
        → (w' : W) × (write_nvblob fields nvblob self w ≡ (none, w'))
          × (read_nvblob fields nvblob old w' ≡ (none, self, w'))
    read_nvblob-write_nvblob self old w is fits bounded =
        let (w', written, stored) = write_nvblob_lem self w is fits (omega arith) in
        (w', written, read_nvblob_lem old self w' is bounded stored)
