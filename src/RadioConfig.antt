-- ===== src/RadioConfig.antt =====
-- The settings of a radio of dtmc_base_library/src/dtradioconfig.c, packed by dtpackx and kept in a
-- blob of memory that outlasts a reset.
pub mod Stored
pub mod Tests
use dtmc_base.Common.{
  ℕ, ◌+◌, ◌≡◌, ◌≤◌, ◌<◌, ◌^◌, List, [], ◌∷◌, Option, none, some, Result, ErrorCode, ok, err, io,
  Dterr, length, add32, copy_into, ◌==◌, if◌then◌else◌,
}
use dtmc_base.Manifold.{CString}
use dtmc_base.Packing.{Packx, put, get}

-- `dtradioconfig_t`. `none` is NULL.
pub record RadioConfig : Type 0 where
  pub signature : Option CString
  pub self_node_name : Option CString
  pub wifi_ssid : Option CString
  pub wifi_password : Option CString
  pub mqtt_host : Option CString
  pub mqtt_port : ℕ
  pub mqtt_wsport : ℕ
  pub mqtt_user : Option CString
  pub mqtt_password : Option CString

-- `dtradioconfig_init` clears the object.
abbrev pub init : RadioConfig
init = record {
  signature = none;
  self_node_name = none;
  wifi_ssid = none;
  wifi_password = none;
  mqtt_host = none;
  mqtt_port = 0;
  mqtt_wsport = 0;
  mqtt_user = none;
  mqtt_password = none;
}

-- `dtbuffer_create` with a length, which gives the bytes that the memory has, and `dtnvblob_t`: `read`
-- with a buffer and its size and `write` with the bytes and their number, which give the number of bytes.
pub record Nvblob (W : Type 0) : Type 0 where
  pub create_buffer : ℕ → W → Result (List ℕ) × W
  pub read : List ℕ → ℕ → W → Dterr × List ℕ × ℕ × W
  pub write : List ℕ → ℕ → W → Dterr × ℕ × W

-- What users of a blob of some capacity count on: it takes bytes that it has room for, and gives them
-- back into a buffer that they fit into. Buffers can be had.
pub record NvblobLaws {W : Type 0} (nvblob : Nvblob W) : Type 0 where
  pub contents : W → List ℕ
  pub capacity : ℕ
  pub create_buffer_lem :
      (n : ℕ) (w : W)
      → (buffer : List ℕ) × (nvblob.create_buffer n w ≡ (ok buffer, w)) × (length buffer ≡ n)
  pub write_lem :
      (bytes : List ℕ) (n : ℕ) (w : W)
      → length bytes ≡ n
      → n ≤ capacity
      → (w' : W) × (nvblob.write bytes n w ≡ (none, n, w')) × (contents w' ≡ bytes)
  pub read_lem :
      (buffer : List ℕ) (n : ℕ) (w : W)
      → length buffer ≡ n
      → length (contents w) ≤ n
      → nvblob.read buffer n w ≡ (none, copy_into buffer 0 (contents w), length (contents w), w)

-- `p += …`: the result of a call is not looked at.
abbrev pub advance : ℕ → ℕ → ℕ → Result ℕ
advance k p n = ok (add32 p k)

abbrev pub start_of : Option ℕ → ℕ
start_of none = 0
start_of (some p) = p

abbrev pub error_of : Result ℕ → Dterr
error_of (ok p) = none
error_of (err e) = some e

module _ (fields : Packx) where
  unfoldable pub packx_length : RadioConfig → ℕ
  packx_length self =
      let len = add32 0 (fields.string_length self.signature) in
      let len = add32 len (fields.string_length self.self_node_name) in
      let len = add32 len (fields.string_length self.wifi_ssid) in
      let len = add32 len (fields.string_length self.wifi_password) in
      let len = add32 len (fields.string_length self.mqtt_host) in
      let len = add32 len (fields.string_length self.mqtt_user) in
      let len = add32 len (fields.string_length self.mqtt_password) in
      let len = add32 len fields.int32_length in add32 len fields.int32_length

  -- `packx` gives no error. The offset is `none` where the pointer is NULL.
  unfoldable pub packx : RadioConfig → List ℕ → Option ℕ → ℕ → Result ℕ × List ℕ
  packx self output offset n = put advance fields.int32 n self.mqtt_wsport (
      put advance fields.int32 n self.mqtt_port (
        put advance fields.string n self.mqtt_password (
          put advance fields.string n self.mqtt_user (
            put advance fields.string n self.mqtt_host (
              put advance fields.string n self.wifi_password (
                put advance fields.string n self.wifi_ssid (
                  put advance fields.string n self.self_node_name (
                    put advance fields.string n self.signature
                      (ok (start_of offset), output)))))))))

  unfoldable pub unpackx : RadioConfig → List ℕ → Option ℕ → ℕ → Result ℕ × RadioConfig
  unpackx self input offset n =
      let text = get fields.unpack_check fields.string input n in
      let number = get fields.unpack_check fields.int32 input n in
      let (p1, signature) = text self.signature (ok (start_of offset)) in
      let (p2, self_node_name) = text self.self_node_name p1 in
      let (p3, wifi_ssid) = text self.wifi_ssid p2 in
      let (p4, wifi_password) = text self.wifi_password p3 in
      let (p5, mqtt_host) = text self.mqtt_host p4 in
      let (p6, mqtt_user) = text self.mqtt_user p5 in
      let (p7, mqtt_password) = text self.mqtt_password p6 in
      let (p8, mqtt_port) = number self.mqtt_port p7 in
      let (p9, mqtt_wsport) = number self.mqtt_wsport p8 in
      let self' : RadioConfig = record {
        signature = signature;
        self_node_name = self_node_name;
        wifi_ssid = wifi_ssid;
        wifi_password = wifi_password;
        mqtt_host = mqtt_host;
        mqtt_port = mqtt_port;
        mqtt_wsport = mqtt_wsport;
        mqtt_user = mqtt_user;
        mqtt_password = mqtt_password;
      } in
      (p9, self')

  module _ {W : Type 0} (nvblob : Nvblob W) where
    -- The check behind the write, which gives an error and the number of bytes written.
    unfoldable pub check_written : ℕ → Dterr × ℕ × W → Dterr × W
    check_written pack_length (some c, written_size, w) = (some c, w)
    check_written pack_length (none, written_size, w) =
        (if written_size == pack_length then none else some io, w)

    unfoldable pub write_buffer : RadioConfig → ℕ → Result (List ℕ) × W → Dterr × W
    write_buffer self pack_length (err e, w) = (some e, w)
    write_buffer self pack_length (ok payload, w) =
        let packed = (packx self payload none pack_length).1 in
        check_written pack_length (nvblob.write packed pack_length w)

    unfoldable pub write_nvblob : RadioConfig → W → Dterr × W
    write_nvblob self w =
        let pack_length = packx_length self in
        write_buffer self pack_length (nvblob.create_buffer pack_length w)

    -- The length that is unpacked is that of the buffer, also where fewer bytes were read.
    unfoldable pub unpack_read : RadioConfig → Dterr × List ℕ × ℕ × W → Dterr × RadioConfig × W
    unpack_read self (some c, payload, read_size, w) = (some c, self, w)
    unpack_read self (none, payload, read_size, w) =
        let (r, self') = unpackx self payload none 1024 in (error_of r, self', w)

    unfoldable pub read_buffer : RadioConfig → Result (List ℕ) × W → Dterr × RadioConfig × W
    read_buffer self (err e, w) = (some e, self, w)
    read_buffer self (ok payload, w) = unpack_read self (nvblob.read payload 1024 w)

    unfoldable pub read_nvblob : RadioConfig → W → Dterr × RadioConfig × W
    read_nvblob self w = read_buffer self (nvblob.create_buffer 1024 w)
