-- ===== src/RadioConfig/Tests.antt =====
-- Settings that are stored at a concrete input: the world is what the blob has.
use dtmc_base.Common.{
  ℕ, ◌^◌, ◌≡◌, refl, List, [], ◌∷◌, some, none, ok, replicate, arith, length, copy_into,
  length-replicate,
}
use dtmc_base.Packing.{encode_all}
use dtmc_base.Packing.Samples.{fields, fields-laws}
use dtmc_base.RadioConfig.{RadioConfig, Nvblob, NvblobLaws, init, write_nvblob, read_nvblob}
use dtmc_base.RadioConfig.Stored.{read_nvblob-write_nvblob}

abbrev nvblob : Nvblob (List ℕ)
nvblob = record {
  create_buffer = λ n w. (ok (replicate n 9), w);
  read = λ buffer n w. (none, copy_into buffer 0 w, length w, w);
  write = λ bytes n w. (none, n, bytes);
}

abbrev nvblob-laws : NvblobLaws nvblob
nvblob-laws = record {
  contents = λ w. w;
  capacity = 100;
  create_buffer_lem = λ n w. (replicate n 9, refl, length-replicate n 9);
  write_lem = λ bytes n w same room. (bytes, refl, refl);
  read_lem = λ buffer n w same room. refl;
}

abbrev config : RadioConfig
config = record {
  signature = some (97 ∷ []);
  self_node_name = some (98 ∷ 99 ∷ []);
  wifi_ssid = some [];
  wifi_password = some (100 ∷ []);
  mqtt_host = some (101 ∷ []);
  mqtt_port = 1883;
  mqtt_wsport = 2 ^ 31;
  mqtt_user = some [];
  mqtt_password = some (102 ∷ []);
}

read_nvblob-write_nvblob_example :
    (w' : List ℕ) × (write_nvblob fields nvblob config [] ≡ (none, w'))
    × (read_nvblob fields nvblob init w' ≡ (none, config, w'))
unfolding encode_all
read_nvblob-write_nvblob_example =
    read_nvblob-write_nvblob fields-laws nvblob-laws config init [] (omega arith) (omega arith)
      (omega arith)
