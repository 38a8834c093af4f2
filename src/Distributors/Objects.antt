-- ===== src/Distributors/Objects.antt =====
-- The distributor of packable objects, dtpackable_object_distributor.c.
use dtmc_base.Common.{
  ℕ, List, Option, none, some, Result, ok, err, Dterr, fail, argument_null, timeout, length, ◌==◌,
  if◌then◌else◌,
}
use dtmc_base.Manifold.{Pointer, CString}
use dtmc_base.Packing.{text_or_empty}
use dtmc_base.NetBridge.{Netportal}
use dtmc_base.Distributors.{Bufferqueue}

-- Objects `O` of dtcore: `dtobject_create` with a model number, and the functions of `dtpackable_handle`
-- with the offset 0, of which packing gives the output and unpacking the object. `load_int32` is the
-- `int32_t` at an address.
pub record Objects (O : Type 0) : Type 0 where
  pub load_int32 : List ℕ → ℕ
  pub create : ℕ → Result O
  pub packx_length : O → Result ℕ
  pub packx : O → List ℕ → ℕ → Dterr × List ℕ
  pub unpackx : O → List ℕ → ℕ → Dterr × O

-- `dtpackable_object_distributor_t`, of which only the configuration is used. The topic is `none` where
-- the pointer is NULL.
pub record ObjectDistributor : Type 0 where
  pub topic : Option CString
  pub netportal_handle : Pointer
  pub bufferqueue_handle : Pointer

abbrev pub init : ObjectDistributor
init = record { topic = none; netportal_handle = 0; bufferqueue_handle = 0 }

unfoldable pub dispose : ObjectDistributor → ObjectDistributor
dispose self = init

-- The errors become DTERR_FAIL. The queue is not asked for, as a distributor that only sends has none.
unfoldable pub configure : ObjectDistributor → Option ObjectDistributor → Dterr × ObjectDistributor
configure self none = (some fail, self)
configure self (some config) = elim config.topic [
  | none ↦ (some fail, self)
  | some topic ↦ (if config.netportal_handle == 0 then (some fail, self) else (none, config))
]

module _ {O W : Type 0} (objects : Objects O) (queue : Bufferqueue W) where
  unfoldable pub netportal_receive_callback : ObjectDistributor → List ℕ → W → Dterr × W
  netportal_receive_callback self buffer w = queue.put self.bufferqueue_handle buffer w

  -- The result is the object, which the caller gets only where it was unpacked.
  unfoldable pub unpacked : Dterr × O → Result O
  unpacked (some e, object) = err e
  unpacked (none, object) = ok object

  -- The model number is read from the payload, however long this is.
  unfoldable pub create_and_unpack : List ℕ → Result O → Result O
  create_and_unpack payload (err e) = err e
  create_and_unpack payload (ok object) = unpacked (objects.unpackx object payload (length payload))

  unfoldable pub unpack_buffer : Result (Option (List ℕ)) × W → Result O × W
  unpack_buffer (err e, w) = (err e, w)
  unpack_buffer (ok none, w) = (err timeout, w)
  unpack_buffer (ok (some payload), w) =
      (create_and_unpack payload (objects.create (objects.load_int32 payload)), w)

  unfoldable pub collect : ObjectDistributor → ℕ → W → Result O × W
  collect self timeout_ms w =
      if self.bufferqueue_handle == 0
      then (err argument_null, w)
      else unpack_buffer (queue.get_within self.bufferqueue_handle timeout_ms w)

  module _ {P : Type 0} (netportal : Netportal P W) where
    -- The addresses of the object and of its callback.
    unfoldable pub activate : ObjectDistributor → P → Pointer → Pointer → W → Dterr × P × W
    activate self portal self_address receive_callback w =
        netportal.portal_subscribe portal (text_or_empty self.topic) self_address receive_callback w

    unfoldable pub publish_packed : CString → P → W → Dterr × List ℕ → Dterr × P × W
    publish_packed topic portal w (some e, payload) = (some e, portal, w)
    publish_packed topic portal w (none, payload) = netportal.portal_publish portal topic payload w

    unfoldable pub pack_buffer : CString → O → ℕ → P → Result (List ℕ) × W → Dterr × P × W
    pack_buffer topic object pack_len portal (err e, w) = (some e, portal, w)
    pack_buffer topic object pack_len portal (ok payload, w) =
        publish_packed topic portal w (objects.packx object payload pack_len)

    unfoldable pub create_buffer : CString → O → P → W → Result ℕ → Dterr × P × W
    create_buffer topic object portal w (err e) = (some e, portal, w)
    create_buffer topic object portal w (ok pack_len) =
        pack_buffer topic object pack_len portal (queue.create_buffer pack_len w)

    -- A topic that was configured is not NULL.
    unfoldable pub distribute : ObjectDistributor → O → P → W → Dterr × P × W
    distribute self object portal w =
        create_buffer (text_or_empty self.topic) object portal w (objects.packx_length object)
