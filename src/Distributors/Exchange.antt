-- ===== src/Distributors/Exchange.antt =====
-- An object that is distributed at a portal in shared memory, and collected behind its router.
use dtmc_base.Common.{
  ℕ, ◌≡◌, ◌≢◌, ◌<◌, ◌∙◌, refl, ap, List, [], ◌∷◌, ◌++◌, none, some, ok, length, arith, ◌==◌, false,
}
use dtmc_base.Manifold.{Pointer, CString, System}
use dtmc_base.NetPortal.Shm.{NetportalShm}
use dtmc_base.NetBridge.{Netportal}
use dtmc_base.NetBridge.Relay.{shm}
use dtmc_base.Distributors.{Bufferqueue, BufferqueueLaws}
use dtmc_base.Distributors.Listening.{IsListening, receiving, publish_received}
use dtmc_base.Distributors.Objects.{
  Objects, ObjectDistributor, netportal_receive_callback, unpacked, create_and_unpack,
  unpack_buffer, collect, publish_packed, pack_buffer, create_buffer, distribute,
}

-- What the distributor counts on: an object has a packed form, of the announced length, and an object that
-- is created by the model number at its front has the value back when it is unpacked.
pub record ObjectsLaws {O : Type 0} (objects : Objects O) : Type 0 where
  pub encode : O → List ℕ
  pub packx_length_lem : (object : O) → objects.packx_length object ≡ ok (length (encode object))
  pub packx_lem :
      (object : O) (output : List ℕ)
      → length output ≡ length (encode object)
      → objects.packx object output (length (encode object)) ≡ (none, encode object)
  pub unpackx_lem :
      (object : O)
      → (blank : O) × (objects.create (objects.load_int32 (encode object)) ≡ ok blank)
        × (objects.unpackx blank (encode object) (length (encode object)) ≡ (none, object))

-- A buffer that waits in the queue is given at once, whatever the timeout.
abbrev pub GivesWaiting :
    {W : Type 0} (queue : Bufferqueue W) (handle : Pointer) → BufferqueueLaws queue handle → Type 0
GivesWaiting {W} queue handle queued =
    (bytes : List ℕ) (rest : List (List ℕ)) (timeout_ms : ℕ) (w : W)
    → queued.contents w ≡ bytes ∷ rest
    → (w' : W) × (queue.get_within handle timeout_ms w ≡ (ok (some bytes), w'))
      × (queued.contents w' ≡ rest)

module _ {O W : Type 0} {objects : Objects O} (laws : ObjectsLaws objects) (system : System W)
    (queue : Bufferqueue W) (receiver : ObjectDistributor) (receive_callback : Pointer)
    (topic : CString) where
  abbrev pub receiving_portal : Netportal NetportalShm W
  receiving_portal =
      shm (receiving system (netportal_receive_callback objects queue receiver) receive_callback)

  -- An object that is distributed where the receiving distributor is the only recipient of the topic and
  -- its queue is empty and has room is collected there with any timeout, and both calls succeed. Its packed
  -- form begins with a model number that objects can be created by, and there is memory for the buffers.
  pub collect-distribute_object :
      (queued : BufferqueueLaws queue receiver.bufferqueue_handle) (self_address : Pointer)
      (sender : ObjectDistributor) (object : O) (timeout_ms : ℕ) (portal : NetportalShm) (w : W)
      → GivesWaiting queue receiver.bufferqueue_handle queued
      → ((n : ℕ) (v : W) → system.create_buffer n v ≡ (none, v))
      → IsListening receive_callback self_address topic portal
      → sender.topic ≡ some topic
      → receiver.bufferqueue_handle ≢ 0
      → queued.contents w ≡ []
      → 0 < queued.capacity
      → (w1 : W) × (w2 : W) × (distribute objects queue receiving_portal sender object portal w
          ≡ (none, portal, w1))
        × (collect objects queue receiver timeout_ms w1 ≡ (ok object, w2))
        × (queued.contents w2 ≡ [])
  unfolding distribute create_buffer pack_buffer publish_packed collect unpack_buffer
      create_and_unpack unpacked
  collect-distribute_object queued self_address sender object timeout_ms portal w gives room is
        named handled nothing space =
      let code : List ℕ = laws.encode object in
      let (buffer, created, long) = queued.create_buffer_lem (length code) w in
      let (w1, put, kept) = queued.put_lem code w (omega (arith, ap length nothing)) in
      let published =
        publish_received system (netportal_receive_callback objects queue receiver) receive_callback
          self_address topic portal code w w1 room is (unfold netportal_receive_callback in put) in
      let (w2, got, kept') =
        gives code [] timeout_ms w1 (kept ∙ ap (λ l. l ++ (code ∷ [])) nothing) in
      let (blank, made, filled) = laws.unpackx_lem object in
      let set : (receiver.bufferqueue_handle == 0) ≡ false = ground (arith, handled) in
      (
        w1,
        w2,
        rw (named, laws.packx_length_lem object, created, laws.packx_lem object buffer long)
            published,
        rw (set, got, made, filled) refl,
        kept',
      )
