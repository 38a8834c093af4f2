-- ===== src/NetPortal/Life.antt =====
-- The life cycle of a portal of dtnetportal_iox.c: create, init, configure, activate and dispose.
use dtmc_base.Common.{
  ℕ, zero, suc, Option, none, some, [], Dterr, fail, argument_null, true, false, ◌==◌,
  if◌then◌else◌, ◌or_else◌,
}
use dtmc_base.Framer.{Framer}
use dtmc_base.Framer.Config.{set_message_callback}
use dtmc_base.Manifold.{System, Pointer}
use dtmc_base.Manifold.Api
use dtmc_base.NetPortal.{Iox, Fan, NetportalIox, Runtime, raw_input_length}
use dtmc_base.NetPortal.Stream.{
  netportal_model_iox, validate_priority_enum, rx_tasker_priority_default, framer_decoded_callback,
}

-- The error that is put around any error.
abbrev pub failed : Dterr → Dterr
failed none = none
failed (some c) = some fail

module _ {I W : Type 0} where
  -- The object after `memset (self, 0, sizeof (*self))`.
  abbrev pub zeroed : NetportalIox I W
  zeroed = record {
    model_number = 0;
    iox_handle = none;
    framer_handle = none;
    max_encoded_buffer_length = 0;
    rx_tasker_priority = 0;
    rx_semaphore_handle = 0;
    rxtasker_handle = 0;
    manifold = Api.init;
    encoded_buffer = [];
    is_malloced = false;
    should_fan_out = false;
    should_rx_thread_stop = false;
    internal_task_dterr = none;
  }

  -- The two buffers.
  unfoldable pub init_buffers : Runtime W → NetportalIox I W → W → Dterr × NetportalIox I W × W
  init_buffers runtime self w =
      let (e, bytes, w') = runtime.new_buffer 1024 w in
      let (e', _, w'') = runtime.new_buffer raw_input_length w' in
      elim e [
        | some c ↦ (some c, self, w')
        | none ↦ (e', record self { encoded_buffer = bytes }, w'')
      ]

  unfoldable pub init : Runtime W → W → Dterr × NetportalIox I W × W
  init runtime w =
      let self : NetportalIox I W = record zeroed { model_number = netportal_model_iox } in
      elim (runtime.set_portal_vtable netportal_model_iox
        or_else runtime.set_object_vtable netportal_model_iox) [
          | some c ↦ (some fail, self, w)
          | none ↦
              let (e, handle, w') = runtime.semaphore_create w in
              let self' = record self { rx_semaphore_handle = handle } in
              let (e', s, w'') = init_buffers runtime self' w' in
              elim e [ some c ↦ (some fail, self', w') | none ↦ (failed e', s, w'') ]
        ]

  -- The object is `none` where what `*self_ptr` points at is freed, or it is NULL.
  unfoldable pub create : Runtime W → W → Dterr × Option (NetportalIox I W) × W
  create runtime w =
      let (allocated, w') = runtime.malloc w in
      let (e, self, w'') = init runtime w' in
      elim allocated [
        | false ↦ (some fail, none, w')
        | true ↦ elim e [
          | some c ↦ (some fail, none, w'')
          | none ↦ (none, some (record self { is_malloced = true }), w'')
        ]
      ]

  unfoldable pub configure :
      NetportalIox I W → Option I → Option (Framer (Fan W)) → ℕ → ℕ → Dterr × NetportalIox I W
  configure self none framer_handle max_length priority = (some argument_null, self)
  configure self (some i) none max_length priority = (some argument_null, self)
  configure self (some i) (some framer) max_length priority =
      elim (validate_priority_enum priority) [
        | some c ↦ (some c, self)
        | none ↦ (
          none,
          record self {
            iox_handle = some i;
            framer_handle = some framer;
            max_encoded_buffer_length = if max_length == 0 then 128 else max_length;
            rx_tasker_priority = if priority == 0 then rx_tasker_priority_default else priority;
          },
        )
      ]

  -- The task for reading is created, gets its entry point and is started.
  unfoldable pub start_rx_tasker : Runtime W → NetportalIox I W → W → Dterr × NetportalIox I W × W
  start_rx_tasker runtime self w =
      let (e, handle, w1) = runtime.tasker_create self.rx_tasker_priority w in
      let self' = record self { rxtasker_handle = handle } in
      let (e', w2) = runtime.tasker_set_entry_point handle w1 in
      let (e'', w3) = runtime.tasker_start handle w2 in
      elim e [
        | some c ↦ (some c, self', w1)
        | none ↦ elim e' [ some c ↦ (some c, self', w2) | none ↦ (e'', self', w3) ]
      ]

  -- The semaphore is set, the device attached and enabled, and last fan-out is switched on.
  unfoldable pub start_device : Iox I → NetportalIox I W → I → Dterr × NetportalIox I W
  start_device iox self i =
      let (e, i1) = iox.iox_set_rx_semaphore i self.rx_semaphore_handle in
      let (e', i2) = iox.iox_attach i1 in
      let (e'', i3) = iox.iox_enable i2 true in
      elim e [
        | some c ↦ (some c, record self { iox_handle = some i1 })
        | none ↦ elim e' [
          | some c ↦ (some c, record self { iox_handle = some i2 })
          | none ↦ elim e'' [
            | some c ↦ (some c, record self { iox_handle = some i3 })
            | none ↦ (none, record self { iox_handle = some i3; should_fan_out = true })
          ]
        ]
      ]

  unfoldable pub activate :
      Iox I → Runtime W → System W → NetportalIox I W → W → Dterr × NetportalIox I W × W
  activate iox runtime system self w = elim self.framer_handle [
    | none ↦ (some fail, self, w)
    | some framer ↦
        let (e, framer') = set_message_callback framer (some (framer_decoded_callback system)) in
        let self' = record self { framer_handle = some framer' } in
        let (e', s, w') = start_rx_tasker runtime self' w in
        elim e [
          | some c ↦ (some c, self', w)
          | none ↦ elim e' [
            | some c ↦ (some c, s, w')
            | none ↦ elim s.iox_handle [
              | none ↦ (some fail, s, w')
              | some i ↦ let (e'', last) = start_device iox s i in (e'', last, w')
            ]
          ]
        ]
  ]

  -- What `dispose` sets first, for the task to see when it is woken up.
  unfoldable pub request_stop : NetportalIox I W → NetportalIox I W
  request_stop self = record self { should_fan_out = false; should_rx_thread_stop = true }

-- The naps of `dispose`, at most so many, until the task has stopped.
unfoldable pub wait_for_tasker : {W : Type 0} → Runtime W → Pointer → ℕ → W → W
wait_for_tasker runtime handle zero w = w
wait_for_tasker runtime handle (suc tries) w =
    let later = wait_for_tasker runtime handle tries (runtime.sleep 100 w) in
    if runtime.tasker_is_running handle w then later else w

-- `none`: the object was freed. What the task does while `dispose` waits for it is part of what becomes
-- of the world.
unfoldable pub dispose :
    {I W : Type 0} → Runtime W → NetportalIox I W → W → Option (NetportalIox I W) × W
dispose runtime self w =
    let stopping = request_stop self in
    let posted = runtime.semaphore_post stopping.rx_semaphore_handle w in
    let napped = wait_for_tasker runtime stopping.rxtasker_handle 5 posted in
    let waited = if stopping.rxtasker_handle == 0 then posted else napped in
    (
      (if stopping.is_malloced then none else some zeroed),
      runtime.semaphore_dispose stopping.rx_semaphore_handle
          (runtime.dispose_buffer (runtime.dispose_buffer waited)),
    )
