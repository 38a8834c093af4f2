-- ===== src/IoxDummy/Device.antt =====
-- The operations of dtiox_dummy.c. The pointers that it checks for NULL are never NULL here.
use dtmc_base.Common.{
  ℕ, List, [], Option, none, some, Dterr, nomem, fail, Bool, true, false, not, ◌&&◌, ◌||◌, ◌==◌,
  slt, is_negative, if◌then◌else◌, take,
}
use dtmc_base.IoxDummy.{Ringfifo, IoxBehavior, IoxConfig, IoxDummy}
use dtmc_base.Framer.Config.{int32_to_size}

-- `DTMC_BASE_CONSTANTS_IOX_MODEL_DUMMY`.
abbrev pub iox_model_dummy : ℕ
iox_model_dummy = 21701

-- `dtuart_helper_default_config`: the baud rate and the constants for 8 bits, no parity, two stop
-- bits and no flow control.
abbrev pub uart_default_config : ℕ × ℕ × ℕ × ℕ × ℕ
uart_default_config = (115200, 2, 1, 2, 1)

module _ {Q : Type 0} (fifo : Ringfifo Q) where
  -- The object after `memset (self, 0, sizeof (*self))`.
  abbrev pub zeroed : IoxDummy Q
  zeroed = record {
    model_number = 0;
    is_malloced = false;
    cfg = record {
      uart_config = (0, 0, 0, 0, 0);
      name = [];
      pin_tx = 0;
      pin_rx = 0;
      pin_rts = 0;
      pin_cts = 0;
    };
    enabled = false;
    behavior = record { loopback = false; rx_capacity = 0; tx_capacity = 0 };
    rx_semaphore = 0;
    rx_mem = false;
    tx_mem = false;
    rx_fifo = fifo.zeroed_fifo;
    tx_fifo = fifo.zeroed_fifo;
  }

  -- `_alloc_buffers`. `malloc` says for a size whether there is a block.
  unfoldable pub alloc_buffers : (ℕ → Bool) → IoxDummy Q → ℕ → ℕ → Dterr × IoxDummy Q
  alloc_buffers malloc self rx_cap tx_cap =
      if not (malloc (int32_to_size rx_cap))
      then (some nomem, record self { rx_mem = false })
      else if not (malloc (int32_to_size tx_cap))
      then (some nomem, record self { rx_mem = false; tx_mem = false })
      else (let (e, rx) = fifo.fifo_configure self.rx_fifo rx_cap in
          elim e [
            | some c ↦ (some c, record self { rx_mem = false; tx_mem = false; rx_fifo = rx })
            | none ↦
                let (e', tx) = fifo.fifo_configure self.tx_fifo tx_cap in
                elim e' [
                  | some c ↦ (
                    some c,
                    record self { rx_mem = false; tx_mem = false; rx_fifo = rx; tx_fifo = tx },
                  )
                  | none ↦ (
                    none,
                    record self { rx_mem = true; tx_mem = true; rx_fifo = rx; tx_fifo = tx },
                  )
                ]
          ])

  -- The object that `init` registers once its ring buffers are initialised.
  abbrev pub with_fifos : Q → Q → IoxDummy Q
  with_fifos rx tx = record zeroed {
    model_number = iox_model_dummy;
    cfg = record zeroed.cfg { uart_config = uart_default_config };
    behavior = record { loopback = true; rx_capacity = 1024; tx_capacity = 1024 };
    rx_fifo = rx;
    tx_fifo = tx;
  }

  unfoldable pub init : (ℕ → Bool) → (ℕ → Dterr) → Dterr × IoxDummy Q
  init malloc set_vtable =
      let (e, rx) = fifo.fifo_init fifo.zeroed_fifo in
      elim e [
        | some c ↦ (some c, with_fifos rx fifo.zeroed_fifo)
        | none ↦
            let (e', tx) = fifo.fifo_init fifo.zeroed_fifo in
            elim e' [
              | some c ↦ (some c, with_fifos rx tx)
              | none ↦
                  let (e'', self) = alloc_buffers malloc (with_fifos rx tx) 1024 1024 in
                  elim e'' [ some c ↦ (some c, self) | none ↦ (set_vtable iox_model_dummy, self) ]
            ]
      ]

  -- `init` clears the mark of an allocated object that `create` sets before it. The object is `none`
  -- where `*self_ptr` is left alone or set to NULL.
  unfoldable pub create : (ℕ → Bool) → (ℕ → Dterr) → Bool → Dterr × Option (IoxDummy Q)
  create malloc set_vtable false = (some nomem, none)
  create malloc set_vtable true =
      let (e, self) = init malloc set_vtable in
      elim e [ some c ↦ (some c, none) | none ↦ (none, some self) ]

  unfoldable pub configure : IoxDummy Q → IoxConfig → Dterr × IoxDummy Q
  configure self cfg = (none, record self { cfg = cfg })

  unfoldable pub set_behavior : (ℕ → Bool) → IoxDummy Q → IoxBehavior → Dterr × IoxDummy Q
  set_behavior malloc self b =
      if (not self.rx_mem || not (self.behavior.rx_capacity == b.rx_capacity))
        || (not self.tx_mem || not (self.behavior.tx_capacity == b.tx_capacity))
      then alloc_buffers malloc (record self { behavior = b; rx_mem = false; tx_mem = false })
          b.rx_capacity b.tx_capacity
      else (none, record self { behavior = b })

  unfoldable pub attach : IoxDummy Q → Dterr × IoxDummy Q
  attach self = (none, self)

  unfoldable pub detach : IoxDummy Q → Dterr × IoxDummy Q
  detach self = (none, self)

  unfoldable pub enable : IoxDummy Q → Bool → Dterr × IoxDummy Q
  enable self on = (none, record self { enabled = on })

  -- The bytes are those that `*out_read` counts.
  unfoldable pub read : IoxDummy Q → ℕ → Dterr × List ℕ × IoxDummy Q
  read self buf_len =
      let (got, bytes, rx) = fifo.pop self.rx_fifo buf_len in
      if buf_len == 0
      then (none, [], self)
      else (none, (if is_negative got then [] else take got bytes), record self { rx_fifo = rx })

  -- The number is what is stored in `*out_written`.
  unfoldable pub write : IoxDummy Q → List ℕ → ℕ → Dterr × ℕ × IoxDummy Q
  write self buf len =
      let (pushed, tx) = fifo.push self.tx_fifo buf len in
      let wrote = if is_negative pushed then 0 else pushed in
      let (_, rx) = fifo.push self.rx_fifo buf wrote in
      if len == 0 then (none, 0, self) else (
        (if slt wrote len then some fail else none),
        wrote,
        record self {
          tx_fifo = tx;
          rx_fifo = if self.behavior.loopback && slt 0 wrote then rx else self.rx_fifo;
        },
      )

  unfoldable pub set_rx_semaphore : IoxDummy Q → ℕ → Dterr × IoxDummy Q
  set_rx_semaphore self handle = (none, record self { rx_semaphore = handle })

  -- `none`: the object was freed.
  unfoldable pub dispose : IoxDummy Q → Option (IoxDummy Q)
  dispose self = if self.is_malloced then none else some zeroed

  unfoldable pub push_rx_bytes : IoxDummy Q → List ℕ → ℕ → Dterr × IoxDummy Q
  push_rx_bytes self bytes len =
      let (pushed, rx) = fifo.push self.rx_fifo bytes len in
      let wrote = if is_negative pushed then 0 else pushed in
      if len == 0
      then (none, self)
      else ((if slt wrote len then some fail else none), record self { rx_fifo = rx })
