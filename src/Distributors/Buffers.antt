-- ===== src/Distributors/Buffers.antt =====
-- The distributor of buffers of any length, in chunks: dtbuffer_distributor.c.
use dtmc_base.Common.{
  ℕ, zero, suc, List, Option, none, some, Result, ErrorCode, ok, err, Dterr, fail, ◌==◌,
  if◌then◌else◌,
}
use dtmc_base.Manifold.{Pointer, CString}
use dtmc_base.Packing.{text_or_empty}
use dtmc_base.NetBridge.{Netportal}
use dtmc_base.Distributors.{Bufferqueue}

-- `dtchunker_t` of dtcore: `init` with a size, `reset`, `export` of the next chunk of a buffer, which is
-- none where there are no more, and `import` of a chunk, which gives a buffer where it is the last one.
pub record Chunker (C : Type 0) : Type 0 where
  pub zeroed_chunker : C
  pub chunker_init : C → ℕ → Dterr × C
  pub chunker_reset : C → Dterr × C
  pub chunker_export : C → List ℕ → Result (Option (List ℕ)) × C
  pub chunker_import : C → List ℕ → Result (Option (List ℕ)) × C

-- `dtbuffer_distributor_config_t`. The topic is `none` where the pointer is NULL.
pub record BufferDistributorConfig : Type 0 where
  pub topic : Option CString
  pub netportal_handle : Pointer
  pub netportal_payload_chunk_size : ℕ
  pub bufferqueue_handle : Pointer

-- `dtbuffer_distributor_t`.
pub record BufferDistributor (C : Type 0) : Type 0 where
  pub config : BufferDistributorConfig
  pub chunker : C

abbrev pub zeroed_config : BufferDistributorConfig
zeroed_config = record {
  topic = none;
  netportal_handle = 0;
  netportal_payload_chunk_size = 0;
  bufferqueue_handle = 0;
}

abbrev pub failed : Dterr → Dterr
failed none = none
failed (some e) = some fail

module _ {C : Type 0} (chunker : Chunker C) where
  abbrev pub init : BufferDistributor C
  init = record { config = zeroed_config; chunker = chunker.zeroed_chunker }

  -- The memory of the chunker is freed and the object cleared.
  unfoldable pub dispose : BufferDistributor C → BufferDistributor C
  dispose self = init

  abbrev pub default_chunk_size : ℕ
  default_chunk_size = 240

  -- `null_error` is the error of `DTERR_ASSERT_NOT_NULL` of dtcore.
  unfoldable pub configure :
      ErrorCode → BufferDistributor C → Option BufferDistributorConfig → Dterr × BufferDistributor C
  configure null_error self none = (some null_error, self)
  configure null_error self (some config) =
      let size =
        if config.netportal_payload_chunk_size == 0
        then default_chunk_size
        else config.netportal_payload_chunk_size in
      let (e, c) = chunker.chunker_init self.chunker size in
      let self' : BufferDistributor C = record {
        config = record config { netportal_payload_chunk_size = size };
        chunker = c;
      } in
      if config.netportal_handle == 0
      then (some null_error, self)
      else elim config.topic [ none ↦ (some null_error, self) | some topic ↦ (e, self') ]

  module _ {W : Type 0} (queue : Bufferqueue W) where
    unfoldable pub netportal_receive_callback : BufferDistributor C → List ℕ → W → Dterr × W
    netportal_receive_callback self buffer w = queue.put self.config.bufferqueue_handle buffer w

    -- What the loop of `collect` ends with, where the fuel is enough: a buffer or an error.
    abbrev pub Collected : Type 0
    Collected = Option (Result (List ℕ) × C × W)

    -- The loop goes on behind a chunk that is not the last one.
    unfoldable pub import_step : (C → W → Collected) → W → Result (Option (List ℕ)) × C → Collected
    import_step again w (err e, c) = some (err e, c, w)
    import_step again w (ok none, c) = again c w
    import_step again w (ok (some buffer), c) = some (ok buffer, c, w)

    unfoldable pub get_step : (C → W → Collected) → C → Result (List ℕ) × W → Collected
    get_step again c (err e, w) = some (err e, c, w)
    get_step again c (ok chunk, w) = import_step again w (chunker.chunker_import c chunk)

    unfoldable pub collect_loop : Pointer → ℕ → C → W → Collected
    collect_loop handle zero c w = none
    collect_loop handle (suc fuel) c w = get_step (collect_loop handle fuel) c (queue.get handle w)

    -- The cleanup of `collect`: every error becomes DTERR_FAIL, and the buffer is NULL.
    abbrev pub collected :
        BufferDistributor C → Collected → Option (Dterr × Option (List ℕ) × BufferDistributor C × W)
    collected self none = none
    collected self (some (err e, c, w)) = some (some fail, none, record self { chunker = c }, w)
    collected self (some (ok buffer, c, w)) =
        some (none, some buffer, record self { chunker = c }, w)

    unfoldable pub reset_step : (C → W → Collected) → W → Dterr × C → Collected
    reset_step loop w (some e, c) = some (err e, c, w)
    reset_step loop w (none, c) = loop c w

    -- The timeout that the caller gives is not used.
    unfoldable pub collect :
        ℕ → BufferDistributor C → ℕ → W → Option (Dterr × Option (List ℕ) × BufferDistributor C × W)
    collect fuel self timeout_ms w =
        let handle = self.config.bufferqueue_handle in
        if handle == 0
        then some (some fail, none, self, w)
        else collected self
            (reset_step (collect_loop handle fuel) w (chunker.chunker_reset self.chunker))

    module _ {P : Type 0} (netportal : Netportal P W) where
      -- The addresses of the object and of its callback.
      unfoldable pub subscribe : BufferDistributor C → P → Pointer → Pointer → W → Dterr × P × W
      subscribe self portal self_address receive_callback w =
          let (e, portal', w') =
            netportal.portal_subscribe portal (text_or_empty self.config.topic) self_address
              receive_callback w in
          if self.config.bufferqueue_handle == 0
          then (some fail, portal, w)
          else (failed e, portal', w')

      -- What the loop of `distribute` ends with, where the fuel is enough.
      abbrev pub Distributed : Type 0
      Distributed = Option (Dterr × C × P × W)

      unfoldable pub publish_step : (C → P → W → Distributed) → C → Dterr × P × W → Distributed
      publish_step again c (some e, portal, w) = some (some e, c, portal, w)
      publish_step again c (none, portal, w) = again c portal w

      unfoldable pub export_step :
          (C → P → W → Distributed) → CString → P → W → Result (Option (List ℕ)) × C → Distributed
      export_step again topic portal w (err e, c) = some (some e, c, portal, w)
      export_step again topic portal w (ok none, c) = some (none, c, portal, w)
      export_step again topic portal w (ok (some chunk), c) =
          publish_step again c (netportal.portal_publish portal topic chunk w)

      unfoldable pub distribute_loop : List ℕ → CString → ℕ → C → P → W → Distributed
      distribute_loop buffer topic zero c portal w = none
      distribute_loop buffer topic (suc fuel) c portal w =
          export_step (distribute_loop buffer topic fuel) topic portal w
            (chunker.chunker_export c buffer)

      unfoldable pub start_step : (C → P → W → Distributed) → P → W → Dterr × C → Distributed
      start_step loop portal w (some e, c) = some (some e, c, portal, w)
      start_step loop portal w (none, c) = loop c portal w

      -- A topic that was configured is not NULL.
      unfoldable pub distribute : ℕ → BufferDistributor C → List ℕ → P → W → Distributed
      distribute fuel self buffer portal w =
          start_step (distribute_loop buffer (text_or_empty self.config.topic) fuel) portal w
            (chunker.chunker_reset self.chunker)
