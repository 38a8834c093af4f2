-- ===== src/Distributors/Chunks.antt =====
-- A buffer that is distributed in chunks at a portal in shared memory, and put together again by the
-- distributor behind the router of this portal.
use dtmc_base.Common.{
  ℕ, zero, suc, ◌+◌, ◌≤◌, ◌<◌, ◌≡◌, ◌≢◌, ◌∙◌, refl, ap, sym, List, [], ◌∷◌, ◌++◌, none, some, ok,
  length, arith, ◌==◌, false, append_assoc, append-nil, length-append,
}
use dtmc_base.Manifold.{Pointer, CString, System}
use dtmc_base.NetPortal.Shm.{NetportalShm}
use dtmc_base.NetBridge.{Netportal}
use dtmc_base.NetBridge.Relay.{shm}
use dtmc_base.Distributors.{Bufferqueue, BufferqueueLaws}
use dtmc_base.Distributors.Listening.{IsListening, receiving, publish_received}
use dtmc_base.Distributors.Buffers.{
  Chunker, BufferDistributor, netportal_receive_callback, import_step, get_step, collect_loop,
  reset_step, collect, publish_step, export_step, distribute_loop, start_step, distribute,
}

-- What users of a chunker count on, in terms of the chunks still to come: the chunks of a buffer are
-- exported one by one, and a chunker that imports the chunks of a buffer gives this buffer with the last one.
pub record ChunkerLaws {C : Type 0} (chunker : Chunker C) : Type 1 where
  pub AreChunks : List ℕ → List (List ℕ) → Type 0
  pub Exporting : C → List ℕ → List (List ℕ) → Type 0
  pub Importing : C → List ℕ → List (List ℕ) → Type 0
  pub export_some :
      (c : C) (buffer chunk : List ℕ) (chunks : List (List ℕ))
      → Exporting c buffer (chunk ∷ chunks)
      → (c' : C) × (chunker.chunker_export c buffer ≡ (ok (some chunk), c'))
        × Exporting c' buffer chunks
  pub export_none :
      (c : C) (buffer : List ℕ)
      → Exporting c buffer []
      → (c' : C) × (chunker.chunker_export c buffer ≡ (ok none, c'))
  pub reset_import :
      (c c' : C) (buffer : List ℕ) (chunks : List (List ℕ))
      → chunker.chunker_reset c ≡ (none, c')
      → AreChunks buffer chunks
      → Importing c' buffer chunks
  pub import_more :
      (c : C) (buffer chunk next : List ℕ) (chunks : List (List ℕ))
      → Importing c buffer (chunk ∷ next ∷ chunks)
      → (c' : C) × (chunker.chunker_import c chunk ≡ (ok none, c'))
        × Importing c' buffer (next ∷ chunks)
  pub import_last :
      (c : C) (buffer chunk : List ℕ)
      → Importing c buffer (chunk ∷ [])
      → (c' : C) × (chunker.chunker_import c chunk ≡ (ok (some buffer), c'))

module _ {C : Type 0} {chunker : Chunker C} (laws : ChunkerLaws chunker) {W : Type 0}
    (system : System W) (queue : Bufferqueue W) (receiver : BufferDistributor C)
    (receive_callback : Pointer) (topic : CString) where
  abbrev pub receiving_portal : Netportal NetportalShm W
  receiving_portal =
      shm (receiving system (netportal_receive_callback chunker queue receiver) receive_callback)

  module _ (queued : BufferqueueLaws queue receiver.config.bufferqueue_handle)
      (self_address : Pointer) (room : (n : ℕ) (w : W) → system.create_buffer n w ≡ (none, w))
      (portal : NetportalShm) (is : IsListening receive_callback self_address topic portal) where
    distribute_loop_lem :
        (buffer : List ℕ) (chunks : List (List ℕ)) (fuel : ℕ) (c : C) (w : W)
        → laws.Exporting c buffer chunks
        → length (queued.contents w) + length chunks ≤ queued.capacity
        → length chunks < fuel
        → (c' : C) × (w' : W) × (distribute_loop chunker queue receiving_portal buffer topic fuel c
              portal w
            ≡ some (none, c', portal, w'))
          × (queued.contents w' ≡ queued.contents w ++ chunks)
    unfolding distribute_loop export_step publish_step
    distribute_loop_lem buffer chunks zero c w exporting space enough = elim enough [ ]
    distribute_loop_lem buffer [] (suc fuel) c w exporting space enough =
        let (c', exported) = laws.export_none c buffer exporting in
        (c', w, rw exported refl, sym (append-nil (queued.contents w)))
    distribute_loop_lem buffer (chunk ∷ chunks) (suc fuel) c w exporting space enough =
        let (c1, exported, exporting') = laws.export_some c buffer chunk chunks exporting in
        let (w1, put, kept) = queued.put_lem chunk w (omega arith) in
        let published =
          publish_received system (netportal_receive_callback chunker queue receiver)
            receive_callback self_address topic portal chunk w w1 room is
            (unfold netportal_receive_callback in put) in
        let longer : length (queued.contents w1) ≡ length (queued.contents w) + 1 =
          ap length kept ∙ length-append (queued.contents w) (chunk ∷ []) in
        let (c2, w2, others, kept') =
          distribute_loop_lem buffer chunks fuel c1 w1 exporting' (omega (arith, longer))
            (omega arith) in
        (
          c2,
          w2,
          ap
                (export_step chunker queue receiving_portal
                  (distribute_loop chunker queue receiving_portal buffer topic fuel) topic portal w)
                exported
              ∙ ap
                  (publish_step chunker queue receiving_portal
                    (distribute_loop chunker queue receiving_portal buffer topic fuel) c1)
                  published
              ∙ others,
          kept' ∙ ap (λ l. l ++ chunks) kept ∙ append_assoc (queued.contents w) (chunk ∷ []) chunks,
        )

    collect_loop_lem :
        (buffer chunk : List ℕ) (chunks : List (List ℕ)) (fuel : ℕ) (c : C) (w : W)
        → laws.Importing c buffer (chunk ∷ chunks)
        → queued.contents w ≡ chunk ∷ chunks
        → length chunks < fuel
        → (c' : C) × (w' : W) × (collect_loop chunker queue receiver.config.bufferqueue_handle fuel
              c w
            ≡ some (ok buffer, c', w'))
          × (queued.contents w' ≡ [])
    unfolding collect_loop get_step import_step
    collect_loop_lem buffer chunk chunks zero c w importing waits enough = elim enough [ ]
    collect_loop_lem buffer chunk [] (suc fuel) c w importing waits enough =
        let (w1, got, kept) = queued.get_lem chunk [] w waits in
        let (c1, imported) = laws.import_last c buffer chunk importing in
        (c1, w1, rw (got, imported) refl, kept)
    collect_loop_lem buffer chunk (next ∷ chunks) (suc fuel) c w importing waits enough =
        let (w1, got, kept) = queued.get_lem chunk (next ∷ chunks) w waits in
        let (c1, imported, importing') = laws.import_more c buffer chunk next chunks importing in
        let (c2, w2, others, kept') =
          collect_loop_lem buffer next chunks fuel c1 w1 importing' kept (omega arith) in
        (c2, w2, rw (got, imported) others, kept')

    -- A buffer that a distributor distributes in chunks at a portal in shared memory, where the receiving
    -- distributor is the only recipient of the topic and its queue is empty and has room for the chunks, is
    -- collected there whole, and the queue is empty again. Both loops end when they have fuel for a round
    -- more than there are chunks, of which there is at least one. There is memory for copies.
    pub collect-distribute :
        (sender : BufferDistributor C) (buffer chunk : List ℕ) (chunks : List (List ℕ)) (c c' : C)
        (fuel timeout_ms : ℕ) (w : W)
        → sender.config.topic ≡ some topic
        → chunker.chunker_reset sender.chunker ≡ (none, c)
        → laws.Exporting c buffer (chunk ∷ chunks)
        → laws.AreChunks buffer (chunk ∷ chunks)
        → chunker.chunker_reset receiver.chunker ≡ (none, c')
        → receiver.config.bufferqueue_handle ≢ 0
        → queued.contents w ≡ []
        → length (chunk ∷ chunks) ≤ queued.capacity
        → length (chunk ∷ chunks) < fuel
        → (sent : C) × (received : C) × (w1 : W) × (w2 : W) × (distribute chunker queue
              receiving_portal fuel sender buffer portal w
            ≡ some (none, sent, portal, w1))
          × (collect chunker queue fuel receiver timeout_ms w1
              ≡ some (none, some buffer, record receiver { chunker = received }, w2))
          × (queued.contents w2 ≡ [])
    unfolding distribute start_step collect reset_step
    collect-distribute sender buffer chunk chunks c c' fuel timeout_ms w named reset exporting are
          reset' handled nothing space enough =
        let (sent, w1, distributed, kept) =
          distribute_loop_lem buffer (chunk ∷ chunks) fuel c w exporting
            (omega (arith, ap length nothing)) enough in
        let (received, w2, whole, kept') =
          collect_loop_lem buffer chunk chunks fuel c' w1
            (laws.reset_import receiver.chunker c' buffer (chunk ∷ chunks) reset' are)
            (kept ∙ ap (λ l. l ++ (chunk ∷ chunks)) nothing) (omega arith) in
        let set : (receiver.config.bufferqueue_handle == 0) ≡ false = ground (arith, handled) in
        (sent, received, w1, w2, rw (named, reset) distributed, rw (set, reset', whole) refl, kept')
