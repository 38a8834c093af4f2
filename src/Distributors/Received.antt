-- ===== src/Distributors/Received.antt =====
-- Profiles that one node distributes at a portal in shared memory, and that the distributor behind the
-- router of this portal collects.
use dtmc_base.Common.{
  ℕ, zero, suc, ◌+◌, ◌^◌, ◌≤◌, ◌<◌, ◌≡◌, ◌∙◌, refl, ap, sym, List, [], ◌∷◌, ◌++◌, none, some, ok,
  Dterr, length, arith, copy_into, take_all, ◌or_else◌, append_assoc, append-nil, length-append,
}
use dtmc_base.Manifold.{Pointer, CString, System}
use dtmc_base.NetPortal.Shm.{NetportalShm}
use dtmc_base.NetBridge.{Netportal}
use dtmc_base.NetBridge.Relay.{shm}
use dtmc_base.Packing.{Packx, PackxLaws}
use dtmc_base.Packing.Steps.{copy_into_whole}
use dtmc_base.NetProfile.{NetProfile, empty, pack_length, pack, unpack}
use dtmc_base.NetProfile.Wire.{
  IsPackable, filled, encode_profile, pack_length-eq-length, pack_fits, unpack_lem,
}
use dtmc_base.Distributors.{Bufferqueue, BufferqueueLaws}
use dtmc_base.Distributors.Listening.{IsListening, receiving, publish_received}
use dtmc_base.Distributors.Profiles.{
  ProfileDistributor, netportal_receive_callback, unpack_buffer, collect, publish_buffer,
  distribute, failed,
}

-- The calls go on until one fails.
abbrev pub continue : {P W : Type 0} → Dterr × P × W → Dterr × P × W → Dterr × P × W
continue (some e, p, w) rest = (some e, p, w)
continue (none, p, w) rest = rest

abbrev pub map_filled : List NetProfile → List NetProfile
map_filled [] = []
map_filled (profile ∷ profiles) = filled profile ∷ map_filled profiles

module _ {packx : Packx} (laws : PackxLaws packx) {W : Type 0} (system : System W)
    (queue : Bufferqueue W) (self : ProfileDistributor) (receive_callback : Pointer)
    (topic : CString) where
  abbrev pub distribute_one : NetProfile → NetportalShm → W → Dterr × NetportalShm × W
  distribute_one profile portal w =
      distribute queue
        (shm (receiving system (netportal_receive_callback queue self) receive_callback)) topic
        packx profile portal w

  unfoldable pub distribute_all : List NetProfile → NetportalShm → W → Dterr × NetportalShm × W
  distribute_all [] portal w = (none, portal, w)
  distribute_all (profile ∷ profiles) portal w =
      let r = distribute_one profile portal w in continue r (distribute_all profiles r.1 r.2)

  unfoldable pub collect_all : ℕ → W → Dterr × List NetProfile × W
  collect_all zero w = (none, [], w)
  collect_all (suc n) w =
      let (e, profile, w') = collect queue packx self empty w in
      let (e', profiles, w'') = collect_all n w' in (e or_else e', profile ∷ profiles, w'')

  -- The packed forms of the profiles are of less than 2 ^ 31 bytes, and no list has a NUL.
  abbrev pub AreSendable : List NetProfile → Type 0
  AreSendable [] = Unit
  AreSendable (profile ∷ profiles) =
      (IsPackable profile × (length (encode_profile laws profile) < 2 ^ 31)) × AreSendable profiles

  abbrev codes : List NetProfile → List (List ℕ)
  codes [] = []
  codes (profile ∷ profiles) = encode_profile laws profile ∷ codes profiles

  module _ (queued : BufferqueueLaws queue self.bufferqueue_handle) (self_address : Pointer)
      (room : (n : ℕ) (w : W) → system.create_buffer n w ≡ (none, w)) where
    distribute_lem :
        (profile : NetProfile) (portal : NetportalShm) (w : W)
        → IsListening receive_callback self_address topic portal
        → IsPackable profile
        → length (encode_profile laws profile) < 2 ^ 31
        → length (queued.contents w) < queued.capacity
        → (w' : W) × (distribute_one profile portal w ≡ (none, portal, w'))
          × (queued.contents w' ≡ queued.contents w ++ (encode_profile laws profile ∷ []))
    unfolding distribute publish_buffer
    distribute_lem profile portal w is packable small space =
        let code : List ℕ = encode_profile laws profile in
        let size : pack_length profile ≡ length code =
          pack_length-eq-length laws profile packable small in
        let (buffer, created, long) = queued.create_buffer_lem (length code) w in
        let packed : pack packx profile buffer 0 (length code)
            ≡ (ok (length code), copy_into buffer 0 code) =
          pack_fits laws profile buffer 0 (length code) packable (omega arith) (omega (arith, long))
            small (omega arith) in
        let (w', put, kept) = queued.put_lem code w space in
        let published =
          publish_received system (netportal_receive_callback queue self) receive_callback
            self_address topic portal code w w' room is
            (unfold netportal_receive_callback in put) in
        let at : Netportal NetportalShm W =
          shm (receiving system (netportal_receive_callback queue self) receive_callback) in
        (
          w',
          ap (λ n. publish_buffer queue at topic packx profile n portal (queue.create_buffer n w))
                size
              ∙ ap (publish_buffer queue at topic packx profile (length code) portal) created
              ∙ ap
                  (λ bytes.
                    let (e, p, v) = at.portal_publish portal topic bytes w in
                    (failed queue at topic e, p, v))
                  (ap (λ s. s.1) packed ∙ copy_into_whole buffer code long)
              ∙ ap (λ r. (failed queue at topic r.0, r.1, r.2)) published,
          kept,
        )

    collect_lem :
        (profile old : NetProfile) (rest : List (List ℕ)) (w : W)
        → IsPackable profile
        → length (encode_profile laws profile) < 2 ^ 31
        → queued.contents w ≡ encode_profile laws profile ∷ rest
        → (w' : W) × (collect queue packx self old w ≡ (none, filled profile, w'))
          × (queued.contents w' ≡ rest)
    unfolding collect unpack_buffer
    collect_lem profile old rest w packable small waits =
        let code : List ℕ = encode_profile laws profile in
        let (w', got, kept) = queued.get_lem code rest w waits in
        let unpacked : unpack packx empty code 0 (length code)
            ≡ (ok (length code), filled profile) =
          unpack_lem laws profile empty code 0 (length code) packable
            (take_all (length code) code (omega arith)) (omega arith) (omega arith) small in
        (w', ap (unpack_buffer queue packx old) got ∙ ap (λ r. (none, r.1, w')) unpacked, kept)

    distribute_all_lem :
        (profiles : List NetProfile) (portal : NetportalShm) (w : W)
        → IsListening receive_callback self_address topic portal
        → AreSendable profiles
        → length (queued.contents w) + length profiles ≤ queued.capacity
        → (w' : W) × (distribute_all profiles portal w ≡ (none, portal, w'))
          × (queued.contents w' ≡ queued.contents w ++ codes profiles)
    unfolding distribute_all
    distribute_all_lem [] portal w is sendable space =
        (w, refl, sym (append-nil (queued.contents w)))
    distribute_all_lem (profile ∷ profiles) portal w is sendable space =
        let code : List ℕ = encode_profile laws profile in
        let (w1, one, kept) =
          distribute_lem profile portal w is sendable.0.0 sendable.0.1 (omega arith) in
        let longer : length (queued.contents w1) ≡ length (queued.contents w) + 1 =
          ap length kept ∙ length-append (queued.contents w) (code ∷ []) in
        let (w2, others, kept') =
          distribute_all_lem profiles portal w1 is sendable.1 (omega (arith, longer)) in
        (
          w2,
          ap (λ r. continue r (distribute_all profiles r.1 r.2)) one ∙ others,
          kept'
              ∙ ap (λ l. l ++ codes profiles) kept
              ∙ append_assoc (queued.contents w) (code ∷ []) (codes profiles),
        )

    collect_all_lem :
        (profiles : List NetProfile) (w : W)
        → AreSendable profiles
        → queued.contents w ≡ codes profiles
        → (w' : W) × (collect_all (length profiles) w ≡ (none, map_filled profiles, w'))
          × (queued.contents w' ≡ [])
    unfolding collect_all
    collect_all_lem [] w sendable waits = (w, refl, waits)
    collect_all_lem (profile ∷ profiles) w sendable waits =
        let (w1, one, kept) =
          collect_lem profile empty (codes profiles) w sendable.0.0 sendable.0.1 waits in
        let (w2, others, kept') = collect_all_lem profiles w1 sendable.1 kept in
        (w2, rw (one, others) refl, kept')

    -- Profiles that are distributed at a portal in shared memory, where the distributor is the only
    -- recipient of the topic and its queue is empty and has room for them, are collected from the queue in
    -- the same order, with empty strings for lists that are NULL, and all calls succeed. No list has a NUL,
    -- a packed form is of less than 2 ^ 31 bytes, and there is memory for the buffers.
    pub collect_all-distribute_all :
        (profiles : List NetProfile) (portal : NetportalShm) (w : W)
        → IsListening receive_callback self_address topic portal
        → AreSendable profiles
        → queued.contents w ≡ []
        → length profiles ≤ queued.capacity
        → (w1 : W) × (w2 : W) × (distribute_all profiles portal w ≡ (none, portal, w1))
          × (collect_all (length profiles) w1 ≡ (none, map_filled profiles, w2))
          × (queued.contents w2 ≡ [])
    collect_all-distribute_all profiles portal w is sendable nothing space =
        let (w1, sent, kept) =
          distribute_all_lem profiles portal w is sendable (omega (arith, ap length nothing)) in
        let (w2, collected, kept') =
          collect_all_lem profiles w1 sendable (kept ∙ ap (λ l. l ++ codes profiles) nothing) in
        (w1, w2, sent, collected, kept')
