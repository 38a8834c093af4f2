-- ===== src/NetBridge/Relay.antt =====
-- What dtnetbridge.c does with a message at its north portal, for portals in shared memory.
use dtmc_base.Common.{
  ℕ, ◌≡◌, refl, List, [], ◌∷◌, none, Dterr, ok, true, ◌==◌, arith, if◌then◌else◌, get_or, length,
}
use dtmc_base.Manifold.{CString, Manifold, System, no_subject}
use dtmc_base.Manifold.Table.{find_or_add_subject, validate_subject_name}
use dtmc_base.Manifold.Publish.{publish, snapshot}
use dtmc_base.Manifold.Single.{publish-one}
use dtmc_base.NetPortal.Shm.{NetportalShm}
use dtmc_base.NetPortal.Shm
use dtmc_base.NetBridge.{
  Netportal, Surroundings, NetBridge, Addresses, receive_north_callback, handle_if_netprofile,
}

-- A portal in shared memory as a portal of a bridge.
abbrev pub shm : {W : Type 0} → System W → Netportal NetportalShm W
shm system = record {
  portal_activate = λ p w. let (e, p') = Shm.activate p in (e, p', w);
  portal_subscribe = Shm.subscribe system;
  portal_publish = Shm.publish system;
  portal_dispose = λ p w. w;
}

module _ {W : Type 0} (system : System W) (around : Surroundings W) (profile : CString) where
  -- What the recipients at the north portal do: the bridge is one, the others are not looked at. The bridge
  -- and the south portal behind it are a part of the world of the north portal.
  abbrev pub north_system : Addresses → System (NetBridge NetportalShm × W)
  north_system addresses = record {
    wait = λ handle timeout v. let (e, w) = system.wait handle timeout v.1 in (e, (v.0, w));
    post = λ handle v. (v.0, system.post handle v.1);
    create_buffer = λ length v. let (e, w) = system.create_buffer length v.1 in (e, (v.0, w));
    call = λ callback self topic payload m v.
        let (e, bridge, w) =
          receive_north_callback (shm system) around profile v.0 topic payload v.1 in
        if callback == addresses.receive_north then (e, m, (bridge, w)) else (none, m, v);
  }

  -- A message that is published at the north portal on a topic to which only the bridge subscribes is
  -- published at the south portal, unchanged, after a profile in it was noted, and the result there is the
  -- result of the publish. The north router has no semaphore and there is memory for a copy.
  pub publish-relayed :
      (addresses : Addresses) (bridge : NetBridge NetportalShm) (north : Manifold) (topic : CString)
      (payload : List ℕ) (i : ℕ) (w : W)
      → ((n : ℕ) (v : W) → system.create_buffer n v ≡ (none, v))
      → validate_subject_name topic ≡ none
      → north.semaphore_handle ≡ 0
      → find_or_add_subject north topic ≡ ok (i, north)
      → snapshot (get_or north.subjects i no_subject).recipients
        ≡ record {
          recipient_self = addresses.bridge_self;
          newbuffer_callback = addresses.receive_north;
        }
          ∷ []
      → let (e, south, w') =
          Shm.publish system bridge.south_netportal topic payload
            (handle_if_netprofile (shm system) around profile topic payload w) in
        publish (north_system addresses) north topic payload (bridge, w)
        ≡ (e, north, (record bridge { south_netportal = south }, w'))
  unfolding receive_north_callback
  publish-relayed addresses bridge north topic payload i w room valid open_router found one =
      let own : (addresses.receive_north == addresses.receive_north) ≡ true = ground arith in
      let sent : Dterr × NetportalShm × W =
        Shm.publish system bridge.south_netportal topic payload
          (handle_if_netprofile (shm system) around profile topic payload w) in
      publish-one (north_system addresses) north topic payload i
        (record {
          recipient_self = addresses.bridge_self;
          newbuffer_callback = addresses.receive_north;
        })
        (bridge, w) sent.0 (record bridge { south_netportal = sent.1 }, sent.2)
        (rw (room (length payload) w) refl) valid open_router found one (rw own refl)
