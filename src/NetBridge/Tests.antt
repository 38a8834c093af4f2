-- ===== src/NetBridge/Tests.antt =====
-- The bridge at concrete inputs: the world is the list of the payloads that recipients at the south portal
-- got.
use dtmc_base.Common.{◌≡◌, refl, [], ◌∷◌, none, ok, replicate}
use dtmc_base.Manifold.{string_eq, Manifold, no_subject, no_recipient}
use dtmc_base.Manifold.Api
use dtmc_base.Manifold.Table.{validate_subject_name, find_or_add_subject, first_index}
use dtmc_base.Manifold.Publish.{publish, snapshot}
use dtmc_base.NetPortal.Shm.{NetportalShm}
use dtmc_base.NetPortal.Shm
use dtmc_base.NetPortal.Samples.{World, recording, news, router}
use dtmc_base.NetBridge.{Surroundings, NetBridge, Addresses, handle_if_netprofile}
use dtmc_base.NetBridge.Relay.{shm, north_system, publish-relayed}

abbrev around : Surroundings World
around = record {
  dispose_bufferqueue = λ h w. w;
  dispose_semaphore = λ h w. w;
  dispose_dterr = λ e w. w;
  log_netprofile = λ bytes w. w;
}

abbrev addresses : Addresses
addresses = record { bridge_self = 3; receive_north = 1; receive_south = 2 }

abbrev bridge : NetBridge NetportalShm
bridge = record {
  north_bufferqueue_handle = 0;
  south_bufferqueue_handle = 0;
  north_netportal = Shm.zeroed;
  south_netportal = record Shm.zeroed { manifold = router };
  cancellation_semaphore_handle = 0;
  tasker_dterrs = none;
}

-- The router of the north portal, where only the bridge subscribes to `news`.
abbrev north : Manifold
north =
    let r = record no_recipient { recipient_self = 3; newbuffer_callback = 1 } in
    record Api.init {
      subjects =
          record { subject_name = news; recipients = r ∷ replicate 9 no_recipient }
          ∷ replicate 9 no_subject;
    }

north_valid : validate_subject_name news ≡ none
unfolding validate_subject_name
north_valid = refl

north_found : find_or_add_subject north news ≡ ok (0, north)
unfolding find_or_add_subject validate_subject_name first_index string_eq
north_found = refl

north_one :
    snapshot (
      record no_recipient { recipient_self = 3; newbuffer_callback = 1 } ∷ replicate 9 no_recipient)
    ≡ record { recipient_self = 3; newbuffer_callback = 1 } ∷ []
unfolding snapshot
north_one = refl

publish-relayed_example :
    let (e, south, w') =
      Shm.publish recording bridge.south_netportal news
        (1 ∷ 2 ∷ [])
        (handle_if_netprofile (shm recording) around news news (1 ∷ 2 ∷ []) []) in
    publish (north_system recording around news addresses) north news (1 ∷ 2 ∷ []) (bridge, [])
    ≡ (e, north, (record bridge { south_netportal = south }, w'))
publish-relayed_example =
    publish-relayed recording around news addresses bridge north news (1 ∷ 2 ∷ []) 0 []
      (λ n v. refl) north_valid refl north_found north_one
