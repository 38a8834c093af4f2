-- ===== src/NetBridge.antt =====
-- The bridge of two portals of dtmc_base_library/src/dtnetbridge.c.
pub mod Relay
pub mod Tests
use dtmc_base.Common.{ℕ, List, [], ◌∷◌, Option, none, some, Dterr, badarg, if◌then◌else◌}
use dtmc_base.Manifold.{Pointer, CString, string_eq}

-- `dtnetportal_t`, the operations of a portal `P` that the bridge calls, on the state `W` of the world.
pub record Netportal (P W : Type 0) : Type 0 where
  pub portal_activate : P → W → Dterr × P × W
  pub portal_subscribe : P → CString → Pointer → Pointer → W → Dterr × P × W
  pub portal_publish : P → CString → List ℕ → W → Dterr × P × W
  pub portal_dispose : P → W → W

-- The functions that clear the handles of a bridge, and what becomes of the world as a profile is
-- unpacked and written to the log.
pub record Surroundings (W : Type 0) : Type 0 where
  pub dispose_bufferqueue : Pointer → W → W
  pub dispose_semaphore : Pointer → W → W
  pub dispose_dterr : Dterr → W → W
  pub log_netprofile : List ℕ → W → W

-- `dtnetbridge_t`, with the objects behind the handles of its portals.
pub record NetBridge (P : Type 0) : Type 0 where
  pub north_bufferqueue_handle : Pointer
  pub south_bufferqueue_handle : Pointer
  pub north_netportal : P
  pub south_netportal : P
  pub cancellation_semaphore_handle : Pointer
  pub tasker_dterrs : Dterr

-- The addresses of the bridge and of its two callbacks.
pub record Addresses : Type 0 where
  pub bridge_self : Pointer
  pub receive_north : Pointer
  pub receive_south : Pointer

module _ {P W : Type 0} (netportal : Netportal P W) (around : Surroundings W) where
  -- `dtnetportal_handle_if_netprofile`, for the constant `DTMC_BASE_CONSTANTS_NETPROFILE_TOPIC`.
  unfoldable pub handle_if_netprofile : CString → CString → List ℕ → W → W
  handle_if_netprofile netprofile_topic topic payload w =
      if string_eq topic netprofile_topic then around.log_netprofile payload w else w

  -- The errors that are put around errors have their codes.
  unfoldable pub receive_north_callback :
      CString → NetBridge P → CString → List ℕ → W → Dterr × NetBridge P × W
  receive_north_callback netprofile_topic self topic payload w =
      let noted = handle_if_netprofile netprofile_topic topic payload w in
      let (e, p, w') = netportal.portal_publish self.south_netportal topic payload noted in
      (e, record self { south_netportal = p }, w')

  unfoldable pub receive_south_callback :
      CString → NetBridge P → CString → List ℕ → W → Dterr × NetBridge P × W
  receive_south_callback netprofile_topic self topic payload w =
      let noted = handle_if_netprofile netprofile_topic topic payload w in
      let (e, p, w') = netportal.portal_publish self.north_netportal topic payload noted in
      (e, record self { north_netportal = p }, w')

  -- The topic is `none` where the pointer is NULL.
  unfoldable pub add_north_topic :
      Addresses → NetBridge P → Option CString → W → Dterr × NetBridge P × W
  add_north_topic addresses self none w = (some badarg, self, w)
  add_north_topic addresses self (some topic) w =
      let (e, p, w') =
        netportal.portal_subscribe self.north_netportal topic addresses.bridge_self
          addresses.receive_north w in
      (e, record self { north_netportal = p }, w')

  unfoldable pub add_south_topic :
      Addresses → NetBridge P → Option CString → W → Dterr × NetBridge P × W
  add_south_topic addresses self none w = (some badarg, self, w)
  add_south_topic addresses self (some topic) w =
      let (e, p, w') =
        netportal.portal_subscribe self.south_netportal topic addresses.bridge_self
          addresses.receive_south w in
      (e, record self { south_netportal = p }, w')

  unfoldable pub activate : NetBridge P → W → Dterr × NetBridge P × W
  activate self w =
      let (e, north, w1) = netportal.portal_activate self.north_netportal w in
      let (e', south, w2) = netportal.portal_activate self.south_netportal w1 in
      elim e [
        | some c ↦ (some c, record self { north_netportal = north }, w1)
        | none ↦ (e', record self { north_netportal = north; south_netportal = south }, w2)
      ]

  -- The object is cleared; what is left is the world.
  unfoldable pub dispose : NetBridge P → W → W
  dispose self w = around.dispose_dterr self.tasker_dterrs (
      around.dispose_semaphore self.cancellation_semaphore_handle (
        around.dispose_bufferqueue self.north_bufferqueue_handle (
          around.dispose_bufferqueue self.south_bufferqueue_handle (
            netportal.portal_dispose self.north_netportal
              (netportal.portal_dispose self.south_netportal w)))))
