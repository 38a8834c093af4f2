-- ===== src/Distributors/Listening.antt =====
-- A portal in shared memory, with a distributor as the only recipient of a topic.
use dtmc_base.Common.{
  ℕ, ◌≡◌, refl, List, [], ◌∷◌, none, ok, Dterr, length, arith, ◌==◌, true, if◌then◌else◌, get_or,
}
use dtmc_base.Manifold.{Pointer, CString, System, no_subject}
use dtmc_base.Manifold.Table.{find_or_add_subject, validate_subject_name}
use dtmc_base.Manifold.Publish.{snapshot}
use dtmc_base.Manifold.Single.{publish-one}
use dtmc_base.NetPortal.Shm.{NetportalShm}
use dtmc_base.NetPortal.Shm

-- The distributor is the only recipient of the topic in the router, which has no semaphore.
pub record IsListening (receive_callback self_address : Pointer) (topic : CString)
    (portal : NetportalShm) : Type 0 where
  pub subject : ℕ
  pub valid : validate_subject_name topic ≡ none
  pub open_router : portal.manifold.semaphore_handle ≡ 0
  pub found : find_or_add_subject portal.manifold topic ≡ ok (subject, portal.manifold)
  pub only :
      snapshot (get_or portal.manifold.subjects subject no_subject).recipients
      ≡ record { recipient_self = self_address; newbuffer_callback = receive_callback } ∷ []

-- What the recipients at the portal do: the distributor is one, the others are not looked at.
abbrev pub receiving : {W : Type 0} → System W → (List ℕ → W → Dterr × W) → Pointer → System W
receiving system on_receive receive_callback = record system {
  call = λ callback recipient topic payload m w.
      let (e, w') = on_receive payload w in
      if callback == receive_callback then (e, m, w') else (none, m, w);
}

pub publish_received :
    {W : Type 0} (system : System W) (on_receive : List ℕ → W → Dterr × W)
    (receive_callback self_address : Pointer) (topic : CString) (portal : NetportalShm)
    (payload : List ℕ) (w w' : W)
    → ((n : ℕ) (v : W) → system.create_buffer n v ≡ (none, v))
    → IsListening receive_callback self_address topic portal
    → on_receive payload w ≡ (none, w')
    → Shm.publish (receiving system on_receive receive_callback) portal topic payload w
      ≡ (none, portal, w')
unfolding Shm.publish
publish_received system on_receive receive_callback self_address topic portal payload w w' room is
      received =
    let own : (receive_callback == receive_callback) ≡ true = ground arith in
    let chosen =
      publish-one (receiving system on_receive receive_callback) portal.manifold topic payload
        is.subject (record { recipient_self = self_address; newbuffer_callback = receive_callback })
        w none w' (room (length payload) w) is.valid is.open_router is.found is.only
        (rw (own, received) refl) in
    rw chosen refl
