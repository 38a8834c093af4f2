-- ===== src/Manifold/Single.antt =====
-- `dtmanifold_publish` on a topic with one recipient.
use dtmc_base.Common.{ℕ, ◌≡◌, ◌∙◌, refl, List, [], ◌∷◌, none, some, Dterr, ok, length, get_or}
use dtmc_base.Manifold.{CString, Manifold, Recipient, System, no_subject}
use dtmc_base.Manifold.Table.{find_or_add_subject, validate_subject_name}
use dtmc_base.Manifold.Api.{acquire, release}
use dtmc_base.Manifold.Publish.{publish, deliver, snapshot}

module _ {W : Type 0} (system : System W) (m : Manifold) (topic : CString) (payload : List ℕ) where
  deliver-one :
      (r : Recipient) (w : W) (e : Dterr) (w' : W)
      → system.create_buffer (length payload) w ≡ (none, w)
      → system.call r.newbuffer_callback r.recipient_self topic payload m w ≡ (e, m, w')
      → deliver system (r ∷ []) topic payload m w ≡ (e, m, w')
  unfolding deliver
  deliver-one r w none w' room answer = rw (deliver, room, room, answer, room, answer) refl
  deliver-one r w (some c) w' room answer = rw (deliver, room, room, answer, room, answer) refl

  -- The publish is the call of this recipient, on a router without a semaphore.
  pub publish-one :
      (i : ℕ) (r : Recipient) (w : W) (e : Dterr) (w' : W)
      → system.create_buffer (length payload) w ≡ (none, w)
      → validate_subject_name topic ≡ none
      → m.semaphore_handle ≡ 0
      → find_or_add_subject m topic ≡ ok (i, m)
      → snapshot (get_or m.subjects i no_subject).recipients ≡ r ∷ []
      → system.call r.newbuffer_callback r.recipient_self topic payload m w ≡ (e, m, w')
      → publish system m topic payload w ≡ (e, m, w')
  unfolding publish acquire release
  publish-one i r w e w' room valid open_router found one answer =
      let taken : acquire system m w ≡ (none, w) = rw (acquire, open_router) refl in
      let freed : release system m w ≡ w = rw (release, open_router) refl in
      let chosen : publish system m topic payload w ≡ deliver system (r ∷ []) topic payload m w =
        rw (publish, valid, taken, found, one, taken, freed) refl in
      chosen ∙ deliver-one r w e w' room answer
