-- ===== src/NetPortal/Alike.antt =====
-- The portals of dtnetportal_iox.c and dtnetportal_shm.c beside each other.
use dtmc_base.Common.{
  ℕ, ◌<◌, ◌≤◌, ◌≡◌, refl, List, [], ◌∷◌, Option, none, some, Dterr, length, Option-cases, inl, inr,
}
use dtmc_base.Framer.{Platform}
use dtmc_base.Manifold.{System, CString, Manifold}
use dtmc_base.Manifold.Publish
use dtmc_base.NetPortal.{Iox, EchoLaws, NetportalIox}
use dtmc_base.NetPortal.Life.{failed}
use dtmc_base.NetPortal.Publishing.{publish_all}
use dtmc_base.NetPortal.Shm.{NetportalShm}
use dtmc_base.NetPortal.Shm
use dtmc_base.NetPortal.Echo.{IsOpen, session, session-publish_all}
use dtmc_base.NetPortal.Sending.{AllSendable, wire_length}

module _ {W : Type 0} (system : System W) where
  -- Messages published through a portal in shared memory, up to the first error.
  unfoldable pub shm_session : NetportalShm → List (CString × List ℕ) → W → Dterr × NetportalShm × W
  shm_session self [] w = (none, self, w)
  shm_session self ((topic, payload) ∷ ms) w =
      let (e, self', w') = Shm.publish system self topic payload w in
      elim e [ none ↦ shm_session self' ms w' | some c ↦ (some c, self', w') ]

  shm_session-publish_all :
      (self : NetportalShm) (ms : List (CString × List ℕ)) (w : W)
      → let (e, m, w') = publish_all system ms self.manifold w in
        shm_session self ms w ≡ (failed e, record self { manifold = m }, w')
  unfolding shm_session Shm.publish
  shm_session-publish_all self [] w = refl
  shm_session-publish_all self ((topic, payload) ∷ ms) w =
      let p : Dterr × Manifold × W = Publish.publish system self.manifold topic payload w in
      elim (Option-cases p.0) [
        | inl fine ↦
            rw (shm_session, Shm.publish, publish_all, fine)
              (shm_session-publish_all (record self { manifold = p.1 }) ms p.2)
        | inr (c, bad) ↦ rw (shm_session, Shm.publish, publish_all, bad) refl
      ]

  -- The same error but for its code, the same router and the same world.
  abbrev pub Alike :
      {I : Type 0} → Dterr × NetportalShm × W → Option (Dterr × NetportalIox I W × W) → Type 0
  Alike {I} result out =
      (e : Dterr) × (self : NetportalIox I W) × (out ≡ some (e, self, result.2))
      × (failed e ≡ result.0)
      × (self.manifold ≡ result.1.manifold)

  -- Messages published through an open portal whose device hears what it sends, and that is drained
  -- after each, reach the same recipients as through a portal in shared memory that starts with the
  -- same router: the routers and the world end the same, and if one fails so does the other, in shared memory with
  -- `DTERR_FAIL`. Topics and payloads are not empty and within the framer's maxima and 16 bits, topics
  -- have no NUL, each frame fits the buffer, the device has room for all frames, memory for the copies
  -- can be had, and the fuel is above the size of the buffer.
  pub session-shm_session :
      {I : Type 0} (iox : Iox I) (laws : EchoLaws iox) (platform : Platform) (fuel : ℕ)
      (self : NetportalIox I W) (o : IsOpen iox laws system self) (shm : NetportalShm)
      (ms : List (CString × List ℕ)) (w : W)
      → AllSendable o.framer.config (length self.encoded_buffer) ms
      → ((bytes : List ℕ) → platform.buffer_wrap bytes ≡ none)
      → wire_length ms ≤ laws.room o.device
      → length self.encoded_buffer < fuel
      → shm.manifold ≡ self.manifold
      → Alike (shm_session shm ms w) (session iox platform fuel self ms w)
  session-shm_session iox laws platform fuel self o shm ms w a b h n m =
      let (last, out, router) =
        session-publish_all iox laws system platform fuel self o ms w a b h n in
      rw (shm_session-publish_all shm ms w, m)
        ((publish_all system ms self.manifold w).0, last, out, refl, router)
