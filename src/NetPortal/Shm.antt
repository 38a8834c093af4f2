-- ===== src/NetPortal/Shm.antt =====
-- The portal of dtnetportal_shm.c, which hands messages to its router at once.
use dtmc_base.Common.{
  ℕ, List, [], ◌∷◌, Option, none, some, Dterr, fail, badarg, Bool, true, false, if◌then◌else◌,
  ◌or_else◌,
}
use dtmc_base.Manifold.{System, Pointer, CString, Manifold}
use dtmc_base.Manifold.Api
use dtmc_base.Manifold.Publish
use dtmc_base.NetPortal.{Runtime, PortalInfo}
use dtmc_base.NetPortal.Life.{failed}

-- `DTMC_BASE_CONSTANTS_NETPORTAL_MODEL_SHM`.
abbrev pub netportal_model_shm : ℕ
netportal_model_shm = 21202

-- `dtnetportal_shm_t`, with the only member of its configuration. The members that nothing reads or
-- writes are left out.
pub record NetportalShm : Type 0 where
  pub model_number : ℕ
  pub config : ℕ
  pub manifold : Manifold
  pub is_malloced : Bool

abbrev pub zeroed : NetportalShm
zeroed = record { model_number = 0; config = 0; manifold = Api.init; is_malloced = false }

unfoldable pub init : {W : Type 0} → Runtime W → Dterr × NetportalShm
init runtime = (
  failed (
      runtime.set_portal_vtable netportal_model_shm
      or_else runtime.set_object_vtable netportal_model_shm),
  record zeroed { model_number = netportal_model_shm },
)

-- The object is `none` where what `*self_ptr` points at is freed, or it is NULL.
unfoldable pub create : {W : Type 0} → Runtime W → W → Dterr × Option NetportalShm × W
create runtime w =
    let (allocated, w') = runtime.malloc w in
    let (e, self) = init runtime in
    elim allocated [
      | false ↦ (some fail, none, w')
      | true ↦ elim e [
        | some c ↦ (some fail, none, w')
        | none ↦ (none, some (record self { is_malloced = true }), w')
      ]
    ]

-- The configuration is `none` where the pointer is NULL.
unfoldable pub configure : NetportalShm → Option ℕ → Dterr × NetportalShm
configure self none = (some badarg, self)
configure self (some config) = (none, record self { config = config })

unfoldable pub activate : NetportalShm → Dterr × NetportalShm
activate self = (none, self)

module _ {W : Type 0} (system : System W) where
  unfoldable pub subscribe :
      NetportalShm → CString → Pointer → Pointer → W → Dterr × NetportalShm × W
  subscribe self topic recipient_self receive_callback w =
      let (e, m, w') = Api.subscribe system self.manifold topic recipient_self receive_callback w in
      (failed e, record self { manifold = m }, w')

  unfoldable pub publish : NetportalShm → CString → List ℕ → W → Dterr × NetportalShm × W
  publish self topic payload w =
      let (e, m, w') = Publish.publish system self.manifold topic payload w in
      (failed e, record self { manifold = m }, w')

-- The info's pointer is never NULL here.
unfoldable pub get_info : NetportalShm → PortalInfo
get_info self = record { listening_origin = 115 ∷ 104 ∷ 109 ∷ []; task_dterr = none }

-- `none`: the object was freed.
unfoldable pub dispose : NetportalShm → Option NetportalShm
dispose self = if self.is_malloced then none else some zeroed
