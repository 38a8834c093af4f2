-- ===== src/Manifold/Publish.antt =====
-- `dtmanifold_publish`.
use dtmc_base.Common.{
  ℕ, List, [], ◌∷◌, none, some, Dterr, not, ◌&&◌, ◌==◌, get_or, length, if◌then◌else◌, ok, err,
}
use dtmc_base.Manifold.{CString, Recipient, Manifold, System, no_subject}
use dtmc_base.Manifold.Table.{validate_subject_name, find_or_add_subject}
use dtmc_base.Manifold.Api.{acquire, release}

-- The recipients that the snapshot keeps.
unfoldable pub snapshot : List Recipient → List Recipient
snapshot [] = []
snapshot (r ∷ rs) =
    let rest = snapshot rs in
    if not (r.recipient_self == 0) && not (r.newbuffer_callback == 0) then r ∷ rest else rest

module _ {W : Type 0} (system : System W) where
  -- The loop over the snapshot. Each recipient gets its own copy of the bytes; the first error of
  -- an allocation or of a callback ends it.
  unfoldable pub deliver : List Recipient → CString → List ℕ → Manifold → W → Dterr × Manifold × W
  deliver [] name bytes m w = (none, m, w)
  deliver (r ∷ rs) name bytes m w =
      let (e, w') = system.create_buffer (length bytes) w in
      elim e [
        | some c ↦ (some c, m, w')
        | none ↦
            let (e', m', w'') = system.call r.newbuffer_callback r.recipient_self name bytes m w' in
            elim e' [ some c ↦ (some c, m', w'') | none ↦ deliver rs name bytes m' w'' ]
      ]

  unfoldable pub publish : Manifold → CString → List ℕ → W → Dterr × Manifold × W
  publish m name bytes w = elim (validate_subject_name name) [
    | some e ↦ (some e, m, w)
    | none ↦
        let (e, w') = acquire system m w in
        elim e [
          | some c ↦ (some c, m, w')
          | none ↦ elim (find_or_add_subject m name) [
            | err c ↦ (some c, m, release system m w')
            | ok (i, m') ↦
                deliver (snapshot (get_or m'.subjects i no_subject).recipients) name bytes m'
                  (release system m' w')
          ]
        ]
  ]
