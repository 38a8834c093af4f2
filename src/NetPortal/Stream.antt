-- ===== src/NetPortal/Stream.antt =====
-- The operations of dtnetportal_iox.c. The pointers that it checks for NULL are never NULL here, but
-- for the two handles of its configuration. While an operation of the portal runs, others do not: the
-- recipients of messages do not call the portal back.
use mathlib.Core.Option
use dtmc_base.Common.{
  ℕ, zero, suc, List, [], ◌∷◌, Option, none, some, Dterr, fail, badarg, argument_null, true, false,
  ◌==◌, slt, leb, sub32, if◌then◌else◌, drop, length, ◌||◌, is_negative, ◌or_else◌, fail_if, not,
}
use dtmc_base.Framer.{Framer, Platform, MessageCallback}
use dtmc_base.Framer.Encode.{encode}
use dtmc_base.Framer.Decode.{decode}
use dtmc_base.Manifold.{System, CString, Pointer}
use dtmc_base.Manifold.Api
use dtmc_base.Manifold.Publish
use dtmc_base.NetPortal.{Iox, Fan, NetportalIox, PortalInfo, raw_input_length}

-- `DTMC_BASE_CONSTANTS_NETPORTAL_MODEL_IOX`.
abbrev pub netportal_model_iox : ℕ
netportal_model_iox = 21211

-- `DTTASKER_PRIORITY__COUNT`, and `DTNETPORTAL_IOX_RX_TASKER_PRIORITY_DEFAULT`.
abbrev pub priority_count : ℕ
priority_count = 116

abbrev pub rx_tasker_priority_default : ℕ
rx_tasker_priority_default = 113

-- `dttasker_validate_priority_enum`.
unfoldable pub validate_priority_enum : ℕ → Dterr
validate_priority_enum p = if is_negative p || leb priority_count p then some badarg else none

-- `_framer_decoded_callback`.
unfoldable pub framer_decoded_callback : {W : Type 0} → System W → MessageCallback (Fan W)
framer_decoded_callback system message fan = elim fan.should_fan_out [
  | false ↦ (none, fan)
  | true ↦ elim message.topic [
    | none ↦ (some argument_null, fan)
    | some topic ↦
        let (e, m, w) = Publish.publish system fan.manifold topic message.payload fan.world in
        (e, record fan { manifold = m; world = w })
  ]
]

module _ {I W : Type 0} (iox : Iox I) where
  -- The loop of `dtnetportal_iox_rx_drain`. Its `have_waited` starts at 1 and never is negative, so an
  -- empty read ends it. `none`: the fuel ran out.
  unfoldable pub drain_loop :
      Platform → ℕ → I → Framer (Fan W) → Fan W → Option (Dterr × I × Framer (Fan W) × Fan W)
  drain_loop platform zero i framer fan = none
  drain_loop platform (suc fuel) i framer fan =
      let (e, bytes, i') = iox.iox_read i raw_input_length in
      elim e [
        | some c ↦ some (some c, i', framer, fan)
        | none ↦ elim bytes [
          | [] ↦ some (none, i', framer, fan)
          | b ∷ bs ↦ elim (decode platform framer (b ∷ bs) (length (b ∷ bs)) fan) [
            | none ↦ none
            | some (r, framer', fan') ↦ elim r [
              | some c ↦ some (some c, i', framer', fan')
              | none ↦ drain_loop platform fuel i' framer' fan'
            ]
          ]
        ]
      ]

  -- What a drain leaves behind, put back into the portal.
  abbrev pub drained :
      NetportalIox I W → Dterr × I × Framer (Fan W) × Fan W → Dterr × NetportalIox I W × W
  drained self (e, i, framer, fan) = (
    e,
    record self {
      iox_handle = some i;
      framer_handle = some framer;
      manifold = fan.manifold;
      should_fan_out = fan.should_fan_out;
    },
    fan.world,
  )

  -- A framer whose callback is this portal's works on its members. The dispatcher refuses a handle
  -- that is NULL; without a framer that shows at the first byte.
  unfoldable pub rx_drain :
      Platform → ℕ → NetportalIox I W → W → Option (Dterr × NetportalIox I W × W)
  rx_drain platform fuel self w = elim self.iox_handle [
    | none ↦ some (some fail, self, w)
    | some i ↦ elim self.framer_handle [
      | some framer ↦ Option.map (drained self) (
          drain_loop platform fuel i framer
            (record { manifold = self.manifold; should_fan_out = self.should_fan_out; world = w }))
      | none ↦
          let (e, bytes, i') = iox.iox_read i raw_input_length in
          some (
            e or_else fail_if (not (length bytes == 0)) fail,
            record self { iox_handle = some i' },
            w,
          )
    ]
  ]

module _ {I : Type 0} (iox : Iox I) where
  -- The loop of `dtnetportal_iox_publish`, with the bytes at `p`. `none`: the fuel ran out.
  unfoldable pub write_loop : ℕ → I → List ℕ → ℕ → Option (Dterr × I)
  write_loop zero i p remaining = none
  write_loop (suc fuel) i p remaining =
      let (e, out_written, i') = iox.iox_write i p remaining in
      let left = sub32 remaining out_written in
      let more = write_loop fuel (iox.nap i') (drop out_written p) left in
      elim e [ some c ↦ some (some c, i') | none ↦ if slt 0 left then more else some (none, i') ]

module _ {I W : Type 0} (iox : Iox I) where
  -- The error that is put around an error has its code.
  unfoldable pub publish :
      ℕ → NetportalIox I W → CString → List ℕ → Option (Dterr × NetportalIox I W)
  publish fuel self topic payload = elim self.framer_handle [
    | none ↦ some (some fail, self)
    | some framer ↦
        let (e, encoded, n) = encode framer topic payload self.encoded_buffer in
        let self' = record self { encoded_buffer = encoded } in
        elim e [
          | some c ↦ some (some c, self')
          | none ↦ elim self.iox_handle [
            | none ↦ some (some fail, self')
            | some i ↦
                Option.map (λ r. (r.0, record self' { iox_handle = some r.1 }))
                  (write_loop iox fuel i encoded (elim n [ some k ↦ k | none ↦ 0 ]))
          ]
        ]
  ]

module _ {I W : Type 0} where
  unfoldable pub subscribe :
      System W → NetportalIox I W → CString → Pointer → Pointer → W → Dterr × NetportalIox I W × W
  subscribe system self topic recipient_self receive_callback w =
      let (e, m, w') = Api.subscribe system self.manifold topic recipient_self receive_callback w in
      (e, record self { manifold = m }, w')

  unfoldable pub get_info : NetportalIox I W → PortalInfo
  get_info self = record {
    listening_origin = 105 ∷ 111 ∷ 120 ∷ [];
    task_dterr = self.internal_task_dterr;
  }
