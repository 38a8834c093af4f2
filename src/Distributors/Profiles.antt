-- ===== src/Distributors/Profiles.antt =====
-- The distributor of profiles, dtnetprofile_distributor.c.
use dtmc_base.Common.{
  length, ℕ, List, Option, none, some, Result, ok, err, Dterr, fail, argument_null, ◌==◌,
  if◌then◌else◌,
}
use dtmc_base.Manifold.{Pointer, CString}
use dtmc_base.Packing.{Packx}
use dtmc_base.NetProfile.{NetProfile, empty, pack_length, pack, unpack}
use dtmc_base.NetBridge.{Netportal}
use dtmc_base.Distributors.{Bufferqueue}

-- `dtnetprofile_distributor_t`, which has its configuration only.
pub record ProfileDistributor : Type 0 where
  pub netportal_handle : Pointer
  pub bufferqueue_handle : Pointer

abbrev pub init : ProfileDistributor
init = record { netportal_handle = 0; bufferqueue_handle = 0 }

-- The configuration is `none` where the pointer is NULL.
unfoldable pub configure :
    ProfileDistributor → Option ProfileDistributor → Dterr × ProfileDistributor
configure self none = (some argument_null, self)
configure self (some config) =
    if config.netportal_handle == 0
    then (some argument_null, self)
    else if config.bufferqueue_handle == 0
    then (some argument_null, self)
    else (none, config)

unfoldable pub dispose : ProfileDistributor → ProfileDistributor
dispose self = init

module _ {W : Type 0} (queue : Bufferqueue W) where
  unfoldable pub netportal_receive_callback : ProfileDistributor → List ℕ → W → Dterr × W
  netportal_receive_callback self buffer w = queue.put self.bufferqueue_handle buffer w

  -- What becomes of the object that the caller gives: it is cleared and filled, whatever `unpack`
  -- returns, and left alone where there is no buffer.
  unfoldable pub unpack_buffer : Packx → NetProfile → Result (List ℕ) × W → Dterr × NetProfile × W
  unpack_buffer packx netprofile (err e, w) = (some e, netprofile, w)
  unpack_buffer packx netprofile (ok payload, w) =
      (none, (unpack packx empty payload 0 (length payload)).1, w)

  unfoldable pub collect : Packx → ProfileDistributor → NetProfile → W → Dterr × NetProfile × W
  collect packx self netprofile w =
      unpack_buffer packx netprofile (queue.get self.bufferqueue_handle w)

  module _ {P : Type 0} (netportal : Netportal P W) (topic : CString) where
    -- The addresses of the object and of its callback.
    unfoldable pub activate : P → Pointer → Pointer → W → Dterr × P × W
    activate portal self receive_callback w =
        netportal.portal_subscribe portal topic self receive_callback w

    abbrev pub failed : Dterr → Dterr
    failed none = none
    failed (some e) = some fail

    -- The result of `pack` is only printed.
    unfoldable pub publish_buffer : Packx → NetProfile → ℕ → P → Result (List ℕ) × W → Dterr × P × W
    publish_buffer packx netprofile buffer_size portal (err e, w) = (some fail, portal, w)
    publish_buffer packx netprofile buffer_size portal (ok payload, w) =
        let packed = (pack packx netprofile payload 0 buffer_size).1 in
        let (e, portal', w') = netportal.portal_publish portal topic packed w in
        (failed e, portal', w')

    unfoldable pub distribute : Packx → NetProfile → P → W → Dterr × P × W
    distribute packx netprofile portal w =
        let buffer_size = pack_length netprofile in
        publish_buffer packx netprofile buffer_size portal (queue.create_buffer buffer_size w)
