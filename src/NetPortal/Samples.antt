-- ===== src/NetPortal/Samples.antt =====
-- A portal over the test double of a device, for the tests. The world is the list of the payloads that
-- recipients got.
use dtmc_base.Common.{ℕ, refl, List, [], ◌∷◌, none, some, true, arith, replicate, length-replicate}
use dtmc_base.Framer.{Framer, FramerConfig, Platform, stream}
use dtmc_base.Framer.Config as FramerConfiguration
use dtmc_base.Framer.RoundTrip.{IsReady, Fits}
use dtmc_base.Framer.Limits.{SizedBlocks}
use dtmc_base.IoxDummy.{IoxDummy}
use dtmc_base.IoxDummy.Tests.{queue, queue-Laws, looped}
use dtmc_base.Manifold.{System, CString, Manifold, no_subject, no_recipient}
use dtmc_base.Manifold.Api
use dtmc_base.NetPortal.{EchoLaws, Fan, NetportalIox}
use dtmc_base.NetPortal.Stream.{framer_decoded_callback}
use dtmc_base.NetPortal.Life.{zeroed}
use dtmc_base.NetPortal.Echo.{IsOpen}
use dtmc_base.NetPortal.Double.{double, double_laws}
use dtmc_base.NetPortal.Task.{}

abbrev pub World : Type 0
World = List (List ℕ)

abbrev pub recording : System World
recording = record {
  wait = λ h t w. (none, w);
  post = λ h w. w;
  create_buffer = λ n w. (none, w);
  call = λ cb self name bytes m w. (none, m, bytes ∷ w);
}

abbrev pub news : CString
news = 110 ∷ 101 ∷ []

-- With a recipient for `news`.
abbrev pub router : Manifold
router =
    let r = record no_recipient { recipient_self = 5; newbuffer_callback = 6 } in
    record Api.init {
      subjects =
          record { subject_name = news; recipients = r ∷ replicate 9 no_recipient }
          ∷ replicate 9 no_subject;
    }

abbrev pub config : FramerConfig
config = record {
  protocol_version = 1;
  maximum_topic_length = 4;
  maximum_payload_length = 4;
  framing_mode = stream;
}

abbrev pub platform : Platform
platform = record {
  malloc = λ n. some (replicate n 0);
  buffer_wrap = λ bytes. none;
  vtable_set = λ n. none;
}

pub platform-SizedBlocks : SizedBlocks platform
platform-SizedBlocks n block e = ground (arith, length-replicate {A = ℕ} n 0)

abbrev pub framer : Framer (Fan World)
framer = record FramerConfiguration.zeroed {
  config = config;
  topic_storage = some (replicate 5 0);
  payload_storage = some (replicate 4 0);
  message_callback_function = some (framer_decoded_callback recording);
}

pub framer-IsReady : IsReady (framer_decoded_callback recording) framer
framer-IsReady = record {
  idle = refl;
  callback_is = refl;
  header_array = refl;
  topic_array = replicate 5 0;
  topic_allocated = refl;
  topic_room = omega arith;
  payload_array = replicate 4 0;
  payload_allocated = refl;
  payload_room = omega arith;
  counters = ground arith;
}

abbrev pub Queue : Type 0
Queue = List ℕ × ℕ

abbrev pub portal : NetportalIox (IoxDummy Queue) World
portal = record zeroed {
  iox_handle = some looped;
  framer_handle = some framer;
  manifold = router;
  encoded_buffer = replicate 32 0;
  should_fan_out = true;
}

abbrev pub laws : EchoLaws (double queue)
laws = double_laws queue queue-Laws

abbrev pub portal-IsOpen : IsOpen (double queue) laws recording portal
portal-IsOpen = record {
  device = looped;
  device_is = refl;
  ready = (refl, omega arith);
  silent = refl;
  framer = framer;
  framer_is = refl;
  framer_ready = framer-IsReady;
  fanning = refl;
  capacity_signed = omega arith;
}

abbrev pub messages : List (CString × List ℕ)
messages = (news, 1 ∷ 2 ∷ []) ∷ (news, 3 ∷ []) ∷ []

pub first-Fits : Fits config news (1 ∷ 2 ∷ [])
first-Fits = ground arith

pub second-Fits : Fits config news (3 ∷ [])
second-Fits = ground arith
