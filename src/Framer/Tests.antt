-- ===== src/Framer/Tests.antt =====
-- The framer at concrete inputs: a small configuration, and a callback that keeps the messages.
use dtmc_base.Common.{
  get_or, length-replicate, ℕ, ◌≤◌, ◌↔◌, ◌≡◌, refl, List, [], ◌∷◌, ◌++◌, none, some, arith, length,
  replicate, take, drop,
}
use dtmc_base.Framer.{
  FramerConfig, Message, MessageCallback, Platform, Framer, stream, wait_magic_first, read_payload,
}
use dtmc_base.Framer.Config.{apply_defaults, configure, set_message_callback, zeroed}
use dtmc_base.Framer.Encode.{frame, encode, load_u16_be}
use dtmc_base.Framer.Decode.{decode, loop, round_in, search_first, check_header}
use dtmc_base.Framer.Progress.{InProgress, Ends}
use dtmc_base.Framer.Pieces.{decode_pieces, joined, decode_pieces-joined}
use dtmc_base.Framer.RoundTrip.{frames, Delivers, call_all, decode_pieces-frames, decode-encode}
use dtmc_base.Framer.RoundTrip.{IsReady, Fits}
use dtmc_base.Framer.RoundTrip.Empty.{empty_payload_waits, empty_topic_stale}
use dtmc_base.Framer.Safety.{IsSafe, WritesInside, decode-WritesInside}
use dtmc_base.Framer.Limits.{SizedBlocks, configure-IsReady, check_header_iff}

abbrev test_platform : Platform
test_platform = record {
  malloc = λ n. some (replicate n 0);
  buffer_wrap = λ bytes. none;
  vtable_set = λ n. none;
}

abbrev keep : MessageCallback (List Message)
keep m w = (none, m ∷ w)

abbrev small : FramerConfig
small = record {
  protocol_version = 1;
  maximum_topic_length = 4;
  maximum_payload_length = 4;
  framing_mode = stream;
}

abbrev small_framer : Framer (List Message)
small_framer = record zeroed {
  config = small;
  topic_storage = some (replicate 5 0);
  payload_storage = some (replicate 4 0);
  message_callback_function = some keep;
}

small_framer-InProgress : InProgress small_framer
small_framer-InProgress = ground arith

small_framer-IsReady : IsReady keep small_framer
small_framer-IsReady = record {
  idle = refl;
  callback_is = refl;
  header_array = refl;
  topic_array = replicate 5 0;
  topic_allocated = refl;
  topic_room = omega arith;
  payload_array = replicate 4 0;
  payload_allocated = refl;
  payload_room = omega arith;
  counters = small_framer-InProgress;
}

small_framer-IsSafe : IsSafe small_framer
small_framer-IsSafe = ground arith

abbrev messages : List (List ℕ × List ℕ)
messages = ((65 ∷ []), (1 ∷ 2 ∷ [])) ∷ ((66 ∷ 67 ∷ []), (3 ∷ [])) ∷ []

first-Fits : Fits small (65 ∷ []) (1 ∷ 2 ∷ [])
first-Fits = ground arith

second-Fits : Fits small (66 ∷ 67 ∷ []) (3 ∷ [])
second-Fits = ground arith

abbrev wire : List ℕ
wire = frames 1 messages

abbrev cut : List (List ℕ)
cut = take 3 wire ∷ drop 3 wire ∷ []

decode_pieces-frames_example :
    Delivers keep (call_all keep messages []) (decode_pieces test_platform small_framer cut [])
decode_pieces-frames_example =
    decode_pieces-frames test_platform {callback = keep} small_framer cut messages []
      small_framer-IsReady (first-Fits, (second-Fits, tt)) (λ bytes. refl) refl (omega arith)

decode_pieces-joined_example :
    (decode_pieces test_platform small_framer cut []
      ≡ decode test_platform small_framer (joined cut) (length (joined cut)) [])
    × Ends (decode_pieces test_platform small_framer cut [])
decode_pieces-joined_example =
    decode_pieces-joined test_platform small_framer cut [] small_framer-InProgress (omega arith)

decode-WritesInside_example :
    WritesInside wait_magic_first small_framer (7 ∷ [])
    × WritesInside wait_magic_first small_framer (7 ∷ [])
    × IsSafe small_framer
    × InProgress small_framer
decode-WritesInside_example =
    decode-WritesInside test_platform small_framer (1 ∷ 2 ∷ []) (7 ∷ []) 2 []
      {out = (none, small_framer, [])} small_framer-IsSafe small_framer-InProgress
      (unfold decode in unfold loop in unfold round_in in unfold search_first in refl)

decode-encode_example :
    let (e, encoded, n) = encode small_framer (65 ∷ []) (1 ∷ 2 ∷ []) (replicate 12 0) in
    (e ≡ none)
    × (n ≡ some 10)
    × Delivers keep
        (keep (record { topic = some (65 ∷ []); payload = 1 ∷ 2 ∷ [] }) [])
        (decode test_platform small_framer encoded 10 [])
decode-encode_example =
    decode-encode test_platform {callback = keep} small_framer small_framer (65 ∷ []) (1 ∷ 2 ∷ [])
      (replicate 12 0) [] small_framer-IsReady refl first-Fits refl (omega arith) (omega arith)

test_platform-SizedBlocks : SizedBlocks test_platform
test_platform-SizedBlocks n block e = ground (arith, length-replicate {A = ℕ} n 0)

configure-IsReady_example :
    let made =
      (set_message_callback (configure test_platform small_framer small).1 (some keep)).1 in
    IsReady keep made × IsSafe made × (made.config ≡ apply_defaults small)
configure-IsReady_example =
    configure-IsReady test_platform test_platform-SizedBlocks small_framer small keep refl
      (omega arith) (omega arith) (unfold configure in unfold apply_defaults in refl)

abbrev full_header : Framer (List Message)
full_header = record small_framer { header_buffer = 1 ∷ 0 ∷ 3 ∷ 0 ∷ 4 ∷ [] }

check_header_iff_example : ((check_header full_header).0 ≡ none) ↔ (
    (get_or full_header.header_buffer 0 0 ≡ 1)
    × (load_u16_be (1 ∷ 0 ∷ 3 ∷ 0 ∷ 4 ∷ []) 1 ≤ 4)
    × (load_u16_be (1 ∷ 0 ∷ 3 ∷ 0 ∷ 4 ∷ []) 3 ≤ 4))
check_header_iff_example = check_header_iff full_header (ground arith) (omega arith) (omega arith)

abbrev wrong_header : Framer (List Message)
wrong_header = record small_framer { header_buffer = 9 ∷ 0 ∷ 3 ∷ 0 ∷ 4 ∷ [] }

empty_payload_waits_example :
    (s : Framer (List Message)) × (s.decode_phase ≡ read_payload)
    × (decode test_platform small_framer (frame 1 (65 ∷ []) []) (length (frame 1 (65 ∷ []) [])) []
        ≡ some (none, s, []))
empty_payload_waits_example =
    empty_payload_waits test_platform {callback = keep} small_framer (65 ∷ []) []
      small_framer-IsReady (omega arith) (omega arith) (omega arith) (omega arith) (omega arith)

empty_topic_stale_example :
    let bytes = frame 1 (65 ∷ []) (1 ∷ 2 ∷ []) ++ frame 1 [] (9 ∷ []) in
    (s : Framer (List Message)) × (decode test_platform small_framer bytes (length bytes) []
      ≡ some (
        none,
        s,
        record { topic = some (65 ∷ []); payload = 9 ∷ [] }
            ∷ record { topic = some (65 ∷ []); payload = 1 ∷ 2 ∷ [] }
            ∷ [],
      ))
empty_topic_stale_example =
    empty_topic_stale test_platform {callback = keep} small_framer (65 ∷ []) (1 ∷ 2 ∷ []) (9 ∷ [])
      [] (record { topic = some (65 ∷ []); payload = 1 ∷ 2 ∷ [] } ∷ []) small_framer-IsReady
      first-Fits (omega arith) (omega arith) (omega arith) refl refl refl

abbrev long_payload : List ℕ
long_payload = replicate 65536 0
