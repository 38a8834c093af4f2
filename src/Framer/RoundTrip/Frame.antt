-- ===== src/Framer/RoundTrip/Frame.antt =====
-- A ready decoder on one frame, from the magic bytes to the callback.
use dtmc_base.Common.{
  ℕ, ◌%◌, ◌^◌, ◌≡◌, ◌∙◌, ap, refl, List, [], ◌∷◌, ◌++◌, Option, none, some, arith, length, set,
  copy_into, append_assoc, length-set, length-copy_into, Dterr,
}
use dtmc_base.Framer.{
  wait_magic_second, Framer, FramerConfig, MessageCallback, Platform, reset_decode_state,
}
use dtmc_base.Framer.Encode.{store_u16_be, frame}
use dtmc_base.Framer.Decode.{
  Round, continue, stop, Outcome, search_first, search_second, deliver, round_in,
}
use dtmc_base.Framer.Progress.{InProgress, run, run-continue, run-stop}
use dtmc_base.Framer.RoundTrip.Rounds.{
  IsReady, Fits, at_header, at_topic, at_payload, complete, check_header_lem, header_round,
  topic_round, payload_round, message-complete,
}

-- What follows a frame: the callback's error ends the call, else the rest of the input is read.
abbrev pub after_callback :
    {W : Type 0} → Platform → Dterr × W → Framer W → List ℕ → Option (Outcome W)
after_callback platform (none, w) self rest = run platform self rest w
after_callback platform (some e, w) self rest = some (some e, self, w)

frame_bytes :
    (config : FramerConfig) (topic payload rest : List ℕ)
    → Fits config topic payload
    → frame config.protocol_version topic payload ++ rest
      ≡ 0xA5
        ∷ 0x5A
        ∷ config.protocol_version
        ∷ (store_u16_be (length topic)
            ++ (store_u16_be (length payload) ++ (topic ++ (payload ++ rest))))
frame_bytes config topic payload rest f =
    let t : length topic % 2 ^ 16 ≡ length topic = omega (arith, f.topic_u16) in
    let p : length payload % 2 ^ 16 ≡ length payload = omega (arith, f.payload_u16) in
    rw (t, p, append_assoc topic payload rest)

-- The round that ends with a delivery.
abbrev pub after_deliver : {W : Type 0} → Outcome W → List ℕ → Round W
after_deliver o rest = elim o.0 [ some c ↦ stop c o.1 o.2 | none ↦ continue o.1 rest o.2 ]

module _ {W : Type 0} (platform : Platform) where
  -- The last round, by what the callback returned.
  pub last_round :
      (self later : Framer W) (b : ℕ) (bs rest : List ℕ) (w : W) (answer : Dterr × W)
      → InProgress self
      → round_in platform self.decode_phase self b (bs ++ rest) w
        ≡ elim answer.0 [ some c ↦ stop c later answer.1 | none ↦ continue later rest answer.1 ]
      → run platform self (b ∷ (bs ++ rest)) w ≡ after_callback platform answer later rest
  last_round self later b bs rest w (none, w') v e =
      (run-continue platform self b (bs ++ rest) w v e).1
  last_round self later b bs rest w (some c, w') v e = run-stop platform self b (bs ++ rest) w e

module _ {W : Type 0} (platform : Platform) {callback : MessageCallback W} where
  -- The decoder behind one message.
  abbrev pub behind : (self : Framer W) → IsReady callback self → List ℕ → List ℕ → Framer W
  behind self r topic payload = reset_decode_state (
      complete self self.config.protocol_version (length payload) topic r.topic_array
        r.payload_array payload)

  pub behind-IsReady :
      (self : Framer W) (r : IsReady callback self) (topic payload : List ℕ)
      → IsReady callback (behind self r topic payload)
  behind-IsReady self r topic payload = record {
    idle = refl;
    callback_is = r.callback_is;
    header_array = refl;
    topic_array = set (copy_into r.topic_array 0 topic) (length topic) 0;
    topic_allocated = refl;
    topic_room = omega (
      arith,
      r.topic_room,
      length-set (copy_into r.topic_array 0 topic) (length topic) 0,
      length-copy_into r.topic_array 0 topic,
    );
    payload_array = copy_into r.payload_array 0 payload;
    payload_allocated = refl;
    payload_room = omega (arith, r.payload_room, length-copy_into r.payload_array 0 payload);
    counters = ground arith;
  }

  pub magic_rounds :
      (self : Framer W) (w : W) (rest : List ℕ)
      → IsReady callback self
      → InProgress (at_header self 0 0 0)
        × (run platform self (0xA5 ∷ 0x5A ∷ rest) w ≡ run platform (at_header self 0 0 0) rest w)
  unfolding round_in search_first search_second
  magic_rounds self w rest r =
      let (v1, e1) =
        run-continue platform self 0xA5 (0x5A ∷ rest) w
          {s = record self { decode_phase = wait_magic_second }} {left = 0x5A ∷ rest} {w' = w}
          r.counters (ground arith) in
      let (v2, e2) =
        run-continue platform (record self { decode_phase = wait_magic_second }) 0x5A rest w
          {s = at_header self 0 0 0} {left = rest} {w' = w} v1 (ground arith) in
      (v2, e1 ∙ e2)

  deliver_lem :
      (self : Framer W) (r : IsReady callback self) (topic payload : List ℕ) (w : W)
      → Fits self.config topic payload
      → platform.buffer_wrap payload ≡ none
      → deliver platform
          (complete self self.config.protocol_version
            (length payload)
            topic
            r.topic_array
            r.payload_array
            payload)
          w
        ≡ (let (e, w') = callback (record { topic = some topic; payload = payload }) w in
            (e, behind self r topic payload, w'))
  unfolding deliver
  deliver_lem self r topic payload w f b = ground (
    arith,
    message-complete self self.config.protocol_version (length payload) topic r.topic_array
        r.payload_array payload f.topic_string (omega (arith, f.topic_max, r.topic_room)) refl
        (omega (arith, f.payload_max, r.payload_room)),
  )

  -- A ready decoder that meets a frame hands its message to the callback, is ready again, and goes
  -- on with the bytes behind the frame.
  pub run-frame :
      (self : Framer W) (r : IsReady callback self) (topic payload rest : List ℕ) (w : W)
      → Fits self.config topic payload
      → platform.buffer_wrap payload ≡ none
      → run platform self (frame self.config.protocol_version topic payload ++ rest) w
        ≡ after_callback platform
            (callback (record { topic = some topic; payload = payload }) w)
            (behind self r topic payload)
            rest
  run-frame self r [] payload rest w f b = absurd (omega (arith, f.topic_some))
  run-frame self r (t ∷ ts) [] rest w f b = absurd (omega (arith, f.payload_some))
  run-frame self r (t ∷ ts) (p ∷ ps) rest w f b =
      let version : ℕ = self.config.protocol_version in
      let tl : ℕ = length (t ∷ ts) in
      let pl : ℕ = length (p ∷ ps) in
      let (v2, e2) =
        magic_rounds self w
          (version ∷ (store_u16_be tl ++ (store_u16_be pl ++ (t ∷ ts ++ (p ∷ ps ++ rest))))) r in
      let (v3, e3) = run-continue platform (at_header self version tl pl) version _ w v2 (
        header_round self version tl pl platform ((t ∷ ts) ++ ((p ∷ ps) ++ rest)) w r.header_array (
          check_header_lem self version tl pl refl f.topic_u16 f.payload_u16 f.topic_some
            f.topic_max f.payload_max f.topic_signed f.payload_signed)) in
      let (v4, e4) =
        run-continue platform (at_topic self version tl pl) t (ts ++ (p ∷ ps ++ rest)) w v3 (
          topic_round self version pl (t ∷ ts) r.topic_array platform t ts (p ∷ ps ++ rest) w refl
            f.topic_u16 r.topic_allocated) in
      let later = behind self r (t ∷ ts) (p ∷ ps) in
      let answer : Dterr × W = callback (record { topic = some (t ∷ ts); payload = p ∷ ps }) w in
      let e5 : run platform (at_payload self version pl (t ∷ ts) r.topic_array) (p ∷ (ps ++ rest)) w
          ≡ after_callback platform answer later rest =
        last_round platform (at_payload self version pl (t ∷ ts) r.topic_array) later p ps rest w
          answer v4
          (payload_round self version pl (t ∷ ts) r.topic_array platform p ps rest r.payload_array w
              refl f.payload_u16 r.payload_allocated
            ∙ ap (λ o. after_deliver o rest) (deliver_lem self r (t ∷ ts) (p ∷ ps) w f b)) in
      ap (λ l. run platform self l w) (frame_bytes self.config (t ∷ ts) (p ∷ ps) rest f)
      ∙ e2
      ∙ e3
      ∙ e4
      ∙ e5
