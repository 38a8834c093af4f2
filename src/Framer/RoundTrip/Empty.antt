-- ===== src/Framer/RoundTrip/Empty.antt =====
-- Frames with an empty payload, and frames with an empty topic.
use dtmc_base.Common.{
  sym, take, set, ap, Dterr, length-copy_into, append-nil, drop-append_self, take-append_self,
  take-copy_into_self, ◌/◌, copy_into, ℕ, ◌<◌, ◌≤◌, ◌^◌, ◌%◌, ◌≡◌, ◌∙◌, refl, List, [], ◌∷◌, ◌++◌,
  none, some, arith, length, length-append,
}
use dtmc_base.Framer.{
  read_header, reset_decode_state, c_string, read_payload, Framer, MessageCallback, Platform,
}
use dtmc_base.Framer.Encode.{store_u16_be, frame}
use dtmc_base.Framer.Decode.{continue, fill_payload, deliver, round_in, check_header, decode}
use dtmc_base.Framer.Progress.{run, run-continue, run-nil}
use dtmc_base.Framer.Chunks.{decode-loop}
use dtmc_base.Framer.Strings.{c_string-set}
use dtmc_base.Framer.RoundTrip.Rounds.{
  Fits, fill_header_lem, header_chunk, whole_chunk, load-store, filled_header, IsReady, at_header,
  at_topic, at_payload, check_header_lem, header_round, topic_round,
}
use dtmc_base.Framer.RoundTrip.Frame.{
  run-frame, behind-IsReady, behind, last_round, after_callback, after_deliver, magic_rounds,
}

module _ {W : Type 0} (platform : Platform) {callback : MessageCallback W} where
  -- A frame with an empty payload is read to its end with no error, and nothing is delivered: the
  -- state of the callbacks is the one before, and the decoder waits in the payload phase.
  pub empty_payload_waits :
      (self : Framer W) (topic : List ℕ) (w : W)
      → IsReady callback self
      → 0 < length topic
      → length topic < 2 ^ 16
      → length topic ≤ self.config.maximum_topic_length
      → self.config.maximum_topic_length < 2 ^ 31
      → self.config.maximum_payload_length < 2 ^ 31
      → let bytes = frame self.config.protocol_version topic [] in
        (s : Framer W) × (s.decode_phase ≡ read_payload)
        × (decode platform self bytes (length bytes) w ≡ some (none, s, w))
  empty_payload_waits self [] w r pos u m st sp = absurd (omega arith)
  empty_payload_waits self (t ∷ ts) w r pos u m st sp =
      let version : ℕ = self.config.protocol_version in
      let tl : ℕ = length (t ∷ ts) in
      let (v2, e2) =
        magic_rounds platform self w
          (version ∷ (store_u16_be tl ++ (store_u16_be 0 ++ (t ∷ ts ++ [])))) r in
      let (v3, e3) = run-continue platform (at_header self version tl 0) version _ w v2 (
        header_round self version tl 0 platform (t ∷ ts ++ []) w r.header_array
          (check_header_lem self version tl 0 refl u (omega arith) pos m (omega arith) st sp)) in
      let (v4, e4) = run-continue platform (at_topic self version tl 0) t (ts ++ []) w v3 (
        topic_round self version 0 (t ∷ ts) r.topic_array platform t ts [] w refl u
          r.topic_allocated) in
      let n : length (t ∷ ts) % 2 ^ 16 ≡ length (t ∷ ts) = omega (arith, u) in
      (
        at_payload self version 0 (t ∷ ts) r.topic_array,
        refl,
        decode-loop platform self (frame version (t ∷ ts) []) w
              (omega (arith, length-append ts [], u))
            ∙ rw n (
                e2
                ∙ e3
                ∙ e4
                ∙ run-nil platform (at_payload self version 0 (t ∷ ts) r.topic_array) w),
      )

module _ {W : Type 0} (self : Framer W) (version pl : ℕ) where
  -- After a header with topic length 0: the topic phase is passed over.
  abbrev no_topic : Framer W
  no_topic = record (at_topic self version 0 pl) { decode_phase = read_payload }

  no_topic_header :
      self.config.protocol_version ≡ version
      → pl < 2 ^ 16
      → pl ≤ self.config.maximum_payload_length
      → self.config.maximum_topic_length < 2 ^ 31
      → self.config.maximum_payload_length < 2 ^ 31
      → check_header (filled_header self version 0 pl) ≡ (none, no_topic)
  unfolding check_header
  no_topic_header ver hp mp st sp = ground (
    arith,
    load-store 0 version (pl / 2 ^ 8 % 256) (pl % 256) 0,
    load-store pl version ((0 / 2 ^ 8) % 256) (0 % 256) 0 hp,
  )

  abbrev no_topic_complete : List ℕ → List ℕ → Framer W
  no_topic_complete payload_array payload = record no_topic {
    payload_storage = some (copy_into payload_array 0 payload);
    payload_bytes_filled = pl;
  }

  no_topic_header_round :
      (platform : Platform) (rest : List ℕ) (w : W)
      → length self.header_buffer ≡ 5
      → check_header (filled_header self version 0 pl) ≡ (none, no_topic)
      → round_in platform read_header
          (at_header self version 0 pl)
          version
          (store_u16_be 0 ++ (store_u16_be pl ++ rest))
          w
        ≡ continue no_topic rest w
  unfolding round_in
  no_topic_header_round platform rest w h c =
      ground (arith, fill_header_lem self version 0 pl rest h, header_chunk self version 0 pl rest)

  no_topic_round :
      (platform : Platform) (b : ℕ) (bs rest payload_array : List ℕ) (w : W)
      → length (b ∷ bs) ≡ pl
      → pl < 2 ^ 16
      → self.payload_storage ≡ some payload_array
      → round_in platform read_payload no_topic b (bs ++ rest) w
        ≡ after_deliver (deliver platform (no_topic_complete payload_array (b ∷ bs)) w) rest
  unfolding round_in fill_payload
  no_topic_round platform b bs rest payload_array w e h a = ground (
    arith,
    whole_chunk (b ∷ bs) rest,
    take-append_self (b ∷ bs) rest,
    drop-append_self (b ∷ bs) rest,
  )

  no_topic_deliver :
      (platform : Platform) {callback : MessageCallback W}
      (payload_array topic_array payload : List ℕ) (w : W)
      → self.topic_storage ≡ some topic_array
      → self.message_callback_function ≡ some callback
      → length payload ≡ pl
      → length payload ≤ length payload_array
      → platform.buffer_wrap payload ≡ none
      → deliver platform (no_topic_complete payload_array payload) w ≡ (
          let (e, w') =
            callback (record { topic = some (c_string topic_array); payload = payload }) w in
          (e, reset_decode_state (no_topic_complete payload_array payload), w'))
  unfolding deliver
  no_topic_deliver platform payload_array topic_array payload w t c e le b =
      ground (arith, take-copy_into_self payload_array payload le)

module _ {W : Type 0} (platform : Platform) where
  finish :
      (answer : Dterr × W) (later : Framer W)
      → after_callback platform answer later [] ≡ some (answer.0, later, answer.1)
  finish (none, w) later = run-nil platform later w
  finish (some e, w) later = refl

module _ {W : Type 0} (platform : Platform) {callback : MessageCallback W} where
  -- A frame with an empty topic: the callback gets the string that the topic storage holds.
  run-no_topic :
      (self : Framer W) (payload rest topic_array : List ℕ) (w : W)
      → IsReady callback self
      → self.topic_storage ≡ some topic_array
      → 0 < length payload
      → length payload < 2 ^ 16
      → length payload ≤ self.config.maximum_payload_length
      → self.config.maximum_topic_length < 2 ^ 31
      → self.config.maximum_payload_length < 2 ^ 31
      → platform.buffer_wrap payload ≡ none
      → (later : Framer W) × (run platform self
            (frame self.config.protocol_version [] payload ++ rest)
            w
          ≡ after_callback platform
              (callback (record { topic = some (c_string topic_array); payload = payload }) w)
              later
              rest)
  run-no_topic self [] rest topic_array w r a pos u m st sp b = absurd (omega arith)
  run-no_topic self (p ∷ ps) rest topic_array w r a pos u m st sp b =
      let version : ℕ = self.config.protocol_version in
      let pl : ℕ = length (p ∷ ps) in
      let (v2, e2) =
        magic_rounds platform self w
          (version ∷ (store_u16_be 0 ++ (store_u16_be pl ++ (p ∷ ps ++ rest)))) r in
      let (v3, e3) =
        run-continue platform (at_header self version 0 pl) version _ w
          {s = no_topic self version pl} {left = p ∷ (ps ++ rest)} {w' = w} v2
          (no_topic_header_round self version pl platform (p ∷ ps ++ rest) w r.header_array
            (no_topic_header self version pl refl u m st sp)) in
      let later = reset_decode_state (no_topic_complete self version pl r.payload_array (p ∷ ps)) in
      let answer : Dterr × W =
        callback (record { topic = some (c_string topic_array); payload = p ∷ ps }) w in
      let n : length (p ∷ ps) % 2 ^ 16 ≡ length (p ∷ ps) = omega (arith, u) in
      let e4 : run platform (no_topic self version pl) (p ∷ (ps ++ rest)) w
          ≡ after_callback platform answer later rest =
        last_round platform (no_topic self version pl) later p ps rest w answer v3 (
          no_topic_round self version pl platform p ps rest r.payload_array w refl u
            r.payload_allocated
          ∙ ap (λ o. after_deliver o rest)
              (no_topic_deliver self version pl platform r.payload_array topic_array (p ∷ ps) w a
                r.callback_is refl (omega (arith, r.payload_room)) b)) in
      (later, rw n (e2 ∙ e3 ∙ e4))

  -- A message with an empty topic is delivered under the topic of the message before it: behind a
  -- message that fits and whose call succeeds, the callback is called with that message's topic.
  pub empty_topic_stale :
      (self : Framer W) (topic payload payload' : List ℕ) (w w' : W)
      → IsReady callback self
      → Fits self.config topic payload
      → 0 < length payload'
      → length payload' < 2 ^ 16
      → length payload' ≤ self.config.maximum_payload_length
      → platform.buffer_wrap payload ≡ none
      → platform.buffer_wrap payload' ≡ none
      → callback (record { topic = some topic; payload = payload }) w ≡ (none, w')
      → let version = self.config.protocol_version in
        let bytes = frame version topic payload ++ frame version [] payload' in
        let (e, w'') = callback (record { topic = some topic; payload = payload' }) w' in
        (s : Framer W) × (decode platform self bytes (length bytes) w ≡ some (e, s, w''))
  empty_topic_stale self topic payload payload' w w' r f pos u m b b' c =
      let version : ℕ = self.config.protocol_version in
      let second : List ℕ = frame version [] payload' in
      let between = behind platform self r topic payload in
      let array : List ℕ = set (copy_into r.topic_array 0 topic) (length topic) 0 in
      let (later, e) =
        run-no_topic between payload' [] array w' (behind-IsReady platform self r topic payload)
          refl pos u m f.topic_signed f.payload_signed b' in
      let kept : take (length topic) (copy_into r.topic_array 0 topic) ≡ topic =
        take-copy_into_self r.topic_array topic (omega (arith, f.topic_max, r.topic_room)) in
      let old : c_string array ≡ topic =
        c_string-set (copy_into r.topic_array 0 topic) (length topic)
          (omega (arith, length-copy_into r.topic_array 0 topic, f.topic_max, r.topic_room))
          (rw kept (f.topic_string))
        ∙ kept in
      let answer = λ (l : List ℕ). callback (record { topic = some l; payload = payload' }) w' in
      (
        later,
        decode-loop platform self (frame version topic payload ++ second) w (
              omega (
                arith,
                length-append (topic ++ payload) second,
                length-append topic payload,
                f.topic_u16,
                f.payload_u16,
              ))
            ∙ run-frame platform self r topic payload second w f b
            ∙ ap (λ a. after_callback platform a between second) c
            ∙ ap (λ l. run platform between l w') (sym (append-nil second))
            ∙ e
            ∙ ap (λ l. after_callback platform (answer l) later []) old
            ∙ finish platform (answer topic) later,
      )
