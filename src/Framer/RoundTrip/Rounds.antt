-- ===== src/Framer/RoundTrip/Rounds.antt =====
-- The rounds of the decoder on one frame.
use dtmc_base.Common.{
  take, ℕ, ◌/◌, ◌%◌, ◌^◌, ◌<◌, ◌≤◌, ◌≡◌, ◌∙◌, sym, List, [], ◌∷◌, ◌++◌, none, some, arith, length,
  set, copy_into, take_all, length-copy_into, take-copy_into, take-copy_into_self, take-append_self,
  drop-append_self, length-append,
}
use dtmc_base.Framer.{
  MessageCallback, FramerConfig, wait_magic_first, read_header, read_topic, read_payload, Framer,
  Platform,
}
use dtmc_base.Framer.Encode.{store_u16_be, load_u16_be}
use dtmc_base.Framer.Decode.{
  continue, stop, chunk_size, fill_header, fill_topic, fill_payload, check_header, finish_topic,
  message, deliver, round_in,
}
use dtmc_base.Framer.Progress.{InProgress}
use dtmc_base.Framer.Strings.{HasNoNul, c_string-set}

-- A value below 2 ^ 16 survives the two bytes.
pub load-store :
    (n a b c d : ℕ)
    → n < 2 ^ 16
    → (load_u16_be (a ∷ ((n / 2 ^ 8) % 256) ∷ (n % 256) ∷ c ∷ d ∷ []) 1 ≡ n)
      × (load_u16_be (a ∷ c ∷ d ∷ ((n / 2 ^ 8) % 256) ∷ (n % 256) ∷ []) 3 ≡ n)
load-store n a b c d h = omega arith

-- A decoder between two messages, with its storage allocated for its maxima.
pub record IsReady {W : Type 0} (callback : MessageCallback W) (self : Framer W) : Type 0 where
  pub idle : self.decode_phase ≡ wait_magic_first
  pub callback_is : self.message_callback_function ≡ some callback
  pub header_array : length self.header_buffer ≡ 5
  pub topic_array : List ℕ
  pub topic_allocated : self.topic_storage ≡ some topic_array
  pub topic_room : self.config.maximum_topic_length < length topic_array
  pub payload_array : List ℕ
  pub payload_allocated : self.payload_storage ≡ some payload_array
  pub payload_room : self.config.maximum_payload_length ≤ length payload_array
  pub counters : InProgress self

-- A message that the configured decoder takes whole: a string that is not empty, and some bytes.
pub record Fits (config : FramerConfig) (topic payload : List ℕ) : Type 0 where
  pub topic_some : 0 < length topic
  pub topic_string : HasNoNul topic
  pub topic_max : length topic ≤ config.maximum_topic_length
  pub topic_u16 : length topic < 2 ^ 16
  pub payload_some : 0 < length payload
  pub payload_max : length payload ≤ config.maximum_payload_length
  pub payload_u16 : length payload < 2 ^ 16
  pub topic_signed : config.maximum_topic_length < 2 ^ 31
  pub payload_signed : config.maximum_payload_length < 2 ^ 31

-- The five bytes behind the magic.
abbrev pub header : ℕ → ℕ → ℕ → List ℕ
header version topic_length payload_length =
    version ∷ (store_u16_be topic_length ++ store_u16_be payload_length)

module _ {W : Type 0} (self : Framer W) (version tl pl : ℕ) where
  abbrev pub at_header : Framer W
  at_header = record self { decode_phase = read_header; header_bytes_filled = 0 }

  abbrev pub filled_header : Framer W
  filled_header = record at_header { header_buffer = header version tl pl; header_bytes_filled = 5 }

  -- After a header that passes the checks.
  abbrev pub at_topic : Framer W
  at_topic = record filled_header {
    current_topic_length = tl;
    current_payload_length = pl;
    topic_bytes_filled = 0;
    payload_bytes_filled = 0;
    decode_phase = read_topic;
  }

  copy_header :
      length self.header_buffer ≡ 5
      → copy_into self.header_buffer 0 (header version tl pl) ≡ header version tl pl
  copy_header h =
      sym (
        take_all 5 (copy_into self.header_buffer 0 (header version tl pl))
          (omega (arith, length-copy_into self.header_buffer 0 (header version tl pl))))
      ∙ take-copy_into self.header_buffer 0 (header version tl pl) (omega arith)

  pub header_chunk : (rest : List ℕ) → chunk_size 5 0 (header version tl pl ++ rest) ≡ 5
  header_chunk rest = ground arith

  pub fill_header_lem :
      (rest : List ℕ)
      → length self.header_buffer ≡ 5
      → fill_header at_header (header version tl pl ++ rest) ≡ filled_header
  unfolding fill_header
  fill_header_lem rest h = rw (header_chunk rest, copy_header h)

  -- What `check_header` asks of the two lengths.
  pub check_header_lem :
      self.config.protocol_version ≡ version
      → tl < 2 ^ 16
      → pl < 2 ^ 16
      → 0 < tl
      → tl ≤ self.config.maximum_topic_length
      → pl ≤ self.config.maximum_payload_length
      → self.config.maximum_topic_length < 2 ^ 31
      → self.config.maximum_payload_length < 2 ^ 31
      → check_header filled_header ≡ (none, at_topic)
  unfolding check_header
  check_header_lem ver ht hp pos mt mp st sp = ground (
    arith,
    (load-store tl version (pl / 2 ^ 8 % 256) (pl % 256) 0 ht),
    load-store pl version ((tl / 2 ^ 8) % 256) (tl % 256) 0 hp,
  )

  pub header_round :
      (platform : Platform) (rest : List ℕ) (w : W)
      → length self.header_buffer ≡ 5
      → check_header filled_header ≡ (none, at_topic)
      → round_in platform read_header at_header version
          (store_u16_be tl ++ (store_u16_be pl ++ rest))
          w
        ≡ continue at_topic rest w
  unfolding round_in
  header_round platform rest w h c = ground (arith, fill_header_lem rest h, header_chunk rest)

-- A whole part of the message taken in one round.
pub whole_chunk :
    (xs ys : List ℕ) → length xs < 2 ^ 16 → chunk_size (length xs) 0 (xs ++ ys) ≡ length xs
whole_chunk xs ys h = ground (arith, length-append xs ys)

module _ {W : Type 0} (self : Framer W) (version pl : ℕ) (topic topic_array : List ℕ) where
  abbrev pub at_payload : Framer W
  at_payload = record (at_topic self version (length topic) pl) {
    topic_storage = some (set (copy_into topic_array 0 topic) (length topic) 0);
    topic_bytes_filled = length topic;
    decode_phase = read_payload;
  }

  pub topic_round :
      (platform : Platform) (b : ℕ) (bs rest : List ℕ) (w : W)
      → b ∷ bs ≡ topic
      → length topic < 2 ^ 16
      → self.topic_storage ≡ some topic_array
      → round_in platform read_topic (at_topic self version (length topic) pl) b (bs ++ rest) w
        ≡ continue at_payload rest w
  unfolding round_in fill_topic finish_topic
  topic_round platform b bs rest w e h a =
      ground
        (arith, whole_chunk topic rest h, take-append_self topic rest, drop-append_self topic rest)

  -- With all of the payload there.
  abbrev pub complete : List ℕ → List ℕ → Framer W
  complete payload_array payload = record at_payload {
    payload_storage = some (copy_into payload_array 0 payload);
    payload_bytes_filled = pl;
  }

  pub payload_round :
      (platform : Platform) (b : ℕ) (bs rest payload_array : List ℕ) (w : W)
      → length (b ∷ bs) ≡ pl
      → pl < 2 ^ 16
      → self.payload_storage ≡ some payload_array
      → round_in platform read_payload at_payload b (bs ++ rest) w ≡ (
          let (e, sent, w') = deliver platform (complete payload_array (b ∷ bs)) w in
          elim e [ some c ↦ stop c sent w' | none ↦ continue sent rest w' ])
  unfolding round_in fill_payload
  payload_round platform b bs rest payload_array w e h a = ground (
    arith,
    whole_chunk (b ∷ bs) rest,
    take-append_self (b ∷ bs) rest,
    drop-append_self (b ∷ bs) rest,
  )

  -- The strings and bytes that the callback is handed.
  pub message-complete :
      (payload_array payload : List ℕ)
      → HasNoNul topic
      → length topic < length topic_array
      → length payload ≡ pl
      → length payload ≤ length payload_array
      → message (complete payload_array payload) ≡ record { topic = some topic; payload = payload }
  message-complete payload_array payload n lt e le =
      let t : take (length topic) (copy_into topic_array 0 topic) ≡ topic =
        take-copy_into_self topic_array topic (omega arith) in
      ground (
        arith,
        t,
        take-copy_into_self payload_array payload le,
        c_string-set (copy_into topic_array 0 topic) (length topic)
            (omega (arith, length-copy_into topic_array 0 topic)) (rw t n),
      )
