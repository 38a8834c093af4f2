-- ===== src/Distributors/Tests.antt =====
-- The distributors at concrete inputs: the world is the queue.
use dtmc_base.Common.{
  ◌==◌, get_or, Option, true, ℕ, ◌≡◌, ◌<◌, ◌++◌, refl, List, [], ◌∷◌, none, some, fail, ok, err,
  replicate, arith, length, length-replicate, ltb, lt→ltb, if◌then◌else◌, Dterr, Result,
}
use dtmc_base.Manifold.{CString, System, Manifold, no_subject, no_recipient, string_eq}
use dtmc_base.Manifold.Api
use dtmc_base.Manifold.Table.{validate_subject_name, find_or_add_subject, first_index}
use dtmc_base.Manifold.Publish.{snapshot}
use dtmc_base.NetPortal.Shm.{NetportalShm}
use dtmc_base.NetPortal.Shm
use dtmc_base.Packing.{encode_all}
use dtmc_base.Packing.Samples.{fields-laws}
use dtmc_base.NetProfile.{NetProfile, empty}
use dtmc_base.Distributors.{Bufferqueue, BufferqueueLaws}
use dtmc_base.Distributors.Profiles.{ProfileDistributor}
use dtmc_base.Distributors.Listening.{IsListening}
use dtmc_base.Distributors.Buffers
use dtmc_base.Distributors.Buffers.{BufferDistributor}
use dtmc_base.Distributors.Chunks.{receiving_portal, collect-distribute}
use dtmc_base.Distributors.Objects
use dtmc_base.Distributors.Objects.{Objects, ObjectDistributor}
use dtmc_base.Distributors.Exchange
use dtmc_base.Distributors.Exchange.{ObjectsLaws, GivesWaiting}
use dtmc_base.Distributors.Samples.{ByteChunker, chunker, chunker-laws}
use dtmc_base.Distributors.Received.{
  distribute_all, collect_all, map_filled, collect_all-distribute_all,
}

abbrev World : Type 0
World = List (List ℕ)

abbrev put : ℕ → List ℕ → World → Dterr × World
put handle bytes w = if ltb (length w) 4 then (none, w ++ (bytes ∷ [])) else (some fail, w)

abbrev get : ℕ → World → Result (List ℕ) × World
get handle [] = (err fail, [])
get handle (bytes ∷ w) = (ok bytes, w)

abbrev get_within : ℕ → ℕ → World → Result (Option (List ℕ)) × World
get_within handle timeout_ms [] = (ok none, [])
get_within handle timeout_ms (bytes ∷ w) = (ok (some bytes), w)

abbrev queue : Bufferqueue World
queue = record {
  put = put;
  get = get;
  get_within = get_within;
  create_buffer = λ n w. (ok (replicate n 9), w);
}

put_lem :
    (bytes : List ℕ) (w : World)
    → length w < 4
    → (w' : World) × (put 8 bytes w ≡ (none, w')) × (w' ≡ w ++ (bytes ∷ []))
put_lem bytes w room =
    let e : ltb (length w) 4 ≡ true = lt→ltb (length w) 4 room in
    (w ++ (bytes ∷ []), rw e refl, refl)

get_lem :
    (bytes : List ℕ) (rest : List (List ℕ)) (w : World)
    → w ≡ bytes ∷ rest
    → (w' : World) × (get 8 w ≡ (ok bytes, w')) × (w' ≡ rest)
get_lem bytes rest w e = (rest, rw e refl, refl)

abbrev queue-laws : BufferqueueLaws queue 8
queue-laws = record {
  contents = λ w. w;
  capacity = 4;
  put_lem = put_lem;
  get_lem = get_lem;
  create_buffer_lem = λ n w. (replicate n 9, refl, length-replicate n 9);
}

abbrev system : System World
system = record {
  wait = λ handle timeout w. (none, w);
  post = λ handle w. w;
  create_buffer = λ n w. (none, w);
  call = λ callback recipient topic payload m w. (none, m, w);
}

abbrev distributor : ProfileDistributor
distributor = record { netportal_handle = 7; bufferqueue_handle = 8 }

abbrev topic : CString
topic = 112 ∷ []

abbrev router : Manifold
router = record Api.init {
  subjects =
      record {
        subject_name = topic;
        recipients =
            record { recipient_self = 3; newbuffer_callback = 1 } ∷ replicate 9 no_recipient;
      }
      ∷ replicate 9 no_subject;
}

abbrev portal : NetportalShm
portal = record Shm.zeroed { manifold = router }

portal-IsListening : IsListening 1 3 topic portal
unfolding validate_subject_name find_or_add_subject first_index string_eq snapshot
portal-IsListening = record {
  subject = 0;
  valid = refl;
  open_router = refl;
  found = refl;
  only = refl;
}

abbrev nodes : List NetProfile
nodes =
    record empty { name_list = some (97 ∷ 98 ∷ []) }
    ∷ record empty { state_list = some (99 ∷ []) }
    ∷ []

collect_all-distribute_all_example :
    (w1 : World) × (w2 : World) × (distribute_all fields-laws system queue distributor 1 topic nodes
        portal []
      ≡ (none, portal, w1))
    × (collect_all fields-laws system queue distributor 1 topic 2 w1 ≡ (none, map_filled nodes, w2))
    × (w2 ≡ [])
unfolding encode_all
collect_all-distribute_all_example =
    collect_all-distribute_all fields-laws system queue distributor 1 topic queue-laws 3
      (λ n w. refl) nodes portal [] portal-IsListening (omega arith) refl (omega arith)

abbrev distributor_of_buffers : BufferDistributor ByteChunker
distributor_of_buffers = record {
  config = record {
    topic = some topic;
    netportal_handle = 7;
    netportal_payload_chunk_size = 1;
    bufferqueue_handle = 8;
  };
  chunker = record { position = 5; got = 6 ∷ [] };
}

-- Two bytes in three chunks.
collect-distribute_example :
    (sent : ByteChunker) × (received : ByteChunker) × (w1 : World) × (w2 : World)
    × (Buffers.distribute chunker queue
          (receiving_portal chunker-laws system queue distributor_of_buffers 1 topic)
          4
          distributor_of_buffers
          (20 ∷ 21 ∷ [])
          portal
          []
        ≡ some (none, sent, portal, w1))
    × (Buffers.collect chunker queue 4 distributor_of_buffers 100 w1
        ≡ some
            (none, some (20 ∷ 21 ∷ []), record distributor_of_buffers { chunker = received }, w2))
    × (w2 ≡ [])
collect-distribute_example =
    collect-distribute chunker-laws system queue distributor_of_buffers 1 topic queue-laws 3
      (λ n w. refl) portal portal-IsListening distributor_of_buffers (20 ∷ 21 ∷ []) (0 ∷ 20 ∷ [])
      ((0 ∷ 21 ∷ []) ∷ (1 ∷ []) ∷ []) (record { position = 0; got = [] })
      (record { position = 0; got = [] }) 4 100 [] refl refl refl refl refl (omega arith) refl
      (omega arith) (omega arith)

-- An object is a number, of the model 5.
abbrev objects : Objects ℕ
objects = record {
  load_int32 = λ bytes. get_or bytes 0 0;
  create = λ model_number. if model_number == 5 then ok 0 else err fail;
  packx_length = λ object. ok 2;
  packx = λ object output n. (none, 5 ∷ object ∷ []);
  unpackx = λ object payload n. (none, get_or payload 1 0);
}

abbrev objects-laws : ObjectsLaws objects
objects-laws = record {
  encode = λ object. 5 ∷ object ∷ [];
  packx_length_lem = λ object. refl;
  packx_lem = λ object output same. refl;
  unpackx_lem = λ object. (0, refl, refl);
}

get_within_lem : GivesWaiting queue 8 queue-laws
get_within_lem bytes rest timeout_ms w e = (rest, rw e refl, refl)

abbrev distributor_of_objects : ObjectDistributor
distributor_of_objects = record { topic = some topic; netportal_handle = 7; bufferqueue_handle = 8 }

collect-distribute_object_example :
    (w1 : World) × (w2 : World) × (Objects.distribute objects queue
        (Exchange.receiving_portal objects-laws system queue distributor_of_objects 1 topic)
        distributor_of_objects
        42
        portal
        []
      ≡ (none, portal, w1))
    × (Objects.collect objects queue distributor_of_objects 100 w1 ≡ (ok 42, w2))
    × (w2 ≡ [])
collect-distribute_object_example =
    Exchange.collect-distribute_object objects-laws system queue distributor_of_objects 1 topic
      queue-laws 3 distributor_of_objects 42 100 portal [] get_within_lem (λ n v. refl)
      portal-IsListening refl (omega arith) refl (omega arith)
