-- ===== src/Manifold/Api.antt =====
-- The public operations of the router but `publish`. The subject name and the other pointers that
-- are not stored are never NULL here; a NULL recipient or callback is refused as in the source.
use dtmc_base.Common.{
  ℕ, List, [], ◌∷◌, Option, none, some, Dterr, argument_null, Bool, true, false, not, ◌==◌, get_or,
  set, replicate, if◌then◌else◌, ok, err, fail_if, ◌or_else◌,
}
use dtmc_base.Manifold.{
  CString, Pointer, Subject, Manifold, System, no_recipient, no_subject, max_subjects, is_empty,
}
use dtmc_base.Manifold.Table.{
  validate_subject_name, search_subject, search_recipient, find_or_add_subject,
  find_or_add_recipient, recipient_count,
}

-- `dtmanifold_init` and `dtmanifold_dispose`: all bytes zero.
abbrev pub init : Manifold
init = record {
  subjects = replicate max_subjects no_subject;
  semaphore_handle = 0;
  semaphore_timeout = 0;
}

abbrev pub dispose : Manifold → Manifold
dispose m = init

abbrev pub set_threadsafe_semaphore : Manifold → Pointer → ℕ → Manifold
set_threadsafe_semaphore m handle timeout = record m {
  semaphore_handle = handle;
  semaphore_timeout = timeout;
}

abbrev pub get_threadsafe_semaphore : Manifold → Pointer × ℕ
get_threadsafe_semaphore m = (m.semaphore_handle, m.semaphore_timeout)

-- The subscription that `subscribe` makes while it holds the semaphore.
unfoldable pub add_subscription : Manifold → CString → Pointer → Pointer → Dterr × Manifold
add_subscription m name recipient_self callback = elim (find_or_add_subject m name) [
  | err e ↦ (some e, m)
  | ok (i, m') ↦
      let s = get_or m'.subjects i no_subject in
      elim (find_or_add_recipient s.recipients recipient_self) [
        | err e ↦ (some e, m')
        | ok (j, rs) ↦
            let r = record (get_or rs j no_recipient) { newbuffer_callback = callback } in
            (
              none,
              record m' { subjects = set m'.subjects i (record s { recipients = set rs j r }) },
            )
      ]
]

-- What `unsubscribe` does while it holds the semaphore.
unfoldable pub remove_subscription : Manifold → CString → Pointer → Manifold
remove_subscription m name recipient_self = elim (search_subject m name) [
  | none ↦ m
  | some i ↦
      let s = get_or m.subjects i no_subject in
      elim (search_recipient s recipient_self) [
        | none ↦ m
        | some j ↦ record m {
          subjects = set m.subjects i (record s { recipients = set s.recipients j no_recipient });
        }
      ]
]

-- The snapshot of `foreach_topic`: the names in use, each with its number of recipients.
unfoldable pub topics : List Subject → List (CString × ℕ)
topics [] = []
topics (s ∷ ss) =
    let rest = topics ss in
    if is_empty s.subject_name then rest else (s.subject_name, recipient_count s.recipients) ∷ rest

module _ {W : Type 0} where
  -- The iterator sees the topics one by one, until it says stop. It may use the router.
  unfoldable pub iterate :
      (CString → ℕ → Manifold → W → Bool × Manifold × W)
      → List (CString × ℕ)
      → Manifold
      → W
      → Manifold × W
  iterate it [] m w = (m, w)
  iterate it ((name, count) ∷ rest) m w =
      let (go_on, m', w') = it name count m w in
      elim go_on [ true ↦ iterate it rest m' w' | false ↦ (m', w') ]

module _ {W : Type 0} (system : System W) where
  -- The semaphore around an operation: nothing is waited for where there is none.
  unfoldable pub acquire : Manifold → W → Dterr × W
  acquire m w =
      if m.semaphore_handle == 0
      then (none, w)
      else system.wait m.semaphore_handle m.semaphore_timeout w

  unfoldable pub release : Manifold → W → W
  release m w = if m.semaphore_handle == 0 then w else system.post m.semaphore_handle w

  unfoldable pub subscribe : Manifold → CString → Pointer → Pointer → W → Dterr × Manifold × W
  subscribe m name recipient_self callback w =
      elim (fail_if (recipient_self == 0) argument_null
        or_else fail_if (callback == 0) argument_null
        or_else validate_subject_name name) [
          | some e ↦ (some e, m, w)
          | none ↦
              let (e, w') = acquire m w in
              elim e [
                | some c ↦ (some c, m, w')
                | none ↦
                    let (e', m') = add_subscription m name recipient_self callback in
                    (e', m', release m w')
              ]
        ]

  unfoldable pub unsubscribe : Manifold → CString → Pointer → W → Dterr × Manifold × W
  unsubscribe m name recipient_self w =
      elim (fail_if (recipient_self == 0) argument_null or_else validate_subject_name name) [
        | some e ↦ (some e, m, w)
        | none ↦
            let (e, w') = acquire m w in
            elim e [
              | some c ↦ (some c, m, w')
              | none ↦ (none, remove_subscription m name recipient_self, release m w')
            ]
      ]

  -- The queries give the value stored through their out parameter, or `none` where none is.
  unfoldable pub subject_recipient_count : Manifold → CString → W → Dterr × Option ℕ × W
  subject_recipient_count m name w = elim (validate_subject_name name) [
    | some e ↦ (some e, none, w)
    | none ↦
        let (e, w') = acquire m w in
        elim e [
          | some c ↦ (some c, none, w')
          | none ↦ (
            none,
            elim (search_subject m name) [
              | none ↦ some 0
              | some i ↦
                  let s = get_or m.subjects i no_subject in
                  some (if is_empty s.subject_name then 0 else recipient_count s.recipients)
            ],
            release m w',
          )
        ]
  ]

  unfoldable pub has_subject : Manifold → CString → W → Dterr × Option Bool × W
  has_subject m name w = elim (validate_subject_name name) [
    | some e ↦ (some e, none, w)
    | none ↦
        let (e, w') = acquire m w in
        elim e [
          | some c ↦ (some c, none, w')
          | none ↦ (
            none,
            some (elim (search_subject m name) [
              | none ↦ false
              | some i ↦ not (is_empty (get_or m.subjects i no_subject).subject_name)
            ]),
            release m w',
          )
        ]
  ]

  unfoldable pub foreach_topic :
      Manifold → (CString → ℕ → Manifold → W → Bool × Manifold × W) → W → Dterr × Manifold × W
  foreach_topic m it w =
      let (e, w') = acquire m w in
      elim e [
        | some c ↦ (some c, m, w')
        | none ↦ let (m', w'') = iterate it (topics m.subjects) m (release m w') in (none, m', w'')
      ]
