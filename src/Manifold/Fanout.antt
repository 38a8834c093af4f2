-- ===== src/Manifold/Fanout.antt =====
-- Whom `dtmanifold_publish` calls, and with what.
use dtmc_base.Common.{
  ap, Bool-cases, ℕ, ◌≡◌, refl, List, [], ◌∷◌, none, some, Dterr, ok, ◌==◌, arith, inl, inr, get_or,
  Option-cases, if◌then◌else◌,
}
use dtmc_base.Manifold.{CString, Pointer, Recipient, Manifold, System, no_subject}
use dtmc_base.Manifold.Table.{find_or_add_subject, validate_subject_name}
use dtmc_base.Manifold.Api.{acquire, release}
use dtmc_base.Manifold.Publish.{publish, deliver, snapshot}

-- A world that keeps the calls of callbacks, the newest first: the callback, the recipient, the
-- subject and the bytes. The answer of each callback is a function of the recipient.
pub record Delivery : Type 0 where
  pub callback : Pointer
  pub recipient : Pointer
  pub subject : CString
  pub bytes : List ℕ

abbrev pub recording : (Pointer → Dterr) → System (List Delivery)
recording answer = record {
  wait = λ handle timeout w. (none, w);
  post = λ handle w. w;
  create_buffer = λ n w. (none, w);
  call = λ cb self name payload m w. (
    answer self,
    m,
    record { callback = cb; recipient = self; subject = name; bytes = payload } ∷ w,
  );
}

abbrev call_of : Recipient → CString → List ℕ → Delivery
call_of r name payload = record {
  callback = r.newbuffer_callback;
  recipient = r.recipient_self;
  subject = name;
  bytes = payload;
}

-- The calls for a table of recipients in its order, up to the first that fails.
unfoldable pub calls :
    (Pointer → Dterr) → CString → List ℕ → List Recipient → List Delivery → Dterr × List Delivery
calls answer name payload [] w = (none, w)
calls answer name payload (r ∷ rs) w =
    let next = call_of r name payload ∷ w in
    let skipped = calls answer name payload rs w in
    let called = calls answer name payload rs next in
    if r.recipient_self == 0
    then skipped
    else if r.newbuffer_callback == 0
    then skipped
    else elim (answer r.recipient_self) [ some e ↦ (some e, next) | none ↦ called ]

deliver-snapshot :
    (answer : Pointer → Dterr) (name : CString) (payload : List ℕ) (m : Manifold)
    (rs : List Recipient) (w : List Delivery)
    → deliver (recording answer) (snapshot rs) name payload m w
      ≡ (let (e, w') = calls answer name payload rs w in (e, m, w'))
unfolding deliver snapshot calls
deliver-snapshot answer name payload m [] w = refl
deliver-snapshot answer name payload m (r ∷ rs) w = elim (Bool-cases (r.recipient_self == 0)) [
  | inl absent ↦ rw absent (deliver-snapshot answer name payload m rs w)
  | inr present ↦ elim (Bool-cases (r.newbuffer_callback == 0)) [
    | inl deaf ↦ rw (present, deaf) (deliver-snapshot answer name payload m rs w)
    | inr hears ↦ elim (Option-cases (answer r.recipient_self)) [
      | inr (e, fails) ↦ rw (present, hears, deliver, fails) refl
      | inl passes ↦
          rw (present, hears, deliver, passes)
            (deliver-snapshot answer name payload m rs (call_of r name payload ∷ w))
    ]
  ]
]

acquire-recording :
    (answer : Pointer → Dterr) (m : Manifold) (w : List Delivery)
    → acquire (recording answer) m w ≡ (none, w)
unfolding acquire
acquire-recording answer m w = elim (Bool-cases (m.semaphore_handle == 0)) [
  | inl nowhere ↦ rw nowhere refl
  | inr handle ↦ rw handle refl
]

release-recording :
    (answer : Pointer → Dterr) (m : Manifold) (w : List Delivery)
    → release (recording answer) m w ≡ w
unfolding release
release-recording answer m w = elim (Bool-cases (m.semaphore_handle == 0)) [
  | inl nowhere ↦ rw nowhere refl
  | inr handle ↦ rw handle refl
]

-- Where the semaphore and every allocation are to be had, `publish` on a subject that is found or
-- added calls the callbacks of its recipients in the order of the table, each with the recipient, the
-- subject's name and all bytes, and no others. It stops at the first callback that fails, gives its
-- error, and leaves the router as `find_or_add_subject` did.
pub publish-calls :
    (answer : Pointer → Dterr) (m m' : Manifold) (name : CString) (payload : List ℕ) (i : ℕ)
    (w : List Delivery)
    → find_or_add_subject m name ≡ ok (i, m')
    → publish (recording answer) m name payload w ≡ (
        let (e, w') = calls answer name payload (get_or m'.subjects i no_subject).recipients w in
        (e, m', w'))
unfolding publish
publish-calls answer m m' name payload i w found =
    let valid : validate_subject_name name ≡ none = unfold find_or_add_subject in ground arith in
    let taken : acquire (recording answer) m w ≡ (none, w) = acquire-recording answer m w in
    rw
      (
        publish,
        valid,
        ap (λ p. p.0) taken,
        found,
        release-recording answer m' (acquire (recording answer) m w).1,
        ap (λ p. p.1) taken,
      )
      (deliver-snapshot answer name payload m' (get_or m'.subjects i no_subject).recipients w)
