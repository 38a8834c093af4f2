-- ===== src/Manifold/Locking.antt =====
-- How the operations of dtmanifold.c take the semaphore and give it back.
use dtmc_base.Common.{
  ap, ◌∙◌, ℕ, suc, ◌-◌, ◌≡◌, refl, List, [], ◌∷◌, none, some, ErrorCode, ok, arith, inl, inr,
  Option-cases, Bool-cases, ◌==◌, fail_if, ◌or_else◌, argument_null, get_or, length,
}
use dtmc_base.Manifold.{CString, Pointer, Recipient, Manifold, System, no_subject}
use dtmc_base.Manifold.Table.{find_or_add_subject, validate_subject_name}
use dtmc_base.Manifold.Api.{subscribe, unsubscribe, acquire, release}
use dtmc_base.Manifold.Subscribe.{Result-cases}
use dtmc_base.Manifold.Publish.{publish, deliver, snapshot}

none_not_some : {c : ErrorCode} → none ≡ some c → ⊥
none_not_some h = ground arith

find_or_add_subject-handle :
    (m m' : Manifold) (name : CString) (i : ℕ)
    → find_or_add_subject m name ≡ ok (i, m')
    → m'.semaphore_handle ≡ m.semaphore_handle
unfolding find_or_add_subject
find_or_add_subject-handle m m' name i e = ground arith

module _ {W : Type 0} (system : System W) (held : W → ℕ)
    (wait-held : (h t : ℕ) (w w' : W) → system.wait h t w ≡ (none, w') → held w' ≡ suc (held w))
    (wait-failed : (h t : ℕ) (w w' : W) (c : ErrorCode)
      → system.wait h t w ≡ (some c, w')
      → held w' ≡ held w)
    (post-held : (h : ℕ) (w : W) → held (system.post h w) ≡ held w - 1) where
  acquire-release_pair :
      (m m' : Manifold) (w w' : W)
      → m'.semaphore_handle ≡ m.semaphore_handle
      → acquire system m w ≡ (none, w')
      → held (release system m' w') ≡ held w
  unfolding acquire release
  acquire-release_pair m m' w w' same e = elim (Bool-cases (m.semaphore_handle == 0)) [
    | inl nowhere ↦
        let same_world : w ≡ w' = ap (λ p. p.1) (rw nowhere at e) in
        rw (same, nowhere, same_world) refl
    | inr handle ↦
        rw
          (
            same,
            handle,
            post-held m.semaphore_handle w',
            wait-held m.semaphore_handle m.semaphore_timeout w w' (rw handle at e),
          )
          (omega arith)
  ]

  acquire-failed_pair :
      (m : Manifold) (w w' : W) (c : ErrorCode)
      → acquire system m w ≡ (some c, w')
      → held w' ≡ held w
  unfolding acquire
  acquire-failed_pair m w w' c e = elim (Bool-cases (m.semaphore_handle == 0)) [
    | inl nowhere ↦ absurd (none_not_some (ap (λ p. p.0) (rw nowhere at e)))
    | inr handle ↦ wait-failed m.semaphore_handle m.semaphore_timeout w w' c (rw handle at e)
  ]

  acquire-release :
      (m m' : Manifold) (w : W)
      → m'.semaphore_handle ≡ m.semaphore_handle
      → (acquire system m w).0 ≡ none
      → held (release system m' (acquire system m w).1) ≡ held w
  acquire-release m m' w same e =
      let w' = (acquire system m w).1 in acquire-release_pair m m' w w' same (ap (λ x. (x, w')) e)

  acquire-failed :
      (m : Manifold) (w : W) (c : ErrorCode)
      → (acquire system m w).0 ≡ some c
      → held (acquire system m w).1 ≡ held w
  acquire-failed m w c e =
      let w' = (acquire system m w).1 in acquire-failed_pair m w w' c (ap (λ x. (x, w')) e)

  -- Where a wait that succeeds takes the semaphore once, one that fails does not, and a post gives
  -- it back once, `subscribe` leaves the semaphore as it found it, on success and on every error.
  pub subscribe-held :
      (m : Manifold) (name : CString) (self cb : Pointer) (w : W)
      → held (subscribe system m name self cb w).2 ≡ held w
  unfolding subscribe
  subscribe-held m name self cb w =
      elim (Option-cases (
        fail_if (self == 0) argument_null
        or_else fail_if (cb == 0) argument_null
        or_else validate_subject_name name)) [
          | inr (c, bad) ↦ rw (subscribe, bad) refl
          | inl good ↦ elim (Option-cases (acquire system m w).0) [
            | inl e ↦ rw (subscribe, good, e) (acquire-release m m w refl e)
            | inr (c, e) ↦ rw (subscribe, good, e) (acquire-failed m w c e)
          ]
        ]

  -- Where a wait that succeeds takes the semaphore once, one that fails does not, and a post gives
  -- it back once, `unsubscribe` leaves the semaphore as it found it, on success and on every error.
  pub unsubscribe-held :
      (m : Manifold) (name : CString) (self : Pointer) (w : W)
      → held (unsubscribe system m name self w).2 ≡ held w
  unfolding unsubscribe
  unsubscribe-held m name self w =
      elim (Option-cases (fail_if (self == 0) argument_null or_else validate_subject_name name)) [
        | inr (c, bad) ↦ rw (unsubscribe, bad) refl
        | inl good ↦ elim (Option-cases (acquire system m w).0) [
          | inl e ↦ rw (unsubscribe, good, e) (acquire-release m m w refl e)
          | inr (c, e) ↦ rw (unsubscribe, good, e) (acquire-failed m w c e)
        ]
      ]

  module _ (free : ℕ) (create-held : (n : ℕ) (w : W) → held (system.create_buffer n w).1 ≡ held w)
      (call-held : (cb self : Pointer) (name : CString) (bytes : List ℕ) (m : Manifold) (w : W)
        → held w ≡ free
        → held (system.call cb self name bytes m w).2 ≡ free) where
    deliver-held :
        (rs : List Recipient) (name : CString) (bytes : List ℕ) (m : Manifold) (w : W)
        → held w ≡ free
        → held (deliver system rs name bytes m w).2 ≡ free
    unfolding deliver
    deliver-held [] name bytes m w h = h
    deliver-held (r ∷ rs) name bytes m w h =
        let (e, w') = system.create_buffer (length bytes) w in
        let h' : held w' ≡ free = create-held (length bytes) w ∙ h in
        let (e', m', w'') = system.call r.newbuffer_callback r.recipient_self name bytes m w' in
        let h'' : held w'' ≡ free =
          call-held r.newbuffer_callback r.recipient_self name bytes m w' h' in
        elim (Option-cases e) [
          | inr (c, q) ↦ rw (deliver, q) h'
          | inl q ↦ elim (Option-cases e') [
            | inr (c, q') ↦ rw (deliver, q, q') h''
            | inl q' ↦ rw (deliver, q, q') (deliver-held rs name bytes m' w'' h'')
          ]
        ]

    -- Where a wait that succeeds takes the semaphore once, one that fails does not, and a post gives
    -- it back once, `publish` leaves the semaphore as it found it, on success and on every error. Of
    -- the allocation it is assumed that it leaves the semaphore alone, and of the callbacks only that
    -- they leave it as they find it when it is as it was before the call of `publish`.
    pub publish-held :
        (m : Manifold) (name : CString) (bytes : List ℕ) (w : W)
        → held w ≡ free
        → held (publish system m name bytes w).2 ≡ free
    unfolding publish
    publish-held m name bytes w h = elim (Option-cases (validate_subject_name name)) [
      | inr (c, bad) ↦ rw (publish, bad) h
      | inl good ↦ elim (Option-cases (acquire system m w).0) [
        | inr (c, e) ↦ rw (publish, good, e) (acquire-failed m w c e ∙ h)
        | inl e ↦ elim (Result-cases (find_or_add_subject m name)) [
          | inl (c, f) ↦ rw (publish, good, e, f) (acquire-release m m w refl e ∙ h)
          | inr ((i, m'), f) ↦
              rw (publish, good, e, f)
                (deliver-held (snapshot (get_or m'.subjects i no_subject).recipients) name bytes m'
                  (release system m' (acquire system m w).1)
                  (acquire-release m m' w (find_or_add_subject-handle m m' name i f) e ∙ h))
        ]
      ]
    ]
