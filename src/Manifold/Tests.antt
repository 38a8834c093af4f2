-- ===== src/Manifold/Tests.antt =====
-- The router at concrete inputs. The world is the number of times that the semaphore is held.
use dtmc_base.Common.{
  List, ◌≢◌, sym, ap, ℕ, suc, ◌-◌, ◌≡◌, refl, [], ◌∷◌, none, some, ErrorCode, ◌&&◌, ◌==◌, arith,
  if◌then◌else◌,
}
use dtmc_base.Manifold.{Pointer, no_subject, no_recipient, CString, Manifold, System, string_eq}
use dtmc_base.Manifold.Table.{
  is_free_recipient, first_index, recipient_count, validate_subject_name, find_or_add_subject,
  find_or_add_recipient,
}
use dtmc_base.Manifold.Api.{
  remove_subscription, init, set_threadsafe_semaphore, subscribe, unsubscribe, acquire,
  add_subscription,
}
use dtmc_base.Manifold.Runs.{
  Change, add, drop_out, change, run_changes, apply_changes, run_changes-apply_changes,
}
use dtmc_base.Manifold.Unsubscribe.{IsMap}
use dtmc_base.Manifold.Publish.{publish}
use dtmc_base.Manifold.Lookup.{lookup}
use dtmc_base.Manifold.Subscriptions.{HasCleanSlots}
use dtmc_base.Manifold.Subscribe.{subscribe-lookup}
use dtmc_base.Manifold.Room.{HasRoom, subscribe_ok}
use dtmc_base.Manifold.Fanout.{recording, calls, publish-calls}
use dtmc_base.Manifold.Locking.{publish-held}

abbrev counting : System ℕ
counting = record {
  wait = λ h t w. (none, suc w);
  post = λ h w. w - 1;
  create_buffer = λ n w. (none, w);
  call = λ cb self name bytes m w. (none, m, w);
}

abbrev empty_router : Manifold
empty_router = set_threadsafe_semaphore init 9 100

abbrev news : CString
news = 110 ∷ 101 ∷ []

subscribed_ok : (subscribe counting empty_router news 5 6 0).0 ≡ none
unfolding subscribe validate_subject_name acquire add_subscription find_or_add_subject first_index
    find_or_add_recipient
subscribed_ok = refl

empty_router-HasCleanSlots : HasCleanSlots empty_router.subjects
unfolding recipient_count
empty_router-HasCleanSlots =
    (refl, (refl, (refl, (refl, (refl, (refl, (refl, (refl, (refl, (refl, tt))))))))))

subscribe-lookup_example :
    let (_, m', _) = subscribe counting empty_router news 5 6 0 in
    HasCleanSlots m'.subjects
    × (lookup news 5 m'.subjects
        ≡ (if string_eq news news && (5 == 5) then some 6 else lookup news 5 empty_router.subjects))
subscribe-lookup_example =
    subscribe-lookup counting empty_router news news 5 6 5 0 refl empty_router-HasCleanSlots
      subscribed_ok

wait_ok : (h t w w' : ℕ) → counting.wait h t w ≡ (none, w') → w' ≡ suc w
wait_ok h t w w' e = sym (ap (λ p. p.1) e)

none_not_some : (c : ErrorCode) → none ≡ some c → ⊥
none_not_some c e = ground arith

wait_bad : (h t w w' : ℕ) (c : ErrorCode) → counting.wait h t w ≡ (some c, w') → w' ≡ w
wait_bad h t w w' c e = absurd (none_not_some c (ap (λ p. p.0) e))

publish-held_example : (publish counting empty_router news (1 ∷ 2 ∷ []) 0).2 ≡ 0
publish-held_example =
    publish-held counting (λ w. w) wait_ok wait_bad (λ h w. refl) 0 (λ n w. refl)
      (λ cb self name bytes m w e. e) empty_router news (1 ∷ 2 ∷ []) 0 refl

one_has_room : first_index is_free_recipient no_subject.recipients ≢ none
one_has_room = unfold first_index in ground arith

empty_router-HasRoom : HasRoom empty_router.subjects
empty_router-HasRoom = (
  one_has_room,
  (
    one_has_room,
    (
      one_has_room,
      (
        one_has_room,
        (
          one_has_room,
          (one_has_room, (one_has_room, (one_has_room, (one_has_room, (one_has_room, tt))))),
        ),
      ),
    ),
  ),
)

subscribe_ok_example : (subscribe counting empty_router news 5 6 0).0 ≡ none
subscribe_ok_example =
    subscribe_ok counting empty_router news 5 6 0 (ground arith) (ground arith) (omega arith)
      (unfold acquire in refl) (unfold first_index in ground arith) empty_router-HasRoom

abbrev occupied : Manifold
occupied = record empty_router {
  subjects =
      record {
        subject_name = news;
        recipients =
            record { recipient_self = 5; newbuffer_callback = 6 }
            ∷ no_recipient
            ∷ record { recipient_self = 7; newbuffer_callback = 8 }
            ∷ [];
      }
      ∷ [];
}

publish-calls_example : publish (recording (λ r. none)) occupied news (1 ∷ 2 ∷ []) [] ≡ (
  none,
  occupied,
  record { callback = 8; recipient = 7; subject = news; bytes = 1 ∷ 2 ∷ [] }
      ∷ record { callback = 6; recipient = 5; subject = news; bytes = 1 ∷ 2 ∷ [] }
      ∷ [],
)
unfolding calls
publish-calls_example =
    publish-calls (λ r. none) occupied occupied news (1 ∷ 2 ∷ []) 0 []
      (unfold find_or_add_subject in
        unfold validate_subject_name in unfold first_index in unfold string_eq in refl)

-- A recipient subscribes, another one too, and the first one leaves.
abbrev visits : List Change
visits = add news 5 6 ∷ add news 7 8 ∷ drop_out news 5 ∷ []

visits_ok : (run_changes counting visits empty_router 0).0 ≡ none
unfolding run_changes change subscribe unsubscribe validate_subject_name acquire add_subscription
    find_or_add_subject first_index find_or_add_recipient remove_subscription string_eq
visits_ok = refl

run_changes-apply_changes_example :
    let m = (run_changes counting visits empty_router 0).1 in
    IsMap m
    × ((n : CString) (q : Pointer)
        → lookup n q m.subjects ≡ apply_changes visits (λ name recipient. none) n q)
run_changes-apply_changes_example =
    run_changes-apply_changes counting visits 9 100 0 (refl, (refl, tt)) visits_ok
