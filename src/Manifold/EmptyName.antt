-- ===== src/Manifold/EmptyName.antt =====
-- What `dtmanifold_subscribe` does with the empty subject name.
use dtmc_base.Common.{
  ok, ◌or_else◌, argument_null, fail_if, leb, ==_self, ◌==◌, ℕ, ◌<◌, ◌≡◌, ◌≢◌, refl, List, [], ◌∷◌,
  none, some, true, false, arith, length, get_or, set, replicate,
}
use dtmc_base.Manifold.{
  CString, Pointer, Recipient, Manifold, System, no_recipient, no_subject, string_eq,
}
use dtmc_base.Manifold.Table.{
  first_index, find_or_add_subject, find_or_add_recipient, validate_subject_name,
}
use dtmc_base.Manifold.Api.{release, init, add_subscription, subscribe, acquire}
use dtmc_base.Manifold.Lookup.{string_eq_iff, lookup, lookup_recipient}

-- The first entry of the table after a recipient has subscribed to the empty name.
abbrev leaked : Pointer → Pointer → Manifold
leaked self cb = record init {
  subjects =
      record {
        subject_name = [];
        recipients =
            record { recipient_self = self; newbuffer_callback = cb } ∷ replicate 9 no_recipient;
      }
      ∷ replicate 9 no_subject;
}

module _ {W : Type 0} (system : System W) where
  first_step :
      (self cb : Pointer) (w : W)
      → self ≢ 0
      → cb ≢ 0
      → subscribe system init [] self cb w ≡ (none, leaked self cb, w)
  unfolding subscribe validate_subject_name acquire release add_subscription find_or_add_subject
      find_or_add_recipient first_index
  first_step self cb w s c =
      let es : (self == 0) ≡ false = ground arith in
      let ec : (cb == 0) ≡ false = ground arith in rw (subscribe, es, ec) refl

  second_step :
      (self cb self' cb' : Pointer) (c : ℕ) (cs : CString) (w : W)
      → self ≢ 0
      → self' ≢ 0
      → cb' ≢ 0
      → self ≢ self'
      → length (c ∷ cs) < 65
      → let (e, m, _) = subscribe system (leaked self cb) (c ∷ cs) self' cb' w in
        (e ≡ none) × (lookup (c ∷ cs) self m.subjects ≡ some cb)
  unfolding subscribe validate_subject_name acquire release add_subscription find_or_add_subject
      find_or_add_recipient first_index lookup lookup_recipient
  second_step self cb self' cb' c cs w s s' n d short =
      let es : (self == 0) ≡ false = ground arith in
      let es' : (self' == 0) ≡ false = ground arith in
      let en : (cb' == 0) ≡ false = ground arith in
      let ed : (self == self') ≡ false = ground arith in
      let ev : leb 65 (length (c ∷ cs)) ≡ false = ground arith in
      let eq : string_eq (c ∷ cs) (c ∷ cs) ≡ true = (string_eq_iff (c ∷ cs) (c ∷ cs)).1 refl in
      let valid : (fail_if (self' == 0) argument_null
            or_else fail_if (cb' == 0) argument_null
            or_else validate_subject_name (c ∷ cs))
          ≡ none =
        ground arith in
      let named : Manifold = record (leaked self cb) {
        subjects =
            set (leaked self cb).subjects 0
              (record (get_or (leaked self cb).subjects 0 no_subject) { subject_name = c ∷ cs });
      } in
      let found : find_or_add_subject (leaked self cb) (c ∷ cs) ≡ ok (0, named) =
        rw (find_or_add_subject, validate_subject_name, ev) refl in
      let both : List Recipient =
        record { recipient_self = self; newbuffer_callback = cb }
        ∷ record { recipient_self = self'; newbuffer_callback = 0 }
        ∷ replicate 8 no_recipient in
      let added : find_or_add_recipient (get_or named.subjects 0 no_subject).recipients self'
          ≡ ok (1, both) =
        rw (find_or_add_recipient, es, ed, first_index, es) refl in
      rw (subscribe, valid, add_subscription, found, added)
        (refl, rw (lookup, eq, es, ==_self self) refl)

  -- A recipient that subscribes to the empty name on a fresh router becomes, with the next
  -- subscription of another recipient to a new name, a subscriber of that name.
  pub empty_name_leaks :
      (self cb self' cb' : Pointer) (c : ℕ) (cs : CString) (w : W)
      → self ≢ 0
      → cb ≢ 0
      → self' ≢ 0
      → cb' ≢ 0
      → self ≢ self'
      → length (c ∷ cs) < 65
      → let (_, m, w') = subscribe system init [] self cb w in
        let (e, m', _) = subscribe system m (c ∷ cs) self' cb' w' in
        (e ≡ none) × (lookup (c ∷ cs) self m'.subjects ≡ some cb)
  empty_name_leaks self cb self' cb' c cs w s b s' n d short =
      rw (first_step self cb w s b) (second_step self cb self' cb' c cs w s s' n d short)
