-- ===== src/Debouncer/Reports.antt =====
-- What the filter of dtdebouncer.c tells its callback and its counters, over any run of samples.
use dtmc_base.Common.{
  ℕ, ◌+◌, ◌%◌, ◌≡◌, refl, List, [], ◌∷◌, some, Bool, true, false, not, ◌&&◌, arith, inl, inr,
  Bool-cases, leb, add32, sub32, u32_mod, length, if◌then◌else◌,
}
use dtmc_base.Debouncer.{Debouncer, init, update, sample, accept, notify, differs}

-- A world with a clock and the states that the callback was given, the newest first.
pub record Recorder : Type 0 where
  pub clock : ℕ
  pub reports : List Bool

abbrev pub read_clock : Recorder → ℕ × Recorder
read_clock w = (w.clock, w)

abbrev pub report : Bool → ℕ → Recorder → Recorder
report new_state context w = record w { reports = new_state ∷ w.reports }

-- An update for each sample, at the sample's time.
unfoldable pub run : Debouncer Recorder → List (ℕ × Bool) → Recorder → Debouncer Recorder × Recorder
run d [] w = (d, w)
run d ((t, raw) ∷ rest) w = let (d', w') = update d raw (record w { clock = t }) in run d' rest w'

-- The reports alternate, from the opposite of the first state to the present state.
abbrev pub Alternates : Bool → List Bool → Bool → Type 0
Alternates first [] now = now ≡ first
Alternates first (b ∷ bs) now = (now ≡ b) × Alternates first bs (not b)

-- The number of reports of a state.
unfoldable pub count : Bool → List Bool → ℕ
count b [] = 0
count b (x ∷ xs) = (if differs x b then 0 else 1) + count b xs

abbrev pub IsFaithful : Bool → Debouncer Recorder → Recorder → Type 0
IsFaithful first d w =
    (d.callback_fn ≡ some report)
    × (d.time_now_ms ≡ some read_clock)
    × Alternates first w.reports d.stable_state
    × (d.debounced_edge_count ≡ length w.reports % u32_mod)
    × (d.rise_count ≡ count true w.reports % u32_mod)
    × (d.fall_count ≡ count false w.reports % u32_mod)

not-differs : (a b : Bool) → differs a b ≡ true → not a ≡ b
not-differs true false h = refl
not-differs false true h = refl
not-differs true true h = absurd (ground arith)
not-differs false false h = absurd (ground arith)

-- At a change of the state one of the two counters of edges goes on.
rise_step :
    (old new : Bool) (rise n : ℕ)
    → differs new old ≡ true
    → rise ≡ n % u32_mod
    → (if not old && new then add32 rise 1 else rise)
      ≡ ((if differs new true then 0 else 1) + n) % u32_mod
rise_step true false rise n h e = omega arith
rise_step false true rise n h e = omega arith
rise_step true true rise n h e = absurd (ground arith)
rise_step false false rise n h e = absurd (ground arith)

fall_step :
    (old new : Bool) (fall n : ℕ)
    → differs new old ≡ true
    → fall ≡ n % u32_mod
    → (if not old && new then fall else if old && not new then add32 fall 1 else fall)
      ≡ ((if differs new false then 0 else 1) + n) % u32_mod
fall_step true false fall n h e = omega arith
fall_step false true fall n h e = omega arith
fall_step true true fall n h e = absurd (ground arith)
fall_step false false fall n h e = absurd (ground arith)

pub update-read_clock :
    (d : Debouncer Recorder) (w : Recorder) (raw : Bool)
    → d.time_now_ms ≡ some read_clock
    → update d raw w ≡ sample d raw w.clock w
unfolding update
update-read_clock d w raw t = rw t refl

module _ (first : Bool) where
  -- A sample that becomes a change: counters and reports take the new state.
  accept-IsFaithful :
      (d : Debouncer Recorder) (w : Recorder)
      → differs d.candidate_state d.stable_state ≡ true
      → IsFaithful first d w
      → IsFaithful first (accept d) (notify (accept d) w)
  unfolding accept notify count
  accept-IsFaithful d w change (c, t, a, n, r, f) = rw c (
    refl,
    t,
    (refl, rw (not-differs d.candidate_state d.stable_state change) a),
    omega arith,
    rise_step d.stable_state d.candidate_state d.rise_count _ change r,
    fall_step d.stable_state d.candidate_state d.fall_count _ change f,
  )

  sample-IsFaithful :
      (d : Debouncer Recorder) (w : Recorder) (raw : Bool) (now : ℕ)
      → IsFaithful first d w
      → let (d', w') = sample d raw now w in IsFaithful first d' w'
  unfolding sample
  sample-IsFaithful d w raw now h = elim (Bool-cases (differs raw d.candidate_state)) [
    | inl edge ↦ rw edge h
    | inr same ↦
        rw same
          (elim (Bool-cases (
            differs d.candidate_state d.stable_state
            && leb d.debounce_ms (sub32 now d.candidate_time_ms))) [
              | inl held ↦ rw held (accept-IsFaithful d w (ground arith) h)
              | inr short ↦ rw short h
            ])
  ]

  run-IsFaithful :
      (d : Debouncer Recorder) (w : Recorder) (samples : List (ℕ × Bool))
      → IsFaithful first d w
      → let (d', w') = run d samples w in IsFaithful first d' w'
  unfolding run
  run-IsFaithful d w [] h = h
  run-IsFaithful d w ((t, raw) ∷ rest) h =
      let at : Recorder = record w { clock = t } in
      rw (run, update-read_clock d at raw h.1)
        (run-IsFaithful (sample d raw t at).0 (sample d raw t at).1 rest
          (sample-IsFaithful d at raw t h))

-- From `init` on, over any run of samples: the states given to the callback alternate, from the
-- opposite of the initial state to the stable state of the filter, and the counters of accepted,
-- rising and falling edges are the numbers of reports, of `true` and of `false`, modulo 2 ^ 32.
pub run-init-IsFaithful :
    (self : Debouncer Recorder) (initial : Bool) (debounce context : ℕ) (samples : List (ℕ × Bool))
    (clock : ℕ)
    → let w : Recorder = record { clock = clock; reports = [] } in
      let (_, d, w') = init self initial debounce (some report) context (some read_clock) w in
      let (d', w'') = run d samples w' in IsFaithful initial d' w''
unfolding init
run-init-IsFaithful self initial debounce context samples clock =
    let w : Recorder = record { clock = clock; reports = [] } in
    let made = init self initial debounce (some report) context (some read_clock) w in
    run-IsFaithful initial made.1 made.2 samples
      (refl, refl, refl, refl, unfold count in refl, unfold count in refl)
