-- ===== src/Debouncer/Pulses.antt =====
-- When the filter of dtdebouncer.c accepts a state.
use dtmc_base.Common.{
  ◌∙◌, ap, add32, ℕ, ◌≡◌, ◌<◌, refl, List, [], ◌∷◌, ◌++◌, some, Bool, true, false, not, ◌&&◌, arith,
  leb, sub32, if◌then◌else◌,
}
use dtmc_base.Debouncer.{Debouncer, update, sample, accept, differs}
use dtmc_base.Debouncer.Reports.{update-read_clock, Recorder, read_clock, run}

-- Samples that all show `b`, each less than the debounce time after `start` (on the clock that
-- wraps around).
abbrev pub AllWithin : Bool → ℕ → ℕ → List (ℕ × Bool) → Type 0
AllWithin b start debounce [] = Unit
AllWithin b start debounce ((t, raw) ∷ rest) =
    (raw ≡ b) × (sub32 t start < debounce) × AllWithin b start debounce rest

differs_self : (b : Bool) → differs b b ≡ false
differs_self true = refl
differs_self false = refl

and_false : (b : Bool) → (b && false) ≡ false
and_false true = refl
and_false false = refl

run_waiting :
    (d : Debouncer Recorder) (w : Recorder) (pulse : List (ℕ × Bool))
    → d.time_now_ms ≡ some read_clock
    → AllWithin d.candidate_state d.candidate_time_ms d.debounce_ms pulse
    → (r : Recorder) × (run d pulse w ≡ (d, r)) × (r.reports ≡ w.reports)
unfolding run sample
run_waiting d w [] tf h = (w, refl, refl)
run_waiting d w ((t, raw) ∷ rest) tf (e, short, h) =
    let n : leb d.debounce_ms (sub32 t d.candidate_time_ms) ≡ false = ground arith in
    let (r, er, eq) = run_waiting d (record w { clock = t }) rest tf h in
    (
      r,
      rw
          (
            update-read_clock d (record w { clock = t }) raw tf,
            e,
            differs_self d.candidate_state,
            n,
            and_false (differs d.candidate_state d.stable_state),
          )
          er,
      eq,
    )

run-append :
    (d : Debouncer Recorder) (w : Recorder) (xs ys : List (ℕ × Bool))
    → run d (xs ++ ys) w ≡ (let (d', w') = run d xs w in run d' ys w')
unfolding run
run-append d w [] ys = refl
run-append d w ((t, raw) ∷ rest) ys =
    let (d', w') = update d raw (record w { clock = t }) in run-append d' w' rest ys

sample_stable :
    (d : Debouncer Recorder) (w : Recorder) (raw : Bool) (now : ℕ)
    → (sample d raw now w).0.stable_state ≡ (
        if not (differs raw d.candidate_state) && leb d.debounce_ms (sub32 now d.candidate_time_ms)
        then d.candidate_state
        else d.stable_state)
unfolding sample accept
sample_stable d w raw now = ground arith

-- The filter behind a sample that differs from the candidate: the sample is the candidate now, and was
-- first seen now.
abbrev pub edge_at : ℕ → Bool → Debouncer Recorder → Debouncer Recorder
edge_at t raw d = record d {
  candidate_state = raw;
  candidate_time_ms = t;
  raw_edge_count = add32 d.raw_edge_count 1;
}

-- A raw edge reports nothing.
update-edge_at :
    (d : Debouncer Recorder) (w : Recorder) (raw : Bool)
    → d.time_now_ms ≡ some read_clock
    → differs raw d.candidate_state ≡ true
    → update d raw w ≡ (edge_at w.clock raw d, w)
unfolding sample
update-edge_at d w raw tf e = rw (update-read_clock d w raw tf, e) refl

run-edge_at :
    (d : Debouncer Recorder) (w : Recorder) (t : ℕ) (raw : Bool) (pulse : List (ℕ × Bool))
    → d.time_now_ms ≡ some read_clock
    → differs raw d.candidate_state ≡ true
    → AllWithin raw t d.debounce_ms pulse
    → (r : Recorder) × (run d ((t, raw) ∷ pulse) w ≡ (edge_at t raw d, r)) × (r.reports ≡ w.reports)
unfolding run
run-edge_at d w t raw pulse tf e h =
    let (r, er, same) = run_waiting (edge_at t raw d) (record w { clock = t }) pulse tf h in
    (r, rw (update-edge_at d (record w { clock = t }) raw tf e) er, same)

-- A sample at `t` differs from the candidate, and any samples behind it show the same, each less than
-- the debounce time after `t` on the clock that wraps around. Then nothing is reported during these
-- samples, and the filter is what it was, but for the candidate, the time it was first seen, which is
-- `t`, and the count of raw edges. The next sample, at `now`, decides: the stable state becomes the
-- candidate if that sample shows it too, the debounce time or more after `t`, and else stays what it
-- was before the edge. So a shorter pulse is dropped.
pub debounce :
    (d : Debouncer Recorder) (w : Recorder) (t : ℕ) (b : Bool) (pulse : List (ℕ × Bool)) (now : ℕ)
    (raw : Bool)
    → d.time_now_ms ≡ some read_clock
    → differs b d.candidate_state ≡ true
    → AllWithin b t d.debounce_ms pulse
    → let (d', w') = run d ((t, b) ∷ pulse) w in
      (d' ≡ edge_at t b d)
      × (w'.reports ≡ w.reports)
      × ((run d ((t, b) ∷ pulse ++ (now, raw) ∷ []) w).0.stable_state
          ≡ (if not (differs raw b) && leb d.debounce_ms (sub32 now t) then b else d.stable_state))
unfolding run
debounce d w t b pulse now raw tf e h =
    let (r, er, same) = run-edge_at d w t b pulse tf e h in
    (
      ap (λ x. x.0) er,
      ap (λ x. x.1.reports) er ∙ same,
      rw
          (
            run-append d w ((t, b) ∷ pulse) ((now, raw) ∷ []),
            er,
            update-read_clock (edge_at t b d) (record r { clock = now }) raw tf,
          )
          (sample_stable (edge_at t b d) (record r { clock = now }) raw now),
    )
