-- ===== src/Debouncer/Tests.antt =====
-- The debounce filter at concrete inputs: ten milliseconds, and a pulse over the clock's wrap-around.
use dtmc_base.Common.{◌≡◌, refl, [], ◌∷◌, some, true, false, arith}
use dtmc_base.Debouncer.{Debouncer, init}
use dtmc_base.Debouncer.Reports.{Recorder, read_clock, report, run, IsFaithful, run-init-IsFaithful}
use dtmc_base.Debouncer.Pulses.{debounce}

abbrev waiting : Debouncer Recorder
waiting = record {
  stable_state = false;
  candidate_state = true;
  candidate_time_ms = 4294967290;
  debounce_ms = 10;
  callback_fn = some report;
  callback_context = 0;
  time_now_ms = some read_clock;
  raw_edge_count = 1;
  debounced_edge_count = 0;
  rise_count = 0;
  fall_count = 0;
}

abbrev idle : Debouncer Recorder
idle = record waiting { candidate_state = false; candidate_time_ms = 0; raw_edge_count = 0 }

abbrev start : Recorder
start = record { clock = 4294967290; reports = [] }

-- An edge just before the clock wraps around, and the state accepted fourteen milliseconds later.
debounce_example :
    let (d, w) = run idle ((4294967290, true) ∷ (4294967295, true) ∷ (2, true) ∷ []) start in
    (d ≡ waiting)
    × (w.reports ≡ [])
    × ((run idle
          ((4294967290, true) ∷ (4294967295, true) ∷ (2, true) ∷ (8, true) ∷ [])
          start).0.stable_state
        ≡ true)
debounce_example =
    debounce idle start 4294967290 true ((4294967295, true) ∷ (2, true) ∷ []) 8 true refl refl
      (refl, omega arith, (refl, omega arith, tt))

run-init-IsFaithful_example :
    let (_, d, w') = init waiting false 10 (some report) 0 (some read_clock) start in
    let (d', w'') = run d ((4294967291, true) ∷ (5, true) ∷ []) w' in IsFaithful false d' w''
run-init-IsFaithful_example =
    run-init-IsFaithful waiting false 10 0 ((4294967291, true) ∷ (5, true) ∷ []) 4294967290
