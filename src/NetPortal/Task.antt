-- ===== src/NetPortal/Task.antt =====
-- The task of dtnetportal_iox.c that waits for bytes: `_rx_tasker_entry_point`.
use dtmc_base.Common.{
  ℕ, ◌≡◌, refl, List, [], ◌∷◌, none, some, Dterr, ErrorCode, fail, true, false, Bool-cases,
  Option-cases, inl, inr, ◌⊎◌, sym, subst, ◌++◌, ◌∙◌, ap,
}
use dtmc_base.Framer.{Platform}
use dtmc_base.NetPortal.{Iox, NetportalIox, Runtime}
use dtmc_base.NetPortal.Stream.{rx_drain, get_info}

-- One return of `dtsemaphore_wait`: its result, and what others did to the portal, its device and the
-- world before it, as the bytes that arrived.
pub record Wake (I W : Type 0) : Type 0 where
  pub result : Dterr
  pub meanwhile : NetportalIox I W → W → NetportalIox I W × W

-- Where the task is behind the wakes so far: it waits again, or it returned.
pub data TaskState (I W : Type 0) : Type 0 where
  waits : NetportalIox I W → W → TaskState I W
  returned : Dterr → NetportalIox I W → W → TaskState I W
  no_fuel : TaskState I W

module _ {I W : Type 0} (iox : Iox I) (platform : Platform) (fuel : ℕ) where
  -- The cleanup of an error: it is kept for the portal's info, and another one is returned.
  abbrev returned_error : ErrorCode → NetportalIox I W → W → TaskState I W
  returned_error c self w = returned (some fail) (record self { internal_task_dterr = some c }) w

  -- The `while` loop, over the wakes that come.
  unfoldable pub task_loop : List (Wake I W) → NetportalIox I W → W → TaskState I W
  task_loop [] self w = waits self w
  task_loop (wake ∷ wakes) self w =
      let (self', w') = wake.meanwhile self w in
      elim wake.result [
        | some c ↦ returned_error c self' w'
        | none ↦ elim self'.should_rx_thread_stop [
          | true ↦ returned none self' w'
          | false ↦ elim (rx_drain iox platform fuel self' w') [
            | none ↦ no_fuel
            | some (e, s, w'') ↦ elim e [
              | some c ↦ returned_error c s w''
              | none ↦ task_loop wakes s w''
            ]
          ]
        ]
      ]

  unfoldable pub rx_tasker_entry_point :
      Runtime W → List (Wake I W) → NetportalIox I W → W → TaskState I W
  rx_tasker_entry_point runtime wakes self w =
      let (e, w') = runtime.tasker_ready w in
      elim e [ some c ↦ returned_error c self w' | none ↦ task_loop wakes self w' ]

  -- The wakes that the task got through: each wait and each drain without an error, and no request to
  -- stop. The portal and the world before and behind them.
  pub data Drained : List (Wake I W) → NetportalIox I W → W → NetportalIox I W → W → Type 0 where
    no_wakes : (self : NetportalIox I W) (w : W) → Drained [] self w self w
    got_through :
        (wake : Wake I W) (wakes : List (Wake I W)) (self s self' : NetportalIox I W) (w v w' : W)
        → wake.result ≡ none
        → (wake.meanwhile self w).0.should_rx_thread_stop ≡ false
        → rx_drain iox platform fuel (wake.meanwhile self w).0 (wake.meanwhile self w).1
          ≡ some (none, s, v)
        → Drained wakes s v self' w'
        → Drained (wake ∷ wakes) self w self' w'

  -- Of the wakes, the first that the task did not get through, with the portal and the world before it.
  abbrev pub FirstStuck :
      (Wake I W → NetportalIox I W → W → Type 0) → List (Wake I W) → NetportalIox I W → W → Type 0
  FirstStuck Stuck wakes self w =
      (before : List (Wake I W)) × (wake : Wake I W) × (after : List (Wake I W)) × (s : NetportalIox
        I W)
      × (v : W) × (wakes ≡ before ++ wake ∷ after)
      × Drained before self w s v
      × Stuck wake s v

  -- The wait of this wake, or the drain that follows it, gives the error `c`.
  abbrev pub Fails : ErrorCode → Wake I W → NetportalIox I W → W → Type 0
  Fails c wake self w =
      let (self', w') = wake.meanwhile self w in
      (wake.result ≡ some c)
      ⊎ ((wake.result ≡ none)
          × (self'.should_rx_thread_stop ≡ false)
          × ((s : NetportalIox I W) × (v : W) × (rx_drain iox platform fuel self' w'
                ≡ some (some c, s, v))))

  -- The task is asked to stop before this wake, which comes without an error.
  abbrev pub Stops : NetportalIox I W → W → Wake I W → NetportalIox I W → W → Type 0
  Stops last v wake self w =
      (wake.result ≡ none)
      × (wake.meanwhile self w ≡ (last, v))
      × (last.should_rx_thread_stop ≡ true)

  -- The drain of this wake runs out of the model's fuel.
  abbrev pub RunsOut : Wake I W → NetportalIox I W → W → Type 0
  RunsOut wake self w =
      rx_drain iox platform fuel (wake.meanwhile self w).0 (wake.meanwhile self w).1 ≡ none

  -- What the state of the loop tells of the wakes: it waits if all of them were drained; it returned
  -- without an error at the first one if that was a request to stop, and with `DTERR_FAIL` if the
  -- first one failed, with the error that the portal's info shows.
  abbrev pub Reported : List (Wake I W) → NetportalIox I W → W → TaskState I W → Type 0
  Reported wakes self w no_fuel = FirstStuck RunsOut wakes self w
  Reported wakes self w (waits last v) = Drained wakes self w last v
  Reported wakes self w (returned none last v) = FirstStuck (Stops last v) wakes self w
  Reported wakes self w (returned (some e) last v) =
      (e ≡ fail)
      × (c : ErrorCode) × ((get_info last).task_dterr ≡ some c)
      × FirstStuck (Fails c) wakes self w

  -- A wake that the task got through, in front of what the others tell.
  module _ (wake : Wake I W) (wakes : List (Wake I W)) (self s : NetportalIox I W) (w v : W)
      (good : wake.result ≡ none)
      (goes_on : (wake.meanwhile self w).0.should_rx_thread_stop ≡ false)
      (done : rx_drain iox platform fuel (wake.meanwhile self w).0 (wake.meanwhile self w).1
        ≡ some (none, s, v)) where
    FirstStuck-later :
        (Stuck : Wake I W → NetportalIox I W → W → Type 0)
        → FirstStuck Stuck wakes s v
        → FirstStuck Stuck (wake ∷ wakes) self w
    FirstStuck-later Stuck (before, here, after, last, last_w, e, d, stuck) = (
      wake ∷ before,
      here,
      after,
      last,
      last_w,
      ap (λ rest. wake ∷ rest) e,
      got_through wake before self s last w v last_w good goes_on done d,
      stuck,
    )

    Reported-later :
        (state : TaskState I W) → Reported wakes s v state → Reported (wake ∷ wakes) self w state
    Reported-later no_fuel h = FirstStuck-later RunsOut h
    Reported-later (waits last u) h = got_through wake wakes self s last w v u good goes_on done h
    Reported-later (returned none last u) h = FirstStuck-later (Stops last u) h
    Reported-later (returned (some e) last u) (f, c, info, h) =
        (f, c, info, FirstStuck-later (Fails c) h)

  -- The first wake is one that the task does not get through.
  FirstStuck-now :
      (Stuck : Wake I W → NetportalIox I W → W → Type 0) (wake : Wake I W) (wakes : List (Wake I W))
      (self : NetportalIox I W) (w : W)
      → Stuck wake self w
      → FirstStuck Stuck (wake ∷ wakes) self w
  FirstStuck-now Stuck wake wakes self w stuck =
      ([], wake, wakes, self, w, refl, no_wakes self w, stuck)

  Reported-state :
      (wakes : List (Wake I W)) (self : NetportalIox I W) (w : W) (state : TaskState I W)
      → task_loop wakes self w ≡ state
      → Reported wakes self w state
      → Reported wakes self w (task_loop wakes self w)
  Reported-state wakes self w state e h = subst (Reported wakes self w) (sym e) h

  task_loop-Reported :
      (wakes : List (Wake I W)) (self : NetportalIox I W) (w : W)
      → Reported wakes self w (task_loop wakes self w)
  unfolding task_loop get_info
  task_loop-Reported [] self w = no_wakes self w
  task_loop-Reported (wake ∷ wakes) self w =
      let (self', w') = wake.meanwhile self w in
      let now = λ (Stuck : Wake I W → NetportalIox I W → W → Type 0).
        FirstStuck-now Stuck wake wakes self w in
      elim (Option-cases wake.result) [
        | inr (c, bad) ↦
            Reported-state (wake ∷ wakes) self w (returned_error c self' w')
              (rw (task_loop, bad) refl) (refl, c, refl, now (Fails c) (inl bad))
        | inl good ↦ elim (Bool-cases self'.should_rx_thread_stop) [
          | inl stops ↦
              Reported-state (wake ∷ wakes) self w (returned none self' w')
                (simp (task_loop, good, stops)) (now (Stops self' w') (good, refl, stops))
          | inr goes_on ↦ elim (Option-cases (rx_drain iox platform fuel self' w')) [
            | inl out ↦
                Reported-state (wake ∷ wakes) self w no_fuel
                  (rw (task_loop, good, goes_on, out) refl) (now RunsOut out)
            | inr (r, done) ↦ elim (Option-cases r.0) [
              | inr (c, bad) ↦
                  Reported-state (wake ∷ wakes) self w (returned_error c r.1 r.2)
                    (rw (task_loop, good, goes_on, done, bad) refl)
                    (
                      refl,
                      c,
                      refl,
                      now (Fails c) (
                          inr (good, goes_on, (r.1, r.2, done ∙ ap (λ e. some (e, r.1, r.2)) bad))),
                    )
              | inl fine ↦
                  Reported-state (wake ∷ wakes) self w (task_loop wakes r.1 r.2)
                    (rw (task_loop, good, goes_on, done, fine) refl)
                    (Reported-later wake wakes self r.1 w r.2 good goes_on
                      (done ∙ ap (λ e. some (e, r.1, r.2)) fine) (task_loop wakes r.1 r.2)
                      (task_loop-Reported wakes r.1 r.2))
            ]
          ]
        ]
      ]

  -- The task did not get ready, and the error is what its portal's info shows; or it did, and its state
  -- tells of the wakes.
  abbrev pub TaskReported : Dterr × W → List (Wake I W) → NetportalIox I W → TaskState I W → Type 0
  TaskReported (none, w) wakes self state = Reported wakes self w state
  TaskReported (some c, w) wakes self state =
      (last : NetportalIox I W) × (state ≡ returned (some fail) last w)
      × ((get_info last).task_dterr ≡ some c)

  -- However the task is woken up: it waits only if every wake was drained without an error. It
  -- returns without an error only at a request to stop that came with a wake, after the wakes before
  -- were drained. It returns with `DTERR_FAIL` else, and the portal's info shows the error of the
  -- first call that failed: that of getting ready, of a wait, or of a drain, after the wakes before
  -- were drained. The model runs out of fuel only in a drain.
  pub rx_tasker_entry_point-Reported :
      (runtime : Runtime W) (wakes : List (Wake I W)) (self : NetportalIox I W) (w : W)
      → TaskReported
          (runtime.tasker_ready w)
          wakes
          self
          (rx_tasker_entry_point runtime wakes self w)
  unfolding rx_tasker_entry_point get_info
  rx_tasker_entry_point-Reported runtime wakes self w =
      let (e, w') = runtime.tasker_ready w in
      elim (Option-cases e) [
        | inr (c, bad) ↦
            rw (rx_tasker_entry_point, bad)
              (record self { internal_task_dterr = some c }, refl, refl)
        | inl good ↦ rw (rx_tasker_entry_point, good) (task_loop-Reported wakes self w')
      ]
