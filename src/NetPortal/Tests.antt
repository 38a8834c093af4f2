-- ===== src/NetPortal/Tests.antt =====
-- Portals at concrete inputs.
use dtmc_base.Common.{
  ◌++◌, drop, take, ℕ, ◌≡◌, refl, List, [], ◌∷◌, none, some, true, false, arith, replicate,
}
use dtmc_base.Framer.Config as FramerConfiguration
use dtmc_base.Framer.RoundTrip.{frames}
use dtmc_base.IoxDummy.{IoxDummy}
use dtmc_base.IoxDummy.Tests.{queue, looped}
use dtmc_base.NetPortal.{NetportalIox, Runtime}
use dtmc_base.NetPortal.Stream.{rx_drain, write_loop, validate_priority_enum}
use dtmc_base.IoxDummy.Device.{attach, enable, set_rx_semaphore}
use dtmc_base.NetPortal.Life.{zeroed, configure, activate, start_rx_tasker, start_device}
use dtmc_base.NetPortal.Publishing.{publish_all, rx_drain-publish_all}
use dtmc_base.NetPortal.Writing.{Sends, write_loop-Sends}
use dtmc_base.NetPortal.Echo.{IsOpen, EndsWith, session, session-publish_all}
use dtmc_base.NetPortal.Opening.{configured, configure-IsOpen}
use dtmc_base.NetPortal.Double.{double}
use dtmc_base.NetPortal.Task.{
  Wake, task_loop, TaskReported, rx_tasker_entry_point, rx_tasker_entry_point-Reported,
}
use dtmc_base.NetPortal.Bursts.{Burst, burst_wakes, TaskIs, task_loop-publish_all}
use dtmc_base.NetPortal.Shm
use dtmc_base.NetPortal.Alike.{shm_session, Alike, session-shm_session}
use dtmc_base.NetPortal.Samples.{
  World, recording, router, config, platform, platform-SizedBlocks, framer, framer-IsReady, Queue,
  portal, laws, portal-IsOpen, messages, first-Fits, second-Fits,
}

session-publish_all_example :
    EndsWith
      (double queue)
      laws
      recording
      platform
      (publish_all recording messages router [])
      (session (double queue) platform 40 portal messages [])
session-publish_all_example =
    session-publish_all (double queue) laws recording platform 40 portal portal-IsOpen messages []
      (first-Fits, omega arith, (second-Fits, omega arith, tt)) (λ bytes. refl) (omega arith)
      (omega arith)

abbrev shm_portal : Shm.NetportalShm
shm_portal = record Shm.zeroed { manifold = router }

session-shm_session_example :
    Alike recording {I = IoxDummy Queue}
      (shm_session recording shm_portal messages [])
      (session (double queue) platform 40 portal messages [])
session-shm_session_example =
    session-shm_session recording (double queue) laws platform 40 portal portal-IsOpen shm_portal
      messages [] (first-Fits, omega arith, (second-Fits, omega arith, tt)) (λ bytes. refl)
      (omega arith) (omega arith) refl

-- The frames of the messages wait.
abbrev waiting : IoxDummy Queue
waiting = record looped { rx_fifo = (frames 1 messages, 100) }

rx_drain-publish_all_example :
    let (e, m, w') = publish_all recording messages router [] in
    (self' : NetportalIox (IoxDummy Queue) World) × (rx_drain
        (double queue)
        platform
        40
        (record portal { iox_handle = some waiting })
        []
      ≡ some (e, self', w'))
    × (self'.manifold ≡ m)
rx_drain-publish_all_example =
    rx_drain-publish_all recording (double queue) laws platform 40
      (record portal { iox_handle = some waiting }) waiting framer messages [] refl refl refl
      (refl, omega arith) framer-IsReady (first-Fits, (second-Fits, tt)) (λ bytes. refl) refl
      (omega arith) (omega arith)

write_loop-Sends_example :
    Sends
      (double queue)
      laws
      looped
      (1 ∷ 2 ∷ 3 ∷ [])
      3
      (write_loop (double queue) 3 looped (1 ∷ 2 ∷ 3 ∷ []) 3)
write_loop-Sends_example =
    write_loop-Sends (double queue) laws 3 looped (1 ∷ 2 ∷ 3 ∷ []) 3 (refl, omega arith)
      (omega arith) (omega arith) (omega arith) (omega arith) (omega arith)

-- Everything succeeds, and handles are 7.
abbrev runtime : Runtime World
runtime = record {
  malloc = λ w. (true, w);
  set_portal_vtable = λ n. none;
  set_object_vtable = λ n. none;
  semaphore_create = λ w. (none, 7, w);
  semaphore_post = λ h w. w;
  semaphore_dispose = λ h w. w;
  new_buffer = λ n w. (none, replicate n 0, w);
  dispose_buffer = λ w. w;
  tasker_create = λ p w. (none, 7, w);
  tasker_set_entry_point = λ h w. (none, w);
  tasker_start = λ h w. (none, w);
  tasker_ready = λ w. (none, w);
  tasker_is_running = λ h w. false;
  sleep = λ n w. w;
}

abbrev fresh : NetportalIox (IoxDummy Queue) World
fresh = record zeroed { encoded_buffer = replicate 32 0 }

configured_ok :
    (configured
      (double queue)
      laws
      runtime
      recording
      platform
      fresh
      looped
      FramerConfiguration.zeroed
      config
      0
      0).0
    ≡ none
unfolding configure validate_priority_enum
configured_ok = refl

activated_ok :
    (activate
      (double queue)
      runtime
      recording
      (configured
        (double queue)
        laws
        runtime
        recording
        platform
        fresh
        looped
        FramerConfiguration.zeroed
        config
        0
        0).1
      []).0
    ≡ none
unfolding activate configure validate_priority_enum start_rx_tasker start_device
    FramerConfiguration.configure FramerConfiguration.apply_defaults
    FramerConfiguration.set_message_callback attach enable set_rx_semaphore
activated_ok = refl

configure-IsOpen_example :
    IsOpen
      (double queue)
      laws
      recording
      (activate
        (double queue)
        runtime
        recording
        (configured
          (double queue)
          laws
          runtime
          recording
          platform
          fresh
          looped
          FramerConfiguration.zeroed
          config
          0
          0).1
        []).1
configure-IsOpen_example =
    configure-IsOpen (double queue) laws runtime recording platform fresh looped
      FramerConfiguration.zeroed config 0 0 [] platform-SizedBlocks refl (omega arith) (omega arith)
      (unfold FramerConfiguration.configure in unfold FramerConfiguration.apply_defaults in refl)
      ((refl, omega arith), refl) (omega arith) configured_ok activated_ok

-- The first wake brings bytes that are no frame, the second asks the task to stop.
abbrev wakes : List (Wake (IoxDummy Queue) World)
wakes =
    record { result = none; meanwhile = λ self w. (self, w) }
    ∷ record {
      result = none;
      meanwhile = λ self w. (record self { should_rx_thread_stop = true }, w);
    }
    ∷ []

rx_tasker_entry_point-Reported_example :
    TaskReported
      (double queue)
      platform
      40
      (runtime.tasker_ready [])
      wakes
      portal
      (rx_tasker_entry_point (double queue) platform 40 runtime wakes portal [])
rx_tasker_entry_point-Reported_example =
    rx_tasker_entry_point-Reported (double queue) platform 40 runtime wakes portal []

-- Bytes that come into the double's input from elsewhere.
abbrev burst : List ℕ → Burst (double queue) laws
burst bytes = record {
  bytes = bytes;
  arrive = λ self. record self { rx_fifo = (self.rx_fifo.0 ++ bytes, self.rx_fifo.1) };
  arrive-Ready = λ self r. (r, refl);
}

-- The first burst ends inside the first frame.
abbrev bursts : List (Burst (double queue) laws)
bursts = burst (take 5 (frames 1 messages)) ∷ burst (drop 5 (frames 1 messages)) ∷ []

task_loop-publish_all_example :
    TaskIs
      (double queue)
      laws
      (publish_all recording messages router [])
      (task_loop (double queue) platform 40 (burst_wakes (double queue) laws bursts) portal [])
task_loop-publish_all_example =
    task_loop-publish_all (double queue) laws recording platform 40 bursts portal portal-IsOpen
      messages [] refl refl (first-Fits, (second-Fits, tt)) (λ bytes. refl) refl (omega arith)
      (omega arith)
