-- ===== src/Service/LibraryTests.antt =====
-- app/audio_trombone/service.py with the processors of the registry: the theorems at a small host.
use karaoke_anything.Prelude.{ℕ, refl, inl, true, false, none, some, List, [], ◌∷◌, All, arith}
use karaoke_anything.Prelude.Int.{pos}
use karaoke_anything.Errors.{ok, err, runtime_error}
use karaoke_anything.Fixtures.{toy_host, stereo_payload, stereo-IsByte}
use karaoke_anything.Kany.{IsByte, IsWord}
use karaoke_anything.Models.{MediaPacket}
use karaoke_anything.Registry.{ProcessorConfig, passthrough, mdx23c_vocals, mdx23c_config}
use karaoke_anything.Processors.Torch.Toy.{toy_torch, toy_torch-Shapes}
use karaoke_anything.Processors.Htdemucs.Inference.{Separator}
use karaoke_anything.Service.Settings.{demucs_vocal_reduction}
use karaoke_anything.Service.History.{arrives, works, starts, selects, updates}
use karaoke_anything.Service.Runs
use karaoke_anything.Service.Runs.{Happening, operation, task_ends, run-Holds}
use karaoke_anything.Service.Fixtures.{defaults, no_metrics, sends}
use karaoke_anything.Service.State.{AudioProcessor, TromboneService, absent}
use karaoke_anything.Service.Library.{Memory, stateless, Loaders, library}
use karaoke_anything.Service.Forwards.{waiting_for, next_turn, Passed, turn_passes}
use karaoke_anything.Service.Holds.{Holds, Kept, library-Holds}

abbrev separator : Separator toy_host (toy_torch false)
separator = record { samplerate = pos 2; separate_tensor = λ t rate. ok (t, some t) }

-- only Demucs can be loaded
abbrev loaders : Loaders toy_host (toy_torch false)
loaders = record {
  demucs_installed = true;
  load_separator = λ config device. ok separator;
  tasnet_installed = false;
  load_model = λ config device. err (runtime_error "no model");
  load_adapter = λ config. err (runtime_error "no model");
  warm_up = λ adapter frames. ok tt;
  to_float = λ z. 1000;
}

abbrev service : TromboneService ℕ (Memory toy_host (toy_torch false))
service = record {
  startup_settings = defaults;
  settings = defaults;
  metrics = no_metrics;
  input_queue = record { maxsize = pos 512; items = [] };
  registry_settings = defaults;
  processor = passthrough;
  memory = stateless;
  transport = none;
  worker_task = absent;
  running = true;
}

turn_passes_example :
    Passed toy_host
      (toy_torch false)
      loaders
      sends
      stereo_payload
      "sender"
      5006
      1
      (waiting_for toy_host
        (toy_torch false)
        loaders
        sends
        stereo_payload
        "sender"
        5006
        1
        passthrough
        (pos 65535)
        service)
      (next_turn toy_host (toy_torch false) loaders sends stereo_payload "sender" 5006 1 (
        waiting_for toy_host
          (toy_torch false)
          loaders
          sends
          stereo_payload
          "sender"
          5006
          1
          passthrough
          (pos 65535)
          service))
turn_passes_example =
    turn_passes toy_host (toy_torch false) loaders sends stereo_payload "sender" 5006 1 passthrough
      (pos 65535) service (inl refl) refl refl

stored : (x : ℕ) → IsWord (toy_host.store x)
stored x = omega arith

abbrev windowed_vocals : ProcessorConfig ℕ
windowed_vocals = mdx23c_vocals (mdx23c_config toy_host defaults)

abbrev audio : AudioProcessor ℕ (Memory toy_host (toy_torch false))
audio = library toy_host (toy_torch false) loaders

abbrev AreHeld : Memory toy_host (toy_torch false) → Type 0
AreHeld memory = Holds toy_host (toy_torch false) loaders windowed_vocals memory

library-Holds_example :
    AreHeld (audio.init windowed_vocals)
    × ((memory : Memory toy_host (toy_torch false))
        → AreHeld memory
        → AreHeld (audio.start windowed_vocals memory).1
          × AreHeld (audio.stop windowed_vocals memory).1
          × AreHeld (audio.reset windowed_vocals memory).1
          × Kept toy_host
              (toy_torch false)
              loaders
              windowed_vocals
              (audio.flush windowed_vocals memory)
          × ((packet : MediaPacket ℕ)
              → All IsByte packet.payload
              → Kept toy_host
                  (toy_torch false)
                  loaders
                  windowed_vocals
                  (audio.process windowed_vocals packet memory)))
library-Holds_example = library-Holds toy_host (toy_torch false) loaders stored windowed_vocals

abbrev idle : TromboneService ℕ (Memory toy_host (toy_torch false))
idle = record service { running = false }

-- Demucs is selected; a datagram arrives and is handled while the worker runs; the task ends, and the
-- settings change
abbrev happenings : List (Happening ℕ)
happenings =
    operation (starts (ok tt))
    ∷ operation (selects sends "htdemucs-vocals")
    ∷ operation (arrives stereo_payload "sender" 5006 1)
    ∷ operation (works sends)
    ∷ task_ends 1
    ∷ operation (updates sends (demucs_vocal_reduction 500 ∷ []))
    ∷ operation (works sends)
    ∷ []

abbrev after_run : TromboneService ℕ (Memory toy_host (toy_torch false))
after_run = Runs.run toy_host (toy_torch false) loaders (λ name. name) happenings idle

run-Holds_example : Holds toy_host (toy_torch false) loaders after_run.processor after_run.memory
run-Holds_example =
    run-Holds toy_host (toy_torch false) loaders (λ name. name) stored
      (toy_torch-Shapes false).interleave_words happenings idle
      (tt, (tt, (stereo-IsByte, (tt, (tt, (tt, (tt, tt))))))) (tt, tt)
