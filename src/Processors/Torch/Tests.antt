-- ===== src/Processors/Torch/Tests.antt =====
-- htdemucs.py, convtasnet_lyrics.py, mdx23c_vocals.py and mdx23c.py: the theorems about inference, at
-- models that return the tensors they are given.
use karaoke_anything.Prelude.{
  ℕ, ◌≡◌, refl, sym, ap, ◌∙◌, subst, true, false, some, List, [], ◌∷◌, length, All, inl, inr,
  if◌then◌else◌, texts_equal, Bool-cases,
}
use karaoke_anything.Prelude.Int.{pos}
use karaoke_anything.Errors.{Result, ok, err, runtime_error, ok-injective}
use karaoke_anything.Kany.{IsWord, KanyPacket, little}
use karaoke_anything.Kany.RoundTrip.{decode-IsPacket}
use karaoke_anything.Fixtures.{
  stereo_payload, stereo_packet, stereo-IsByte, stereo_decodes, toy_host,
}
use karaoke_anything.Registry.{ConvTasNetLyricsConfig}
use karaoke_anything.Processors.Torch.Toy.{Toy, toy_torch, toy_torch-Shapes, toy_torch-Devices}
use karaoke_anything.Processors.Segmented.{Segmented, Job, running, initial, complete}
use karaoke_anything.Processors.Segmented.Invariant.{Inv}
use karaoke_anything.Processors.Segmented.Lengths.{Answered, complete_answers}
use karaoke_anything.Processors.Htdemucs.{htdemucs}
use karaoke_anything.Processors.Htdemucs.Inference
use karaoke_anything.Processors.Htdemucs.Inference.{Separator, Separates, run_inference-length}
use karaoke_anything.Processors.Convtasnet.Inference as Convtasnet
use karaoke_anything.Processors.Convtasnet.Inference.{Model, run_inference_lem}
use karaoke_anything.Processors.Mdx23c.Adapter.{Adapter}
use karaoke_anything.Processors.Mdx23c.Inference as Mdx23c
use karaoke_anything.Processors.Mdx23c.Inference.{run_inference_device}

abbrev samples : List ℕ
samples = 1 ∷ 2 ∷ 3 ∷ 4 ∷ []

abbrev silence : List ℕ
silence = 0 ∷ 0 ∷ 0 ∷ 0 ∷ []

abbrev separator : Separator toy_host (toy_torch false)
separator = record { samplerate = pos 2; separate_tensor = λ t rate. ok (t, some t) }

separator-Separates : Separates toy_host (toy_torch false) separator
separator-Separates waveform mix vocals frames rate h q =
    let same : waveform ≡ mix = cc q in
    let also : waveform ≡ vocals = cc q in
    (frames, ap (λ (t : Toy). t.dims) (sym same) ∙ h, ap (λ (t : Toy). t.dims) (sym also) ∙ h)

loaded-Separates :
    (s : Separator toy_host (toy_torch false))
    → some separator ≡ some s
    → Separates toy_host (toy_torch false) s
loaded-Separates s e =
    let same : separator ≡ s = cc e in
    subst (Separates toy_host (toy_torch false)) same separator-Separates

run_inference-length_example : (length silence ≡ length samples) × All IsWord silence
unfolding Inference.run_inference Inference.reduce_vocals Inference.finalize_output
run_inference-length_example =
    run_inference-length toy_host (toy_torch false) (toy_torch-Shapes false) (some separator) 1000
      samples 2 2 silence loaded-Separates refl refl

-- two sources, from a model on the GPU, which refuses tensors that are not there
abbrev forward : Toy → Result (Convtasnet.Estimates toy_host (toy_torch true))
forward t =
    if texts_equal t.place "cuda"
    then ok (record { ndim = 4; sources = t ∷ t ∷ [] })
    else err (runtime_error "tensors on two devices")

abbrev model : Model toy_host (toy_torch true)
model = record { samplerate = pos 2; forward = forward }

abbrev config : ConvTasNetLyricsConfig ℕ
config = record {
  model_path = "model";
  device = "auto";
  segment_seconds = 1000;
  vocal_reduction = 1000;
  vocal_source_index = pos 0;
  accompaniment_source_index = pos 1;
}

model-Separates : Convtasnet.Separates toy_host (toy_torch true) model
model-Separates waveform frames estimates h q =
    elim (Bool-cases (texts_equal waveform.place "cuda")) [
      | inr elsewhere ↦ cc (rw elsewhere at q)
      | inl there ↦
          let same = ok-injective (rw there at q) in
          subst
            (λ (z : Convtasnet.Estimates toy_host (toy_torch true)).
              All (λ (t : Toy). t.dims ≡ 2 ∷ frames ∷ []) z.sources)
            same (h, (h, tt))
    ]

loaded_model-Separates :
    (m : Model toy_host (toy_torch true))
    → some model ≡ some m
    → Convtasnet.Separates toy_host (toy_torch true) m
loaded_model-Separates m e =
    let same : model ≡ m = cc e in
    subst (Convtasnet.Separates toy_host (toy_torch true)) same model-Separates

run_inference_lem_example : (length silence ≡ length samples) × All IsWord silence
unfolding Convtasnet.run_inference Convtasnet.prepare_waveform Convtasnet.separate_accompaniment
    Inference.finalize_output
run_inference_lem_example =
    run_inference_lem toy_host (toy_torch true) (toy_torch-Shapes true) (some model) (pos 2) "cuda"
      config samples 2 2 silence loaded_model-Separates refl refl

-- a segment of one packet
abbrev job : Job
job = record { packets = stereo_packet ∷ []; samples = stereo_packet.samples.items; frames = 1 }

abbrev separating : Segmented ℕ
separating = record initial {
  active_packets = stereo_packet ∷ [];
  inference_task = some (running job);
  stream_sample_rate = some 2;
  stream_channels = some 2;
}

separating-Inv : Inv little separating
unfolding initial
separating-Inv = record {
  counted = refl;
  inputs = tt;
  actives = (
    (decode-IsPacket little stereo_payload stereo_packet stereo-IsByte (stereo_decodes little)).0,
    tt,
  );
  outputs = tt;
  task = (refl, refl, refl, λ e. cc e);
}

abbrev separates : List ℕ → ℕ → ℕ → Result (List ℕ)
separates = Inference.run_inference toy_host (toy_torch false) (some separator) 1000

complete_answers_example :
    (p : KanyPacket) × (rest : List KanyPacket) × (separating.active_packets ≡ p ∷ rest)
    × Answered toy_host
        (htdemucs little)
        1000
        separates
        1
        p
        separating
        (complete toy_host separates 1 separating)
unfolding initial
complete_answers_example =
    complete_answers toy_host (htdemucs little) 1000 separates 1 job separating
      (λ xs rate frames ws h e.
        (run_inference-length toy_host (toy_torch false) (toy_torch-Shapes false) (some separator)
          1000 xs rate frames ws loaded-Separates h e).0)
      separating-Inv (refl, tt) refl

abbrev adapter : Adapter toy_host (toy_torch true)
adapter = record {
  sample_rate = pos 2;
  stems = "vocals" ∷ "instrumental" ∷ [];
  device = "cuda";
  model = λ t. ok t;
}

run_inference_device_example : ¬ (
    Mdx23c.run_inference toy_host (toy_torch true) (λ name. name) (some adapter) 1000 samples 2 2
    ≡ ok silence)
run_inference_device_example =
    run_inference_device toy_host (toy_torch true) (toy_torch-Devices true) (λ name. name) adapter
      1000 samples 2 2 silence (λ t u e. ap (λ (z : Toy). z.place) (sym (ok-injective e)))
      (λ e. cc e)
