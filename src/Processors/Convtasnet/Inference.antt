-- ===== src/Processors/Convtasnet/Inference.antt =====
-- convtasnet_lyrics.py: `stop`, the loading of the model and `_run_inference`.
use karaoke_anything.Prelude.{
  ℕ, suc, ◌-◌, ◌*◌, ◌/◌, ◌≡◌, refl, sym, ◌∙◌, subst, inl, inr, String, Bool, true, false, not, ◌||◌,
  Option, none, some, List, length, get_elem?, ltb, leb, ◌==◌, if◌then◌else◌, All, All-get_elem?,
  Option-cases, Bool-cases, arith,
}
use karaoke_anything.Prelude.Int.{ℤ, pos, negsuc, same_int}
use karaoke_anything.Prelude.Exec.{Exec}
use karaoke_anything.Errors.{
  Result, ok, err, runtime_error, index_error, Result-cases, ok-injective, >>=-eq-ok, ◌>>=◌,
}
use karaoke_anything.Host.{Host}
use karaoke_anything.Kany.{IsWord}
use karaoke_anything.Registry.{ConvTasNetLyricsConfig}
use karaoke_anything.Processors.Torch.{Torch, IsStereo, Shapes, pick_device, lacks_gpu}
use karaoke_anything.Processors.Segmented.{Segmented}
use karaoke_anything.Processors.Segmented
use karaoke_anything.Processors.Htdemucs.Inference
use karaoke_anything.Processors.Htdemucs.Inference.{finalize_output-length}

-- What the model returns, a batch of one: the number of its dimensions, and the sources of the first
-- item, each `[channels, frames]`.
pub record Estimates (host : Host) (torch : Torch host) : Type 0 where
  pub ndim : ℕ
  pub sources : List torch.Tensor

-- `ConvTasNetStereo`, the vendored model, with its rate and the call of its `forward`
pub record Model (host : Host) (torch : Torch host) : Type 0 where
  pub samplerate : ℤ
  pub forward : torch.Tensor → Result (Estimates host torch)

-- The fields of the subclass, beside those of its base class.
pub record ConvTasNet (host : Host) (torch : Torch host) : Type 0 where
  pub segmented : Segmented host.Float
  pub model : Option (Model host torch)
  pub device : String
  pub model_sample_rate : ℤ

abbrev or_index_error {ℓ} : {A : Type ℓ} → Option A → Result A
or_index_error none = err index_error
or_index_error (some x) = ok x

-- `xs[i]`, where an index below zero counts from the end
abbrev pub at_index {ℓ} : {A : Type ℓ} → List A → ℤ → Result A
at_index xs (pos n) = or_index_error (get_elem? xs n)
at_index xs (negsuc n) =
    if ltb n (length xs) then or_index_error (get_elem? xs (length xs - suc n)) else err index_error

module _ (host : Host) (torch : Torch host) where
  -- `_load_model`, where `installed` says that the imports succeed and `load` is `from_pretrained` with
  -- the move to a device
  unfoldable pub load_model :
      Bool
      → (String → Result (Model host torch))
      → ConvTasNetLyricsConfig host.Float
      → Exec (ConvTasNet host torch) (Unit {0})
  load_model installed load config s =
      let device = pick_device torch.cuda_is_available config.device in
      let placed : ConvTasNet host torch = record s { device = device } in
      if not installed
      then (
        err (
            runtime_error
              "ConvTasNet dependencies are not installed; build with Dockerfile.demucs"),
        s,
      )
      else (if lacks_gpu torch.cuda_is_available device
          then (
            err (runtime_error "CONVTASNET_DEVICE requests CUDA but PyTorch cannot see a GPU"),
            placed,
          )
          else (elim (load device) [
            | err e ↦ (err e, placed)
            | ok model ↦
                (ok tt, record placed { model = some model; model_sample_rate = model.samplerate })
          ]))

  -- `stop`
  unfoldable pub stop : ConvTasNet host torch → ConvTasNet host torch
  stop s = record s { segmented = Segmented.reset s.segmented; model = none }

  -- `_prepare_waveform`, without the dimension of the batch
  unfoldable pub prepare_waveform : ℤ → String → List ℕ → ℤ → ℕ → Result torch.Tensor
  prepare_waveform model_rate device samples sample_rate channels = do
    waveform ← torch.channel_first channels (torch.tensor samples)
    waveform ←
        (if same_int sample_rate model_rate
          then ok waveform
          else torch.resample waveform sample_rate model_rate)
    ok (torch.to_device device waveform)

  -- `index >= source_count`
  abbrev beyond : ℤ → ℕ → Bool
  beyond (pos n) sources = leb sources n
  beyond (negsuc n) sources = false

  -- `accompaniment * r + waveform[0] * (1.0 - r)`
  abbrev mix :
      ConvTasNetLyricsConfig host.Float → torch.Tensor → Result torch.Tensor → Result torch.Tensor
  mix config waveform accompaniment = accompaniment >>= λ accompaniment.
      torch.add (torch.scale accompaniment config.vocal_reduction)
        (torch.scale waveform (host.sub (host.ratio 1 1) config.vocal_reduction))

  -- `_separate_accompaniment`, where `max(i, j) >= n` is `i >= n or j >= n`
  unfoldable pub separate_accompaniment :
      ConvTasNetLyricsConfig host.Float → Model host torch → torch.Tensor → Result torch.Tensor
  separate_accompaniment config model waveform = do
    estimates ← model.forward waveform
    if not (estimates.ndim == 4)
        then err (runtime_error "Expected ConvTasNet output [batch, sources, channels, frames]")
        else (if beyond config.vocal_source_index (length estimates.sources)
              || beyond config.accompaniment_source_index (length estimates.sources)
            then err (runtime_error "Configured ConvTasNet source index exceeds model output count")
            else mix config waveform (at_index estimates.sources config.accompaniment_source_index))

  -- `_finalize_output`, whose text is that of htdemucs.py
  abbrev finalize_output : ℤ → torch.Tensor → ℤ → ℕ → Result (List ℕ)
  finalize_output = Inference.finalize_output host torch

  -- `_run_inference`, with the rate of the model and the device
  unfoldable pub run_inference :
      Option (Model host torch)
      → ℤ
      → String
      → ConvTasNetLyricsConfig host.Float
      → List ℕ
      → ℕ
      → ℕ
      → Result (List ℕ)
  unfolding prepare_waveform separate_accompaniment
  run_inference none model_rate device config samples sample_rate channels =
      err (runtime_error "ConvTasNet model is not loaded")
  run_inference (some model) model_rate device config samples sample_rate channels = do
    waveform ← prepare_waveform model_rate device samples (pos sample_rate) channels
    output ← separate_accompaniment config model waveform
    finalize_output model_rate output (pos sample_rate) (length samples / channels)

-- a source has the channels and the frames of the waveform
abbrev pub Separates : (host : Host) (torch : Torch host) → Model host torch → Type 0
Separates host torch model =
    (waveform : torch.Tensor) (frames : ℕ) (estimates : Estimates host torch)
    → IsStereo host torch waveform frames
    → model.forward waveform ≡ ok estimates
    → All (λ source. IsStereo host torch source frames) estimates.sources

module _ (host : Host) (torch : Torch host) (shapes : Shapes host torch) where
  prepare_waveform-IsStereo :
      (model_rate rate : ℤ) (device : String) (samples : List ℕ) (frames : ℕ)
      (waveform : torch.Tensor)
      → length samples ≡ 2 * frames
      → prepare_waveform host torch model_rate device samples rate 2 ≡ ok waveform
      → (n : ℕ) × IsStereo host torch waveform n
  unfolding prepare_waveform
  prepare_waveform-IsStereo model_rate rate device samples frames waveform h e =
      let (first, c, e₁) = >>=-eq-ok (torch.channel_first 2 (torch.tensor samples)) _ e in
      let stereo = shapes.channel_first_shape samples frames first h c in
      let (second, k, e₂) =
        >>=-eq-ok
          (if same_int rate model_rate then ok first else torch.resample first rate model_rate) _
          e₁ in
      let (n, prepared) = at_rate first second stereo k in
      (
        n,
        subst (λ t. IsStereo host torch t n) (ok-injective e₂)
            (shapes.to_device_shape device second ∙ prepared),
      )
    where
      at_rate :
          (first second : torch.Tensor)
          → IsStereo host torch first frames
          → (if same_int rate model_rate then ok first else torch.resample first rate model_rate)
            ≡ ok second
          → (n : ℕ) × IsStereo host torch second n
      at_rate first second stereo k = elim (Bool-cases (same_int rate model_rate)) [
        | inl same ↦
            (frames, subst (λ t. IsStereo host torch t frames) (ok-injective (rw same at k)) stereo)
        | inr other ↦
            shapes.resample_shape first second frames rate model_rate stereo (rw other at k)
      ]

  get_elem-All :
      (P : torch.Tensor → Type 0) (xs : List torch.Tensor) (i : ℕ) (x : torch.Tensor)
      → All P xs
      → or_index_error (get_elem? xs i) ≡ ok x
      → P x
  get_elem-All P xs i x h e = elim (Option-cases (get_elem? xs i)) [
    | inl missing ↦ cc (rw missing at e)
    | inr (y, found) ↦
        let same : y ≡ x = ok-injective (rw found at e) in
        subst P same (All-get_elem? P i xs h found)
  ]

  at_index-All :
      (P : torch.Tensor → Type 0) (xs : List torch.Tensor) (i : ℤ) (x : torch.Tensor)
      → All P xs
      → at_index xs i ≡ ok x
      → P x
  at_index-All P xs (pos n) x h e = get_elem-All P xs n x h e
  at_index-All P xs (negsuc n) x h e = elim (Bool-cases (ltb n (length xs))) [
    | inl inside ↦ get_elem-All P xs (length xs - suc n) x h (rw inside at e)
    | inr outside ↦ cc (rw outside at e)
  ]

  separate_accompaniment-IsStereo :
      (config : ConvTasNetLyricsConfig host.Float) (model : Model host torch)
      (waveform output : torch.Tensor) (frames : ℕ)
      → Separates host torch model
      → IsStereo host torch waveform frames
      → separate_accompaniment host torch config model waveform ≡ ok output
      → IsStereo host torch output frames
  unfolding separate_accompaniment
  separate_accompaniment-IsStereo config model waveform output frames good h e =
      let (estimates, f, k) = >>=-eq-ok (model.forward waveform) _ e in
      let sources = good waveform frames estimates h f in
      elim (Bool-cases (not (estimates.ndim == 4))) [
        | inl other ↦ cc (rw other at k)
        | inr four ↦
            elim (Bool-cases (
              beyond host torch config.vocal_source_index (length estimates.sources)
              || beyond host torch config.accompaniment_source_index (length estimates.sources))) [
                | inl too_high ↦ cc (rw (four, too_high) at k)
                | inr found ↦
                    let (source, at, sum) =
                      >>=-eq-ok (at_index estimates.sources config.accompaniment_source_index) _
                        (rw (four, found) at k) in
                    let stereo =
                      at_index-All (λ z. IsStereo host torch z frames) estimates.sources
                        config.accompaniment_source_index source sources at in
                    let scaled = shapes.scale_shape source config.vocal_reduction in
                    let kept = host.sub (host.ratio 1 1) config.vocal_reduction in
                    shapes.add_shape (torch.scale source config.vocal_reduction)
                      (torch.scale waveform kept) output
                      (scaled ∙ stereo ∙ sym h ∙ sym (shapes.scale_shape waveform kept)) sum
                    ∙ scaled
                    ∙ stereo
              ]
      ]

  -- If the operations of PyTorch give the documented shapes, and each source of the model has the shape
  -- of the waveform, then what `_run_inference` returns for a stereo segment has one float32 item for
  -- each of its samples.
  pub run_inference_lem :
      (model : Option (Model host torch)) (model_rate : ℤ) (device : String)
      (config : ConvTasNetLyricsConfig host.Float) (samples : List ℕ) (rate frames : ℕ)
      (ws : List ℕ)
      → ((m : Model host torch) → model ≡ some m → Separates host torch m)
      → length samples ≡ 2 * frames
      → run_inference host torch model model_rate device config samples rate 2 ≡ ok ws
      → (length ws ≡ length samples) × All IsWord ws
  unfolding run_inference
  run_inference_lem none model_rate device config samples rate frames ws good h e = cc
  run_inference_lem (some m) model_rate device config samples rate frames ws good h e =
      let (waveform, p, e₁) =
        >>=-eq-ok (prepare_waveform host torch model_rate device samples (pos rate) 2) _ e in
      let (n, stereo) =
        prepare_waveform-IsStereo model_rate (pos rate) device samples frames waveform h p in
      let (output, s, e₂) = >>=-eq-ok (separate_accompaniment host torch config m waveform) _ e₁ in
      let separated =
        separate_accompaniment-IsStereo config m waveform output n (good m refl) stereo s in
      let half : 2 * (length samples / 2) ≡ length samples = omega arith in
      let (long, words) =
        finalize_output-length host torch shapes model_rate (pos rate) output n (length samples / 2)
          ws separated e₂ in
      (long ∙ half, words)

-- the loading of the model changes no buffer
pub load_model-segmented :
    (host : Host) (torch : Torch host) (installed : Bool)
    (load : String → Result (Model host torch)) (config : ConvTasNetLyricsConfig host.Float)
    (s : ConvTasNet host torch)
    → (load_model host torch installed load config s).1.segmented ≡ s.segmented
unfolding load_model
load_model-segmented host torch false load config s = refl
load_model-segmented host torch true load config s =
    let device = pick_device torch.cuda_is_available config.device in
    elim (Bool-cases (lacks_gpu torch.cuda_is_available device)) [
      | inl lacks ↦ rw lacks refl
      | inr fine ↦ elim (Result-cases (load device)) [
        | inl (model, e) ↦ rw (fine, e) refl
        | inr (x, e) ↦ rw (fine, e) refl
      ]
    ]
