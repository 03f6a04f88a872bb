-- ===== src/Processors/Htdemucs/Inference.antt =====
-- htdemucs.py: `start`, `stop`, the loading of the model and `_run_inference`.
use karaoke_anything.Prelude.{
  ℕ, ◌+◌, ◌-◌, ◌*◌, ◌/◌, ◌≡◌, refl, sym, ap, ◌∙◌, subst, inl, inr, String, Bool, true, false, not,
  Option, none, some, List, [], ◌∷◌, length, ltb, ltb→le, ltb→lt, if◌then◌else◌, min, All,
  Bool-cases, arith,
}
use karaoke_anything.Prelude.Int.{ℤ, pos, same_int}
use karaoke_anything.Prelude.Exec.{Exec}
use karaoke_anything.Errors.{
  Result, ok, err, runtime_error, Result-cases, ok-injective, >>=-eq-ok, ◌>>=◌,
}
use karaoke_anything.Host.{Host}
use karaoke_anything.Kany.{IsWord}
use karaoke_anything.Registry.{HtDemucsConfig}
use karaoke_anything.Processors.Torch.{Torch, IsStereo, Shapes, last_dim, pick_device, lacks_gpu}
use karaoke_anything.Processors.Segmented.{Segmented}
use karaoke_anything.Processors.Segmented

-- `demucs.api.Separator`: its rate, and `separate_tensor`, which returns the mix and the stem that
-- `stems.get("vocals")` finds
pub record Separator (host : Host) (torch : Torch host) : Type 0 where
  pub samplerate : ℤ
  pub separate_tensor : torch.Tensor → ℤ → Result (torch.Tensor × Option torch.Tensor)

-- both have the shape of the argument, apart from the number of frames
abbrev pub Separates : (host : Host) (torch : Torch host) → Separator host torch → Type 0
Separates host torch separator =
    (waveform mix vocals : torch.Tensor) (frames : ℕ) (rate : ℤ)
    → IsStereo host torch waveform frames
    → separator.separate_tensor waveform rate ≡ ok (mix, some vocals)
    → (n : ℕ) × IsStereo host torch mix n × IsStereo host torch vocals n

-- The fields of the subclass, beside those of its base class.
pub record HtDemucs (host : Host) (torch : Torch host) : Type 0 where
  pub segmented : Segmented host.Float
  pub separator : Option (Separator host torch)
  pub device : String

module _ (host : Host) (torch : Torch host) where
  -- `_load_separator`, where `installed` says that the imports succeed and `load` is the constructor of
  -- `Separator` on a device
  unfoldable pub load_separator :
      Bool
      → (String → Result (Separator host torch))
      → HtDemucsConfig host.Float
      → Exec (HtDemucs host torch) (Unit {0})
  load_separator installed load config s =
      let device = pick_device torch.cuda_is_available config.device in
      let placed : HtDemucs host torch = record s { device = device } in
      if not installed
      then (
        err (runtime_error "HTDemucs dependencies are not installed; build with Dockerfile.demucs"),
        s,
      )
      else (if lacks_gpu torch.cuda_is_available device
          then (
            err (runtime_error "DEMUCS_DEVICE requests CUDA but PyTorch cannot see a GPU"),
            placed,
          )
          else (elim (load device) [
            | err e ↦ (err e, placed)
            | ok separator ↦ (ok tt, record placed { separator = some separator })
          ]))

  -- `stop`
  unfoldable pub stop : HtDemucs host torch → HtDemucs host torch
  stop s = record s { segmented = Segmented.reset s.segmented; separator = none }

  -- `_reduce_vocals`
  unfoldable pub reduce_vocals :
      Separator host torch → host.Float → torch.Tensor → ℤ → Result torch.Tensor
  reduce_vocals separator vocal_reduction waveform sample_rate =
      separator.separate_tensor waveform sample_rate >>= λ (original, vocals). elim vocals [
        | none ↦ err (runtime_error "Demucs model did not return a vocals stem")
        | some vocals ↦ torch.sub original (torch.scale vocals vocal_reduction)
      ]

  -- padded or cut to the target
  abbrev fitted : ℕ → torch.Tensor → torch.Tensor
  fitted target_frames output =
      let frames = last_dim (torch.shape output) in
      let padded =
        if ltb frames target_frames then torch.pad (target_frames - frames) output else output in
      torch.clamp (torch.narrow target_frames padded)

  -- `_finalize_output`, which convtasnet_lyrics.py repeats
  unfoldable pub finalize_output : ℤ → torch.Tensor → ℤ → ℕ → Result (List ℕ)
  finalize_output model_rate output sample_rate target_frames = do
    output ←
        (if same_int model_rate sample_rate
          then ok output
          else torch.resample output model_rate sample_rate)
    ok (torch.interleave (fitted target_frames output))

  -- `_run_inference`
  unfoldable pub run_inference :
      Option (Separator host torch) → host.Float → List ℕ → ℕ → ℕ → Result (List ℕ)
  unfolding reduce_vocals finalize_output
  run_inference none vocal_reduction samples sample_rate channels =
      err (runtime_error "Demucs separator is not loaded")
  run_inference (some separator) vocal_reduction samples sample_rate channels = do
    waveform ← torch.channel_first channels (torch.tensor samples)
    output ← reduce_vocals separator vocal_reduction waveform (pos sample_rate)
    finalize_output separator.samplerate output (pos sample_rate) (length samples / channels)

module _ (host : Host) (torch : Torch host) (shapes : Shapes host torch) where
  fitted_length :
      (t : torch.Tensor) (frames target : ℕ)
      → IsStereo host torch t frames
      → let padded = if ltb frames target then torch.pad (target - frames) t else t in
        length (torch.interleave (torch.clamp (torch.narrow target padded))) ≡ 2 * target
  fitted_length t frames target h = elim (Bool-cases (ltb frames target)) [
    | inl short ↦ rw short (
        clamped (torch.pad (target - frames) t) (frames + (target - frames))
          (shapes.pad_shape t frames (target - frames) h)
          (let less = ltb→lt frames target short in omega arith))
    | inr long ↦
        rw long (clamped t frames h (let enough = ltb→le frames target long in omega arith))
  ]
    where
      clamped :
          (u : torch.Tensor) (n : ℕ)
          → IsStereo host torch u n
          → min n target ≡ target
          → length (torch.interleave (torch.clamp (torch.narrow target u))) ≡ 2 * target
      clamped u n k e = shapes.interleave_length (torch.clamp (torch.narrow target u)) target (
          shapes.clamp_shape (torch.narrow target u)
          ∙ shapes.narrow_shape u n target k
          ∙ ap (λ m. 2 ∷ m ∷ []) e)

  -- the result is as long as it should be
  pub finalize_output-length :
      (model_rate rate : ℤ) (output : torch.Tensor) (frames target : ℕ) (ws : List ℕ)
      → IsStereo host torch output frames
      → finalize_output host torch model_rate output rate target ≡ ok ws
      → (length ws ≡ 2 * target) × All IsWord ws
  unfolding finalize_output
  finalize_output-length model_rate rate output frames target ws h e =
      elim (Bool-cases (same_int model_rate rate)) [
        | inl same ↦ fits output frames h (rw same at e)
        | inr other ↦
            let (u, r, k) = >>=-eq-ok (torch.resample output model_rate rate) _ (rw other at e) in
            let (n, stereo) = shapes.resample_shape output u frames model_rate rate h r in
            fits u n stereo k
      ]
    where
      fits :
          (u : torch.Tensor) (n : ℕ)
          → IsStereo host torch u n
          → ok (torch.interleave (fitted host torch target u)) ≡ ok ws
          → (length ws ≡ 2 * target) × All IsWord ws
      fits u n stereo k =
          let is_n : last_dim (torch.shape u) ≡ n = ap last_dim stereo in
          let same = ok-injective (rw (is_n, fitted) at k) in
          subst (λ l. (length l ≡ 2 * target) × All IsWord l) same
            (fitted_length u n target stereo, shapes.interleave_words _)

  reduce_vocals-IsStereo :
      (s : Separator host torch) (reduction : host.Float) (waveform output : torch.Tensor)
      (frames : ℕ) (rate : ℤ)
      → Separates host torch s
      → IsStereo host torch waveform frames
      → reduce_vocals host torch s reduction waveform rate ≡ ok output
      → (n : ℕ) × IsStereo host torch output n
  unfolding reduce_vocals
  reduce_vocals-IsStereo s reduction waveform output frames rate good h e =
      let (stems, sep, k) = >>=-eq-ok (s.separate_tensor waveform rate) _ e in
      by_stem stems.0 stems.1 sep k
    where
      by_stem :
          (mix : torch.Tensor) (vocals : Option torch.Tensor)
          → s.separate_tensor waveform rate ≡ ok (mix, vocals)
          → elim vocals as (λ z. Result torch.Tensor) [
            | none ↦ err (runtime_error "Demucs model did not return a vocals stem")
            | some vocals ↦ torch.sub mix (torch.scale vocals reduction)
          ]
            ≡ ok output
          → (n : ℕ) × IsStereo host torch output n
      by_stem mix none sep k = cc
      by_stem mix (some vocals) sep k =
          let (n, a, b) = good waveform mix vocals frames rate h sep in
          (
            n,
            shapes.sub_shape mix (torch.scale vocals reduction) output
                  (a ∙ sym b ∙ sym (shapes.scale_shape vocals reduction)) k
                ∙ a,
          )

  -- If the operations of PyTorch give the documented shapes, and the separator keeps that of the waveform
  -- apart from the number of frames, then what `_run_inference` returns for a stereo segment has one
  -- float32 item for each of its samples.
  pub run_inference-length :
      (separator : Option (Separator host torch)) (reduction : host.Float) (samples : List ℕ)
      (rate frames : ℕ) (ws : List ℕ)
      → ((s : Separator host torch) → separator ≡ some s → Separates host torch s)
      → length samples ≡ 2 * frames
      → run_inference host torch separator reduction samples rate 2 ≡ ok ws
      → (length ws ≡ length samples) × All IsWord ws
  unfolding run_inference reduce_vocals
  run_inference-length none reduction samples rate frames ws good h e = cc
  run_inference-length (some s) reduction samples rate frames ws good h e =
      let (waveform, c, e₁) = >>=-eq-ok (torch.channel_first 2 (torch.tensor samples)) _ e in
      let stereo = shapes.channel_first_shape samples frames waveform h c in
      let (output, r, e₂) =
        >>=-eq-ok (reduce_vocals host torch s reduction waveform (pos rate)) _ e₁ in
      let (n, reduced) =
        reduce_vocals-IsStereo s reduction waveform output frames (pos rate) (good s refl) stereo
          r in
      let half : 2 * (length samples / 2) ≡ length samples = omega arith in
      let (long, words) =
        finalize_output-length s.samplerate (pos rate) output n (length samples / 2) ws reduced
          e₂ in
      (long ∙ half, words)

-- the loading of the model changes no buffer
pub load_separator-segmented :
    (host : Host) (torch : Torch host) (installed : Bool)
    (load : String → Result (Separator host torch)) (config : HtDemucsConfig host.Float)
    (s : HtDemucs host torch)
    → (load_separator host torch installed load config s).1.segmented ≡ s.segmented
unfolding load_separator
load_separator-segmented host torch false load config s = refl
load_separator-segmented host torch true load config s =
    let device = pick_device torch.cuda_is_available config.device in
    elim (Bool-cases (lacks_gpu torch.cuda_is_available device)) [
      | inl lacks ↦ rw lacks refl
      | inr fine ↦ elim (Result-cases (load device)) [
        | inl (separator, e) ↦ rw (fine, e) refl
        | inr (x, e) ↦ rw (fine, e) refl
      ]
    ]
