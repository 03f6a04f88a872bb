-- ===== src/Processors/Mdx23c/Inference.antt =====
-- mdx23c_vocals.py: `start`, `stop` and `_run_inference`.
use karaoke_anything.Prelude.{
  ℕ, suc, arith, ==_iff, ◌-◌, ◌≡◌, ◌≢◌, refl, sym, ap, ◌∙◌, inl, inr, String, Bool, true, false,
  Option, none, some, List, [], ◌∷◌, length, ltb, ◌==◌, if◌then◌else◌, Bool-cases,
}
use karaoke_anything.Prelude.Int.{ℤ, pos, same_int}
use karaoke_anything.Prelude.Exec.{Exec}
use karaoke_anything.Errors.{
  Result, ok, err, runtime_error, >>=-eq-ok, >>-eq-ok, ok-injective, ◌>>=◌,
}
use karaoke_anything.Host.{Host}
use karaoke_anything.Processors.Torch.{Torch, last_dim}
use karaoke_anything.Processors.Mdx23c.Defs.{Mdx23c, Window}
use karaoke_anything.Processors.Mdx23c.Defs
use karaoke_anything.Processors.Mdx23c.Adapter.{
  Adapter, stem_index, fitted, with_stems, infer, check_output, validate_waveform_input,
  normalise_output,
}

-- The fields that the loading of the model changes, beside those of `Mdx23c`.
pub record Loaded (host : Host) (torch : Torch host) : Type 0 where
  pub buffers : Mdx23c host.Float
  pub adapter : Option (Adapter host torch)
  pub device : String
  pub model_loaded : Bool

module _ (host : Host) (torch : Torch host) where
  -- `if sample_rate != self._adapter.sample_rate`
  abbrev pub resampled : ℤ → ℤ → torch.Tensor → Result torch.Tensor
  resampled from to x = if same_int from to then ok x else torch.resample x from to

  -- `pad(result, (0, max(0, original_frames - frames)))[:, :original_frames]`
  abbrev cut : ℕ → torch.Tensor → torch.Tensor
  cut original_frames result =
      torch.narrow original_frames
        (torch.pad (original_frames - last_dim (torch.shape result)) result)

  -- `start`, where `load` is the constructor of `MDX23CAdapter`, and `warm_up` the call of `infer` on
  -- zeros, for so many frames, unless the attribute says that there is none
  unfoldable pub start :
      Result (Adapter host torch)
      → Bool
      → host.Float
      → (Adapter host torch → ℤ → Result (Unit {0}))
      → (ℤ → host.Float)
      → Exec (Loaded host torch) (Unit {0})
  start load warm_up segment_seconds infer_zeros to_float s = elim load [
    | err e ↦ (err e, s)
    | ok adapter ↦
        let t : Loaded host torch = record s {
          adapter = some adapter;
          device = adapter.device;
          model_loaded = true;
        } in
        let frames = host.round (host.mul (to_float adapter.sample_rate) segment_seconds) in
        if warm_up then (frames >>= infer_zeros adapter, t) else (ok tt, t)
  ]

  -- `stop`
  unfoldable pub stop : Loaded host torch → Loaded host torch
  stop s = record s { buffers = Defs.reset s.buffers; adapter = none; model_loaded = false }

  -- `_run_inference`, with the attribute `vocal_reduction`; `lower` is `str.lower`
  unfoldable pub run_inference :
      (String → String)
      → Option (Adapter host torch)
      → host.Float
      → List ℕ
      → ℕ
      → ℕ
      → Result (List ℕ)
  unfolding infer
  run_inference lower none vocal_reduction samples sample_rate channels =
      err (runtime_error "MDX23C model is not loaded")
  run_inference lower (some adapter) vocal_reduction samples sample_rate channels = do
    flat ← torch.channel_first 2 (torch.tensor samples)
    waveform ← resampled (pos sample_rate) adapter.sample_rate (torch.unsqueeze 0 flat)
    estimates ← infer host torch adapter waveform adapter.sample_rate
    index ← stem_index lower adapter.stems ("instrumental" ∷ "other" ∷ "accompaniment" ∷ [])
    stems ← torch.select estimates (pos 0)
    instrumental ← torch.select stems (pos index)
    original ← torch.select waveform (pos 0)
    mixed ←
        torch.add (torch.scale instrumental vocal_reduction)
          (torch.scale original (host.sub (host.ratio 1 1) vocal_reduction))
    result ← resampled adapter.sample_rate (pos sample_rate) mixed
    ok (torch.interleave (torch.clamp (cut (last_dim (torch.shape flat)) result)))

-- What the documentation says of the device of the results: a tensor made of samples is on the CPU,
-- an operation keeps the device, and to a tensor on the CPU that has a dimension only tensors on the
-- CPU can be added.
pub record Devices (host : Host) (torch : Torch host) : Type 0 where
  pub channel_first_device :
      (samples : List ℕ) (t : torch.Tensor)
      → torch.channel_first 2 (torch.tensor samples) ≡ ok t
      → torch.device t ≡ "cpu"
  pub resample_device :
      (t u : torch.Tensor) (from to : ℤ)
      → torch.resample t from to ≡ ok u
      → torch.device u ≡ torch.device t
  pub unsqueeze_device :
      (n : ℕ) (t : torch.Tensor) → torch.device (torch.unsqueeze n t) ≡ torch.device t
  pub pad_device : (n : ℕ) (t : torch.Tensor) → torch.device (torch.pad n t) ≡ torch.device t
  pub narrow_device : (n : ℕ) (t : torch.Tensor) → torch.device (torch.narrow n t) ≡ torch.device t
  pub scale_device :
      (t : torch.Tensor) (x : host.Float) → torch.device (torch.scale t x) ≡ torch.device t
  pub select_device :
      (t u : torch.Tensor) (i : ℤ) → torch.select t i ≡ ok u → torch.device u ≡ torch.device t
  pub to_device_device : (d : String) (t : torch.Tensor) → torch.device (torch.to_device d t) ≡ d
  pub scale_shape :
      (t : torch.Tensor) (x : host.Float) → torch.shape (torch.scale t x) ≡ torch.shape t
  pub select_shape :
      (t u : torch.Tensor) (i : ℤ)
      → torch.select t i ≡ ok u
      → length (torch.shape t) ≡ suc (length (torch.shape u))
  pub add_device :
      (t u w : torch.Tensor)
      → torch.device u ≡ "cpu"
      → torch.shape u ≢ []
      → torch.add t u ≡ ok w
      → torch.device t ≡ "cpu"

module _ (host : Host) (torch : Torch host) (devices : Devices host torch) where
  resampled-device :
      (from to : ℤ) (x y : torch.Tensor)
      → resampled host torch from to x ≡ ok y
      → torch.device y ≡ torch.device x
  resampled-device from to x y e = elim (Bool-cases (same_int from to)) [
    | inl same ↦ ap torch.device (sym (ok-injective (rw same at e)))
    | inr other ↦ devices.resample_device x y from to (rw other at e)
  ]

  with_stems_device : (t : torch.Tensor) → torch.device (with_stems host torch t) ≡ torch.device t
  with_stems_device t = elim (Bool-cases (length (torch.shape t) == 3)) [
    | inl three ↦ rw three (devices.unsqueeze_device 1 t)
    | inr other ↦ rw other refl
  ]

  fitted_device : (n : ℕ) (t : torch.Tensor) → torch.device (fitted host torch n t) ≡ torch.device t
  fitted_device n t = elim (Bool-cases (ltb (last_dim (torch.shape t)) n)) [
    | inl short ↦ rw (fitted, short) (devices.narrow_device n _ ∙ devices.pad_device _ t)
    | inr long ↦ rw (fitted, long) (devices.narrow_device n t)
  ]

  infer-device :
      (adapter : Adapter host torch) (waveform estimates : torch.Tensor) (rate : ℤ)
      → ((t u : torch.Tensor) → adapter.model t ≡ ok u → torch.device u ≡ torch.device t)
      → infer host torch adapter waveform rate ≡ ok estimates
      → torch.device estimates ≡ adapter.device
  unfolding infer normalise_output
  infer-device adapter waveform estimates rate keeps e =
      let moved = torch.to_device adapter.device waveform in
      let e₁ =
        >>-eq-ok (validate_waveform_input host torch waveform rate adapter.sample_rate) _ e in
      let (result, m, e₂) = >>=-eq-ok (adapter.model moved) _ e₁ in
      let e₃ =
        >>-eq-ok
          (check_output host torch (with_stems host torch result) moved (length adapter.stems)) _
          e₂ in
      ap torch.device (sym (ok-injective e₃))
      ∙ fitted_device (last_dim (torch.shape waveform)) (with_stems host torch result)
      ∙ with_stems_device result
      ∙ keeps moved result m
      ∙ devices.to_device_device adapter.device waveform

  -- `infer` returns for a batch only
  infer-three :
      (adapter : Adapter host torch) (waveform estimates : torch.Tensor) (rate : ℤ)
      → infer host torch adapter waveform rate ≡ ok estimates
      → length (torch.shape waveform) ≡ 3
  unfolding infer validate_waveform_input
  infer-three adapter waveform estimates rate e =
      elim (Bool-cases (length (torch.shape waveform) == 3)) [
        | inl three ↦ (==_iff (length (torch.shape waveform)) 3).0 three
        | inr other ↦ elim (Bool-cases (same_int rate adapter.sample_rate)) [
          | inl same ↦ cc (rw (same, other) at e)
          | inr differ ↦ cc (rw differ at e)
        ]
      ]

  not_scalar :
      (waveform original : torch.Tensor)
      → length (torch.shape waveform) ≡ 3
      → torch.select waveform (pos 0) ≡ ok original
      → torch.shape original ≢ []
  not_scalar waveform original three o flat =
      absurd
        (omega (arith, three, devices.select_shape waveform original (pos 0) o, ap length flat))

  -- If the operations of PyTorch treat devices as documented, and the model keeps that of its argument:
  -- with the model on another device than the CPU, `_run_inference` never returns a result, since the
  -- samples of the segment are still on the CPU when they are added to the model's estimate.
  pub run_inference_device :
      (lower : String → String) (adapter : Adapter host torch) (reduction : host.Float)
      (samples : List ℕ) (rate channels : ℕ) (ws : List ℕ)
      → ((t u : torch.Tensor) → adapter.model t ≡ ok u → torch.device u ≡ torch.device t)
      → adapter.device ≢ "cpu"
      → ¬ (run_inference host torch lower (some adapter) reduction samples rate channels ≡ ok ws)
  unfolding run_inference
  run_inference_device lower adapter reduction samples rate channels ws keeps off e =
      let (flat, c, e₁) = >>=-eq-ok (torch.channel_first 2 (torch.tensor samples)) _ e in
      let (waveform, r, e₂) =
        >>=-eq-ok (resampled host torch (pos rate) adapter.sample_rate (torch.unsqueeze 0 flat)) _
          e₁ in
      let (estimates, i, e₃) =
        >>=-eq-ok (infer host torch adapter waveform adapter.sample_rate) _ e₂ in
      let (index, n, e₄) =
        >>=-eq-ok (stem_index lower adapter.stems ("instrumental" ∷ "other" ∷ "accompaniment" ∷ []))
          _ e₃ in
      let (stems, s, e₅) = >>=-eq-ok (torch.select estimates (pos 0)) _ e₄ in
      let (instrumental, t, e₆) = >>=-eq-ok (torch.select stems (pos index)) _ e₅ in
      let (original, o, e₇) = >>=-eq-ok (torch.select waveform (pos 0)) _ e₆ in
      let kept = host.sub (host.ratio 1 1) reduction in
      let (mixed, a, _) =
        >>=-eq-ok (torch.add (torch.scale instrumental reduction) (torch.scale original kept)) _
          e₇ in
      let on_cpu : torch.device original ≡ "cpu" =
        devices.select_device waveform original (pos 0) o
        ∙ resampled-device (pos rate) adapter.sample_rate (torch.unsqueeze 0 flat) waveform r
        ∙ devices.unsqueeze_device 0 flat
        ∙ devices.channel_first_device samples flat c in
      let on_model : torch.device instrumental ≡ adapter.device =
        devices.select_device stems instrumental (pos index) t
        ∙ devices.select_device estimates stems (pos 0) s
        ∙ infer-device adapter waveform estimates adapter.sample_rate keeps i in
      let right = torch.scale original kept in
      let item =
        not_scalar waveform original (infer-three adapter waveform estimates adapter.sample_rate i)
          o in
      off (
        sym on_model
        ∙ sym (devices.scale_device instrumental reduction)
        ∙ devices.add_device (torch.scale instrumental reduction) right mixed
            (devices.scale_device original kept ∙ on_cpu)
            (λ none_left. item (sym (devices.scale_shape original kept) ∙ none_left)) a)
