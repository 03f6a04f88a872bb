-- ===== src/Processors/Mdx23c/Adapter.antt =====
-- app/audio_trombone/mdx23c.py: `MDX23CAdapter`, the checks of the shapes around the model.
use karaoke_anything.Prelude.{
  ℕ, ◌-◌, String, Bool, not, ◌&&◌, ◌||◌, Option, none, some, List, [], ◌∷◌, length, ltb, ◌==◌,
  if◌then◌else◌, texts_equal, zero, suc,
}
use text.Mathlib.Text.{starts_with}
use karaoke_anything.Prelude.Int.{ℤ, same_int}
use karaoke_anything.Errors.{Result, ok, err, runtime_error, value_error, ◌>>=◌, ◌>>◌, raise_if}
use karaoke_anything.Host.{Host}
use karaoke_anything.Processors.Torch.{Torch, last_dim, pick_device, lacks_gpu}

-- `_resolve_device`
unfoldable pub resolve_device : Bool → String → String → Result String
resolve_device cuda requested precision =
    let device = pick_device cuda requested in
    if lacks_gpu cuda device
    then err (runtime_error "MDX23C_DEVICE requests CUDA but PyTorch cannot see a GPU")
    else (if not (texts_equal precision "float32") && not (starts_with device "cuda")
        then err (value_error "reduced MDX23C precision is supported only on CUDA")
        else ok device)

-- `shape[i]`, for a shape with so many dimensions
abbrev pub dim : ℕ → List ℕ → ℕ
dim i [] = 0
dim zero (n ∷ dims) = n
dim (suc i) (n ∷ dims) = dim i dims

-- `_has_valid_stem_shape`
unfoldable pub has_valid_stem_shape : List ℕ → List ℕ → Bool
has_valid_stem_shape result waveform =
    length result == 4 && (dim 0 result == dim 0 waveform && dim 2 result == 2)

-- `self.stems.index(name)`, if it is there
abbrev pub index_of : String → List String → Option ℕ
index_of name [] = none
index_of name (stem ∷ stems) =
    let rest = index_of name stems in
    if texts_equal name stem then some 0 else elim rest [ none ↦ none | some i ↦ some (suc i) ]

-- `stem_index`; `lower` is `str.lower`
unfoldable pub stem_index : (String → String) → List String → List String → Result ℕ
stem_index lower stems [] = err (runtime_error "none of the names appears in configured stems")
stem_index lower stems (name ∷ names) =
    let rest = stem_index lower stems names in
    elim (index_of (lower name) stems) [ none ↦ rest | some i ↦ ok i ]

-- The attributes that `__init__` sets. `model` is the vendored network, on its device.
pub record Adapter (host : Host) (torch : Torch host) : Type 0 where
  pub sample_rate : ℤ
  pub stems : List String
  pub device : String
  pub model : torch.Tensor → Result torch.Tensor

module _ (host : Host) (torch : Torch host) where
  -- `_validate_waveform_input`
  unfoldable pub validate_waveform_input : torch.Tensor → ℤ → ℤ → Result (Unit {0})
  validate_waveform_input waveform sample_rate expected_rate = do
    raise_if (not (same_int sample_rate expected_rate))
        (value_error "MDX23C requires input at the rate of the model")
    raise_if (not (length (torch.shape waveform) == 3) || not (dim 1 (torch.shape waveform) == 2))
        (value_error "MDX23C input must have shape [batch, 2, frames]")

  -- a result without the dimension of the stems gets it
  abbrev pub with_stems : torch.Tensor → torch.Tensor
  with_stems result = if length (torch.shape result) == 3 then torch.unsqueeze 1 result else result

  -- the padding and the cut at the end of `_normalise_output`
  abbrev pub fitted : ℕ → torch.Tensor → torch.Tensor
  fitted frames result =
      let found = last_dim (torch.shape result) in
      let padded = if ltb found frames then torch.pad (frames - found) result else result in
      torch.narrow frames padded

  -- the checks of `_normalise_output`
  unfoldable pub check_output : torch.Tensor → torch.Tensor → ℕ → Result (Unit {0})
  check_output result waveform stem_count = do
    raise_if (not (has_valid_stem_shape (torch.shape result) (torch.shape waveform)))
        (runtime_error "MDX23C output must be [batch, stems, 2, frames]")
    raise_if (not (dim 1 (torch.shape result) == stem_count))
        (runtime_error "MDX23C returned another number of stems than the YAML declares")

  -- `_normalise_output`
  unfoldable pub normalise_output : torch.Tensor → torch.Tensor → ℕ → ℕ → Result torch.Tensor
  unfolding check_output
  normalise_output result waveform frames stem_count =
      check_output (with_stems result) waveform stem_count >> ok (fitted frames (with_stems result))

  -- `infer`
  unfoldable pub infer : Adapter host torch → torch.Tensor → ℤ → Result torch.Tensor
  unfolding validate_waveform_input normalise_output
  infer adapter waveform sample_rate = do
    validate_waveform_input waveform sample_rate adapter.sample_rate
    result ← adapter.model (torch.to_device adapter.device waveform)
    normalise_output result (torch.to_device adapter.device waveform)
        (last_dim (torch.shape waveform)) (length adapter.stems)
