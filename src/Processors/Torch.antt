-- ===== src/Processors/Torch.antt =====
-- What the code takes from PyTorch and torchaudio (htdemucs.py, convtasnet_lyrics.py,
-- mdx23c_vocals.py and mdx23c.py): operations on tensors, of which only the shape, the device and
-- the samples of the result are read.
pub mod Toy
mod Tests
use karaoke_anything.Prelude.{
  ℕ, ◌+◌, ◌*◌, ◌≡◌, String, Bool, not, ◌&&◌, List, [], ◌∷◌, length, min, All, if◌then◌else◌,
  texts_equal,
}
use text.Mathlib.Text.{starts_with}
use karaoke_anything.Prelude.Int.{ℤ}
use karaoke_anything.Errors.{Result, ok}
use karaoke_anything.Host.{Host}
use karaoke_anything.Kany.{IsWord}

module _ (host : Host) where
  pub record Torch : Type 1 where
    pub Tensor : Type 0
    pub shape : Tensor → List ℕ
    pub device : Tensor → String
    pub cuda_is_available : Bool
    -- `torch.tensor(samples)`
    pub tensor : List ℕ → Tensor
    -- `x.view(-1, channels).transpose(0, 1)`
    pub channel_first : ℕ → Tensor → Result Tensor
    -- `x.unsqueeze(dim)`
    pub unsqueeze : ℕ → Tensor → Tensor
    -- `x[i]`
    pub select : Tensor → ℤ → Result Tensor
    -- `x.to(device)`
    pub to_device : String → Tensor → Tensor
    -- `resample(x, orig_freq, new_freq)`
    pub resample : Tensor → ℤ → ℤ → Result Tensor
    -- `pad(x, (0, n))`
    pub pad : ℕ → Tensor → Tensor
    -- `x[..., :n]`
    pub narrow : ℕ → Tensor → Tensor
    -- `x.clamp(-1.0, 1.0)`
    pub clamp : Tensor → Tensor
    -- `x * factor`
    pub scale : Tensor → host.Float → Tensor
    pub add : Tensor → Tensor → Result Tensor
    pub sub : Tensor → Tensor → Result Tensor
    -- `x.transpose(0, 1).contiguous().view(-1)`, moved to the CPU, as an `array("f")`
    pub interleave : Tensor → List ℕ

-- a tensor of so many channels and frames
abbrev pub IsStereo : (host : Host) (torch : Torch host) → torch.Tensor → ℕ → Type 0
IsStereo host torch t frames = torch.shape t ≡ 2 ∷ frames ∷ []

-- What the documentation says of the shape of the results.
pub record Shapes (host : Host) (torch : Torch host) : Type 0 where
  pub channel_first_shape :
      (samples : List ℕ) (frames : ℕ) (t : torch.Tensor)
      → length samples ≡ 2 * frames
      → torch.channel_first 2 (torch.tensor samples) ≡ ok t
      → IsStereo host torch t frames
  pub resample_shape :
      (t u : torch.Tensor) (frames : ℕ) (from to : ℤ)
      → IsStereo host torch t frames
      → torch.resample t from to ≡ ok u
      → (n : ℕ) × IsStereo host torch u n
  pub pad_shape :
      (t : torch.Tensor) (frames n : ℕ)
      → IsStereo host torch t frames
      → IsStereo host torch (torch.pad n t) (frames + n)
  pub narrow_shape :
      (t : torch.Tensor) (frames n : ℕ)
      → IsStereo host torch t frames
      → IsStereo host torch (torch.narrow n t) (min frames n)
  pub to_device_shape :
      (device : String) (t : torch.Tensor) → torch.shape (torch.to_device device t) ≡ torch.shape t
  pub clamp_shape : (t : torch.Tensor) → torch.shape (torch.clamp t) ≡ torch.shape t
  pub scale_shape :
      (t : torch.Tensor) (x : host.Float) → torch.shape (torch.scale t x) ≡ torch.shape t
  pub add_shape :
      (t u w : torch.Tensor)
      → torch.shape t ≡ torch.shape u
      → torch.add t u ≡ ok w
      → torch.shape w ≡ torch.shape t
  pub sub_shape :
      (t u w : torch.Tensor)
      → torch.shape t ≡ torch.shape u
      → torch.sub t u ≡ ok w
      → torch.shape w ≡ torch.shape t
  pub interleave_length :
      (t : torch.Tensor) (frames : ℕ)
      → IsStereo host torch t frames
      → length (torch.interleave t) ≡ 2 * frames
  pub interleave_words : (t : torch.Tensor) → All IsWord (torch.interleave t)

-- `shape[-1]`
abbrev pub last_dim : List ℕ → ℕ
last_dim [] = 0
last_dim (n ∷ []) = n
last_dim (n ∷ m ∷ dims) = last_dim (m ∷ dims)

-- `"cuda" if torch.cuda.is_available() else "cpu"` for "auto"
abbrev pub pick_device : Bool → String → String
pick_device cuda requested =
    if texts_equal requested "auto" then (if cuda then "cuda" else "cpu") else requested

-- `device.startswith("cuda") and not torch.cuda.is_available()`
abbrev pub lacks_gpu : Bool → String → Bool
lacks_gpu cuda device = starts_with device "cuda" && not cuda
