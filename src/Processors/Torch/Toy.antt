-- ===== src/Processors/Torch/Toy.antt =====
-- htdemucs.py, convtasnet_lyrics.py and mdx23c.py: for tests, tensors that have a shape and a device
-- and forget their values.
use karaoke_anything.Prelude.{
  ℕ, zero, suc, ◌+◌, ◌*◌, ◌/◌, ◌≡◌, refl, sym, ap, ◌∙◌, String, Bool, List, [], ◌∷◌, length, min,
  All, if◌then◌else◌, texts_equal, texts_equal_iff, Bool-cases, inl, inr, arith,
}
use karaoke_anything.Errors.{Result, ok, err, runtime_error, index_error, ok-injective}
use karaoke_anything.Kany.{IsWord}
use karaoke_anything.Fixtures.{toy_host}
use karaoke_anything.Processors.Torch.{Torch, Shapes}
use karaoke_anything.Processors.Mdx23c.Inference.{Devices}

pub record Toy : Type 0 where
  pub dims : List ℕ
  pub place : String

-- the number of frames of a tensor with channels
abbrev reframe : (ℕ → ℕ) → List ℕ → List ℕ
reframe f [] = []
reframe f (n ∷ []) = f n ∷ []
reframe f (n ∷ m ∷ dims) = n ∷ reframe f (m ∷ dims)

abbrev select_toy : List ℕ → String → Result Toy
select_toy [] place = err index_error
select_toy (n ∷ dims) place = ok (record { dims = dims; place = place })

abbrev zeros : ℕ → List ℕ
zeros zero = []
zeros (suc n) = 0 ∷ zeros n

abbrev size : List ℕ → ℕ
size [] = 1
size (n ∷ dims) = n * size dims

abbrev add_toys : Toy → Toy → Result Toy
add_toys t u =
    if texts_equal t.place u.place then ok t else err (runtime_error "tensors on two devices")

abbrev pub toy_torch : Bool → Torch toy_host
toy_torch cuda = record {
  Tensor = Toy;
  shape = λ t. t.dims;
  device = λ t. t.place;
  cuda_is_available = cuda;
  tensor = λ samples. record { dims = length samples ∷ []; place = "cpu" };
  channel_first = λ channels t. ok (record t { dims = channels ∷ size t.dims / channels ∷ [] });
  unsqueeze = λ n t. record t { dims = 1 ∷ t.dims };
  select = λ t i. select_toy t.dims t.place;
  to_device = λ device t. record t { place = device };
  resample = λ t from to. ok t;
  pad = λ n t. record t { dims = reframe (λ m. m + n) t.dims };
  narrow = λ n t. record t { dims = reframe (λ m. min m n) t.dims };
  clamp = λ t. t;
  scale = λ t x. t;
  add = add_toys;
  sub = add_toys;
  interleave = λ t. zeros (size t.dims);
}

length-zeros : (n : ℕ) → length (zeros n) ≡ n
length-zeros zero = refl
length-zeros (suc n) = ap suc (length-zeros n)

zeros-IsWord : (n : ℕ) → All IsWord (zeros n)
zeros-IsWord zero = tt
zeros-IsWord (suc n) = (omega arith, zeros-IsWord n)

add_toys-eq_ok : (t u w : Toy) → add_toys t u ≡ ok w → (t ≡ w) × (t.place ≡ u.place)
add_toys-eq_ok t u w e = elim (Bool-cases (texts_equal t.place u.place)) [
  | inl same ↦ (ok-injective (rw same at e), (texts_equal_iff t.place u.place).0 same)
  | inr other ↦ cc (rw other at e)
]

select_toy-eq_ok :
    (t u : Toy)
    → select_toy t.dims t.place ≡ ok u
    → (u.place ≡ t.place) × (length t.dims ≡ suc (length u.dims))
select_toy-eq_ok t u e = by_dims t.dims e
  where
    by_dims :
        (dims : List ℕ)
        → select_toy dims t.place ≡ ok u
        → (u.place ≡ t.place) × (length dims ≡ suc (length u.dims))
    by_dims [] e = cc e
    by_dims (n ∷ dims) e = (
      ap (λ (z : Toy). z.place) (sym (ok-injective e)),
      ap (λ (z : Toy). suc (length z.dims)) (ok-injective e),
    )

pub toy_torch-Shapes : (cuda : Bool) → Shapes toy_host (toy_torch cuda)
toy_torch-Shapes cuda = record {
  channel_first_shape = λ samples frames t h e.
      ap (λ (u : Toy). u.dims) (sym (ok-injective e)) ∙ ap (λ n. 2 ∷ n ∷ []) (omega (arith, h));
  resample_shape =
      λ t u frames from to h e. (frames, ap (λ (z : Toy). z.dims) (sym (ok-injective e)) ∙ h);
  pad_shape = λ t frames n h. ap (reframe (λ m. m + n)) h;
  narrow_shape = λ t frames n h. ap (reframe (λ m. min m n)) h;
  to_device_shape = λ device t. refl;
  clamp_shape = λ t. refl;
  scale_shape = λ t x. refl;
  add_shape = λ t u w h e. ap (λ (z : Toy). z.dims) (sym (add_toys-eq_ok t u w e).0);
  sub_shape = λ t u w h e. ap (λ (z : Toy). z.dims) (sym (add_toys-eq_ok t u w e).0);
  interleave_length = λ t frames h. length-zeros (size t.dims) ∙ ap size h ∙ (omega arith);
  interleave_words = λ t. zeros-IsWord (size t.dims);
}

pub toy_torch-Devices : (cuda : Bool) → Devices toy_host (toy_torch cuda)
toy_torch-Devices cuda = record {
  channel_first_device = λ samples t e. ap (λ (z : Toy). z.place) (sym (ok-injective e));
  resample_device = λ t u from to e. ap (λ (z : Toy). z.place) (sym (ok-injective e));
  unsqueeze_device = λ n t. refl;
  pad_device = λ n t. refl;
  narrow_device = λ n t. refl;
  scale_device = λ t x. refl;
  select_device = λ t u i e. (select_toy-eq_ok t u e).0;
  to_device_device = λ d t. refl;
  scale_shape = λ t x. refl;
  select_shape = λ t u i e. (select_toy-eq_ok t u e).1;
  add_device = λ t u w cpu item e. (add_toys-eq_ok t u w e).1 ∙ cpu;
}
