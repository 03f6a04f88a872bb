-- ===== src/Processors/Segmented/Format.antt =====
-- segmented_inference.py, `_accept_stream_format`: what it refuses, and what it changes.
use karaoke_anything.Prelude.{
  ℕ, ◌≡◌, ◌≢◌, refl, sym, ap, ◌∙◌, inl, inr, ◌⊎◌, not, ◌||◌, ◌==◌, ==_iff, true, Bool-cases,
  Option-cases, Option, none, some,
}
use karaoke_anything.Errors.{Exception, Result, ok, err, format_changed}
use karaoke_anything.Kany.{KanyPacket}
use karaoke_anything.Processors.Segmented.Defs.{Segmented, differs, accept_stream_format}
use karaoke_anything.Processors.Segmented.Methods.{accept_cases}

other_format :
    (n rate m : ℕ) (channels : Option ℕ)
    → (not (n == rate) || differs m channels) ≡ true
    → (n ≢ rate) ⊎ (some m ≢ channels)
other_format n rate m channels h = elim (Bool-cases (n == rate)) [
  | inr other ↦ inl (λ e. cc (other, (==_iff n rate).1 e))
  | inl same ↦ inr (by_channels channels (rw same at h))
]
  where
    by_channels : (o : Option ℕ) → differs m o ≡ true → some m ≢ o
    by_channels none d e = cc e
    by_channels (some k) d e =
        let equal : (m == k) ≡ true = (==_iff m k).1 (cc e) in cc (rw equal at d)

-- `_accept_stream_format` raises only for another rate or number of channels, and then writes nothing.
pub accept_raised :
    {F : Type 0} (p : KanyPacket) (s t : Segmented F) (e : Exception)
    → accept_stream_format p s ≡ (err e, t)
    → (s ≡ t)
      × (rate : ℕ) × (s.stream_sample_rate ≡ some rate)
      × ((p.sample_rate ≢ rate) ⊎ (some p.channels ≢ s.stream_channels))
      × (e ≡ format_changed rate s.stream_channels p.sample_rate p.channels)
unfolding accept_stream_format
accept_raised p s t e h = elim (Option-cases s.stream_sample_rate) [
  | inl none_yet ↦ cc (rw (none_yet, accept_stream_format) at h)
  | inr (rate, known) ↦
      elim (Bool-cases (not (p.sample_rate == rate) || differs p.channels s.stream_channels)) [
        | inr same ↦ cc (rw (known, same, accept_stream_format) at h)
        | inl other ↦
            let raised = rw (known, other, accept_stream_format) at h in
            (
              cc raised,
              rate,
              known,
              other_format p.sample_rate rate p.channels s.stream_channels other,
              cc raised,
            )
      ]
]

-- behind it the rate of the stream is known
pub accept_returned :
    {F : Type 0} (p : KanyPacket) (s t : Segmented F)
    → accept_stream_format p s ≡ (ok tt, t)
    → (rate : ℕ) × (t.stream_sample_rate ≡ some rate)
unfolding accept_stream_format
accept_returned {F} p s t h = elim (Option-cases s.stream_sample_rate) [
  | inl none_yet ↦
      let returned = rw (none_yet, accept_stream_format) at h in
      (
        p.sample_rate,
        ap (λ (z : Result (Unit {0}) × Segmented F). z.1.stream_sample_rate) (sym returned),
      )
  | inr (rate, known) ↦
      elim (Bool-cases (not (p.sample_rate == rate) || differs p.channels s.stream_channels)) [
        | inl other ↦ cc (rw (known, other, accept_stream_format) at h)
        | inr same ↦
            let returned = rw (known, same, accept_stream_format) at h in
            (
              rate,
              ap (λ (z : Result (Unit {0}) × Segmented F). z.1.stream_sample_rate) (sym returned)
                  ∙ known,
            )
      ]
]

pub accept-same :
    {F : Type 0} (p : KanyPacket) (s : Segmented F)
    → ((accept_stream_format p s).1.input_packets ≡ s.input_packets)
      × ((accept_stream_format p s).1.inference_task ≡ s.inference_task)
accept-same {F} p s = elim (accept_cases p s) [
  | inl e ↦
      (ap (λ (z : Segmented F). z.input_packets) e, ap (λ (z : Segmented F). z.inference_task) e)
  | inr (_, e) ↦ rw e (refl, refl)
]
