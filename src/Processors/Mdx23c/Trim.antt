-- ===== src/Processors/Mdx23c/Trim.antt =====
-- mdx23c_vocals.py, `_buffer_packet`: which packets the bounded buffer drops.
use karaoke_anything.Prelude.{
  ℕ, suc, ◌+◌, ◌-◌, ◌≤◌, ◌≡◌, refl, sym, ap, ◌∙◌, ◌⊎◌, inl, inr, Bool-cases, true, false, List, [],
  ◌∷◌, ◌++◌, length, arith,
}
use karaoke_anything.Prelude.Int.{ℤ, pos, above, above-le}
use karaoke_anything.Errors.{Result, ok}
use karaoke_anything.Host.{Host}
use karaoke_anything.Kany.{KanyPacket}
use karaoke_anything.Processors.Segmented.{sum_frames}
use karaoke_anything.Processors.Segmented.Launch.{sum_frames-append}
use karaoke_anything.Processors.Mdx23c.Defs.{
  Mdx23c, Window, Trimmed, trim_loop, trim, append_input, buffer_packet,
}

-- The loop takes `gone` off the front of `input` and counts it.
pub record Trims (maximum : ℤ) (input : List KanyPacket) (dropped : ℕ) (t : Trimmed) : Type 0 where
  pub gone : List KanyPacket
  pub in_order : gone ++ t.packets ≡ input
  pub counted : t.frames ≡ sum_frames t.packets
  pub drops_counted : t.dropped ≡ dropped + length gone
  pub enough : (above t.frames maximum ≡ false) ⊎ (t.packets ≡ [])
  -- before the last packet was dropped, there were too many frames
  pub needed :
      (first : List KanyPacket) (last : KanyPacket)
      → gone ≡ first ++ last ∷ []
      → above (last.frames + sum_frames t.packets) maximum ≡ true

trim_loop-Trims :
    (maximum : ℤ) (input : List KanyPacket) (frames dropped : ℕ)
    → frames ≡ sum_frames input
    → Trims maximum input dropped (trim_loop maximum input frames dropped)
unfolding trim_loop
trim_loop-Trims maximum [] frames dropped f = record {
  gone = [];
  in_order = refl;
  counted = f;
  drops_counted = omega arith;
  enough = inr refl;
  needed = none_gone;
}
  where
    none_gone :
        (first : List KanyPacket) (last : KanyPacket)
        → [] ≡ first ++ last ∷ []
        → above (last.frames + 0) maximum ≡ true
    none_gone [] last e = cc
    none_gone (p ∷ ps) last e = cc
trim_loop-Trims maximum (p ∷ ps) frames dropped f = elim (Bool-cases (above frames maximum)) [
  | inr fits ↦ rw fits (record {
    gone = [];
    in_order = refl;
    counted = f;
    drops_counted = omega arith;
    enough = inl fits;
    needed = none_gone;
  })
  | inl over ↦
      let t = trim_loop maximum ps (frames - p.frames) (dropped + 1) in
      let next : Trims maximum ps (dropped + 1) t =
        trim_loop-Trims maximum ps (frames - p.frames) (dropped + 1) (omega arith) in
      rw over (record {
        gone = p ∷ next.gone;
        in_order = ap (◌∷◌ p) next.in_order;
        counted = next.counted;
        drops_counted = omega (arith, next.drops_counted);
        enough = next.enough;
        needed = λ first last e. by_first t next over first last e;
      })
]
  where
    none_gone :
        (first : List KanyPacket) (last : KanyPacket)
        → [] ≡ first ++ last ∷ []
        → above (last.frames + sum_frames (p ∷ ps)) maximum ≡ true
    none_gone [] last e = cc
    none_gone (q ∷ qs) last e = cc

    by_first :
        (t : Trimmed)
        → (next : Trims maximum ps (dropped + 1) t) → above frames maximum ≡ true
        → (first : List KanyPacket) (last : KanyPacket) → p ∷ next.gone ≡ first ++ last ∷ []
        → above (last.frames + sum_frames t.packets) maximum ≡ true
    by_first t next over [] last e =
        let same : p ≡ last = cc e in
        let alone : next.gone ≡ [] = cc e in
        let rest : t.packets ≡ ps = ap (λ l. l ++ t.packets) (sym alone) ∙ next.in_order in
        let total : last.frames + sum_frames t.packets ≡ frames =
          ap (λ (q : KanyPacket). q.frames + sum_frames t.packets) (sym same)
          ∙ ap (λ l. p.frames + sum_frames l) rest
          ∙ sym f in
        ap (λ n. above n maximum) total ∙ over
    by_first t next over (q ∷ first) last e = next.needed first last (cc e)

module _ (host : Host) (window : Window host.Float) (decoded : KanyPacket)
    (s : Mdx23c host.Float) where
  -- the bound on the buffered frames
  abbrev pub maximum_frames : Result ℤ
  maximum_frames = host.round (
      host.mul (host.mul (host.ratio decoded.sample_rate 1) window.segment_seconds)
        (host.ratio window.max_buffered_segments 1))

  pub buffered :
      (z : ℤ)
      → maximum_frames ≡ ok z
      → buffer_packet host window decoded s ≡ (ok tt, trim z (append_input decoded s))
  unfolding buffer_packet
  buffered z e = rw e refl

  pub trimmed :
      (z : ℤ)
      → s.input_frames ≡ sum_frames s.input_packets
      → let t = trim z (append_input decoded s) in
        Trims z (s.input_packets ++ decoded ∷ []) s.dropped_packets (record {
          packets = t.input_packets;
          frames = t.input_frames;
          dropped = t.dropped_packets;
        })
  unfolding trim
  trimmed z counted =
      trim_loop-Trims z (s.input_packets ++ decoded ∷ []) (s.input_frames + decoded.frames)
        s.dropped_packets (omega (arith, sum_frames-append s.input_packets (decoded ∷ [])))

  -- When the bound is a number of frames `maximum`, and the frame count is right, `_buffer_packet`
  -- returns with at most that many frames. The packets that it dropped are the oldest, they are
  -- counted, the others and the new one stay in order, the count is again right, and the last packet
  -- that was dropped would have been too much.
  pub buffer_packet-Bounded :
      (maximum : ℕ)
      → maximum_frames ≡ ok (pos maximum)
      → s.input_frames ≡ sum_frames s.input_packets
      → (t : Mdx23c host.Float) × (gone : List KanyPacket) × (buffer_packet host window decoded s
          ≡ (ok tt, t))
        × (gone ++ t.input_packets ≡ s.input_packets ++ decoded ∷ [])
        × (t.input_frames ≡ sum_frames t.input_packets)
        × (t.input_frames ≤ maximum)
        × (t.dropped_packets ≡ s.dropped_packets + length gone)
        × ((first : List KanyPacket) (last : KanyPacket)
            → gone ≡ first ++ last ∷ []
            → suc maximum ≤ last.frames + sum_frames t.input_packets)
  buffer_packet-Bounded maximum e counted =
      let t = trim (pos maximum) (append_input decoded s) in
      let k = trimmed (pos maximum) counted in
      (
        t,
        k.gone,
        buffered (pos maximum) e,
        k.in_order,
        k.counted,
        bounded t.input_frames t.input_packets k.counted k.enough,
        k.drops_counted,
        λ first last g. above-lt (last.frames + sum_frames t.input_packets) (k.needed first last g),
      )
    where
      bounded :
          (n : ℕ) (ps : List KanyPacket)
          → n ≡ sum_frames ps
          → (above n (pos maximum) ≡ false) ⊎ (ps ≡ [])
          → n ≤ maximum
      bounded n ps c (inl fits) = above-le n maximum fits
      bounded n ps c (inr none_left) =
          let zero_frames : sum_frames ps ≡ 0 = ap sum_frames none_left in omega arith

      above-lt : (n : ℕ) → above n (pos maximum) ≡ true → suc maximum ≤ n
      above-lt n h = ground arith
