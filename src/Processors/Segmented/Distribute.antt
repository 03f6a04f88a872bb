-- ===== src/Processors/Segmented/Distribute.antt =====
-- segmented_inference.py, `_distribute_segment_output`: the separated samples cut back into packets.
use karaoke_anything.Prelude.{
  ℕ, ◌+◌, ◌*◌, ◌≡◌, refl, sym, ap, ◌∙◌, List, [], ◌∷◌, ◌++◌, map, append-nil, append_assoc, length,
  take, drop, length-take, length-drop, drop-drop, take-append-drop, arith,
}
use karaoke_anything.Errors.{ok}
use karaoke_anything.Models.{ProcessedPacket, processed}
use karaoke_anything.Kany.{ByteOrder, KanyPacket, floats, tobytes, to_little}
use karaoke_anything.Kany.RoundTrip.{encode_total}
use karaoke_anything.Processors.Segmented.Defs.{
  Segmented, distribute_loop, expected_samples, concat_samples,
}

-- the packets with the samples of `ws`, each as many as it had
abbrev pub resliced : List KanyPacket → List ℕ → List KanyPacket
resliced [] ws = []
resliced (p ∷ ps) ws =
    record p { samples = floats (take (p.frames * p.channels) ws) }
    ∷ resliced ps (drop (p.frames * p.channels) ws)

-- a packet as `encode_samples` writes it
abbrev pub written : ByteOrder → KanyPacket → ProcessedPacket
written order p = processed (p.raw_header ++ tobytes order (to_little order p.samples.items))

pub concat-resliced :
    (ps : List KanyPacket) (ws : List ℕ)
    → length ws ≡ expected_samples ps
    → concat_samples (resliced ps ws) ≡ ws
concat-resliced [] [] h = refl
concat-resliced [] (w ∷ ws) h = absurd (omega arith)
concat-resliced (p ∷ ps) ws h =
    let count = p.frames * p.channels in
    ap (◌++◌ (take count ws))
      (concat-resliced ps (drop count ws) (omega (arith, length-drop count ws)))
    ∙ take-append-drop count ws

module _ {F : Type 0} (order : ByteOrder) where
  pub distribute_loop_lem :
      (separated : List ℕ) (ps : List KanyPacket) (offset : ℕ) (s : Segmented F)
      → length separated ≡ offset + expected_samples ps
      → distribute_loop order separated ps offset s ≡ (
        ok tt,
        record s {
          ready_output =
              s.ready_output ++ map (written order) (resliced ps (drop offset separated));
        },
      )
  unfolding distribute_loop
  distribute_loop_lem separated [] offset s h =
      ap (λ r. (ok tt, record s { ready_output = r })) (sym (append-nil s.ready_output))
  distribute_loop_lem separated (p ∷ ps) offset s h =
      let count = p.frames * p.channels in
      let part = take count (drop offset separated) in
      let fits : length part ≡ p.channels * p.frames =
        omega (arith, length-take count (drop offset separated), length-drop offset separated) in
      let q : KanyPacket = record p { samples = floats part } in
      rw (encode_total order p part fits, distribute_loop)
        (distribute_loop_lem separated ps (offset + count)
            (record s { ready_output = s.ready_output ++ written order q ∷ [] }) (omega arith)
          ∙ ap (λ r. (ok tt, record s { ready_output = r }))
              (append_assoc s.ready_output (written order q ∷ [])
                  (map (written order) (resliced ps (drop (offset + count) separated)))
                ∙ ap
                    (λ rest.
                      s.ready_output ++ written order q ∷ map (written order) (resliced ps rest))
                    (sym (drop-drop offset count separated))))
