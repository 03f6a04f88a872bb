-- ===== src/Processors/Mdx23c/Tests.antt =====
-- mdx23c_vocals.py: the theorems at stereo datagrams of one frame, at two frames a second, in
-- segments of one second that overlap by one frame.
use karaoke_anything.Prelude.{
  ℕ, ◌+◌, ◌≤◌, ◌≡◌, refl, subst, same_bytes, some, List, [], ◌∷◌, ◌++◌, length, All, arith,
}
use mathlib.Core.List.{Sublist}
use karaoke_anything.Prelude.Int.{pos}
use karaoke_anything.Errors.{Result, ok, ok-injective}
use karaoke_anything.Models.{MediaPacket, received, processed}
use karaoke_anything.Kany.{
  IsWord, little, frombytes, tobytes, read_samples, decode, encode_samples, validate_header,
  validate_preamble, validate_version_and_format, parse_header_fields, validate_body_length,
  KanyPacket,
}
use karaoke_anything.Fixtures.{
  stereo_header, stereo_payload, stereo_packet, stereo-IsByte, toy_host,
}
use karaoke_anything.Processors.Segmented.{split_loop, sum_frames}
use karaoke_anything.Processors.Segmented.Fifo.{output_headers}
use karaoke_anything.Processors.Segmented.Invariant.{IsOutput}
use karaoke_anything.Processors.Segmented.History.{Call, processes, flushes, ends, IsSound, arrived}
use karaoke_anything.Processors.Pipeline.{Run, contents}
use karaoke_anything.Processors.Mdx23c.Crossfade.{
  Crossfaded, crossfaded, mix_item, crossfade_loop, mix, usable_tail, new_tail, overlap_frames_of,
}
use karaoke_anything.Processors.Mdx23c.Formula.{Formula, crossfaded-Formula}
use karaoke_anything.Processors.Mdx23c.Defs.{
  Mdx23c, Window, initial, validate_stereo, decode_and_validate, trim_loop, reset,
  track_stream_format, trim, launch, launch_at, pop_or_count, pop_all, await_segment_result,
  finish_segment, distribute_loop, distribute_crossfaded, distribute_segment_output,
  harvest_inference, buffer_packet, target_segment_frames, launch_if_ready, process, flush, infer,
  complete,
}
use karaoke_anything.Processors.Mdx23c.Trim.{buffer_packet-Bounded}
use karaoke_anything.Processors.Mdx23c.Invariant.{Inv, initial-Inv}
use karaoke_anything.Processors.Mdx23c.Methods.{view}
use karaoke_anything.Processors.Mdx23c.History.{
  step, run_calls, run_calls-Run, run_calls-Inv, run_calls-InOrder,
}

abbrev window : Window ℕ
window = record { segment_seconds = 1000; overlap = 500; max_buffered_segments = 3 }

abbrev stereo : MediaPacket ℕ
stereo = received stereo_payload "sender" 5006 1

abbrev separate : List ℕ → ℕ → ℕ → Result (List ℕ)
separate samples rate channels = ok (1000 ∷ 2000 ∷ 3000 ∷ 4000 ∷ [])

-- two segments
abbrev calls : List (Call ℕ)
calls =
    processes stereo
    ∷ processes stereo
    ∷ ends separate 1
    ∷ processes stereo
    ∷ processes stereo
    ∷ ends separate 1
    ∷ flushes
    ∷ []

abbrev first_segment : Mdx23c ℕ
first_segment = record initial {
  input_packets = stereo_packet ∷ stereo_packet ∷ [];
  input_frames = 2;
  stream_sample_rate = some 2;
  stream_channels = some 2;
}

-- The second segment's first frame is half the last frame of the segment before it: 3000 and 1000
-- give 2000, and 4000 and 2000 give 3000.
yields : (run_calls toy_host window calls initial).0 ≡ (
    processed (stereo_header ++ 232 ∷ 3 ∷ 0 ∷ 0 ∷ 208 ∷ 7 ∷ 0 ∷ 0 ∷ [])
    ∷ processed (stereo_header ++ 184 ∷ 11 ∷ 0 ∷ 0 ∷ 160 ∷ 15 ∷ 0 ∷ 0 ∷ [])
    ∷ processed (stereo_header ++ 208 ∷ 7 ∷ 0 ∷ 0 ∷ 184 ∷ 11 ∷ 0 ∷ 0 ∷ [])
    ∷ processed (stereo_header ++ 184 ∷ 11 ∷ 0 ∷ 0 ∷ 160 ∷ 15 ∷ 0 ∷ 0 ∷ [])
    ∷ [])
unfolding same_bytes initial run_calls step decode validate_header validate_preamble
    validate_version_and_format parse_header_fields validate_body_length read_samples frombytes
    tobytes encode_samples decode_and_validate validate_stereo split_loop trim_loop reset
    track_stream_format trim launch launch_at pop_or_count pop_all await_segment_result
    finish_segment distribute_loop distribute_crossfaded distribute_segment_output harvest_inference
    buffer_packet target_segment_frames launch_if_ready process flush infer complete crossfaded
    mix_item crossfade_loop mix usable_tail new_tail overlap_frames_of
yields = refl

stored : (x : ℕ) → IsWord (toy_host.store x)
stored x = omega arith

separate-IsWord : All IsWord (1000 ∷ 2000 ∷ 3000 ∷ 4000 ∷ [])
separate-IsWord = omega arith

calls-IsSound : All IsSound calls
calls-IsSound =
    (stereo-IsByte, (stereo-IsByte, (words, (stereo-IsByte, (stereo-IsByte, (words, (tt, tt)))))))
  where
    words :
        (samples : List ℕ) (rate channels : ℕ) (ws : List ℕ)
        → separate samples rate channels ≡ ok ws
        → All IsWord ws
    words samples rate channels ws h = subst (All IsWord) (ok-injective h) separate-IsWord

abbrev segment : List ℕ
segment = 1000 ∷ 2000 ∷ 3000 ∷ 4000 ∷ []

crossfaded-Formula_example :
    (result : Crossfaded) × (crossfaded toy_host 500 segment (some (3000 ∷ 4000 ∷ [])) ≡ ok result)
    × Formula toy_host segment (some (3000 ∷ 4000 ∷ [])) result (pos 1)
crossfaded-Formula_example =
    crossfaded-Formula toy_host 500 segment (some (3000 ∷ 4000 ∷ [])) (pos 1) refl

-- room for two frames
abbrev narrow : Window ℕ
narrow = record { segment_seconds = 1000; overlap = 500; max_buffered_segments = 1 }

buffer_packet-Bounded_example :
    (t : Mdx23c ℕ) × (gone : List KanyPacket) × (buffer_packet toy_host narrow stereo_packet
        first_segment
      ≡ (ok tt, t))
    × (gone ++ t.input_packets ≡ stereo_packet ∷ stereo_packet ∷ stereo_packet ∷ [])
    × (t.input_frames ≡ sum_frames t.input_packets)
    × (t.input_frames ≤ 2)
    × (t.dropped_packets ≡ 0 + length gone)
    × ((first : List KanyPacket) (last : KanyPacket)
        → gone ≡ first ++ last ∷ []
        → 3 ≤ last.frames + sum_frames t.input_packets)
unfolding initial
buffer_packet-Bounded_example =
    buffer_packet-Bounded toy_host narrow stereo_packet first_segment 2 refl refl

run_calls-Run_example :
    Run
      (view {F = ℕ} initial)
      (arrived calls)
      (output_headers (run_calls toy_host window calls initial).0)
      (view (run_calls toy_host window calls initial).1)
run_calls-Run_example =
    run_calls-Run toy_host window stored calls initial calls-IsSound (initial-Inv little)

run_calls-Inv_example :
    Inv little (run_calls toy_host window calls initial).1
    × All (IsOutput little) (run_calls toy_host window calls initial).0
run_calls-Inv_example =
    run_calls-Inv toy_host window stored calls initial calls-IsSound (initial-Inv little)

run_calls-InOrder_example :
    Sublist
      (output_headers (run_calls toy_host window calls initial).0
        ++ contents (view (run_calls toy_host window calls initial).1))
      (contents (view {F = ℕ} initial) ++ arrived calls)
run_calls-InOrder_example =
    run_calls-InOrder toy_host window stored calls initial calls-IsSound (initial-Inv little)
