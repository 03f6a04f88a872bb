-- ===== src/Processors/Tests.antt =====
-- segmented_inference.py and htdemucs.py: the theorems at a stream of stereo datagrams of one frame,
-- at two frames a second, in segments of one second.
use karaoke_anything.Prelude.{
  length, ℕ, subst, ◌≤◌, map, same_bytes, ◌≡◌, refl, List, [], ◌∷◌, ◌++◌, All, none, some, arith,
}
use karaoke_anything.Errors.{ok-injective, Result, ok, err, requires_stereo}
use karaoke_anything.Models.{MediaPacket, received, ProcessedPacket, processed}
use karaoke_anything.Kany.{
  floats, Bytes, IsByte, IsWord, little, big, frombytes, tobytes, read_samples, decode,
  encode_samples, validate_header, validate_preamble, validate_version_and_format,
  parse_header_fields, validate_body_length, KanyPacket,
}
use karaoke_anything.Kany.RoundTrip.{IsPacket, decode-IsPacket}
use karaoke_anything.Fixtures.{
  stereo_payload, stereo_words, stereo_packet, stereo-IsByte, stereo_decodes, toy_host,
}
use karaoke_anything.Processors.Segmented.{
  Segmented, Subclass, finished, initial, split_loop, accept_stream_format, pop_ready, pop_all,
  await_segment_result, finish_segment, reset, launch, distribute_loop, distribute_segment_output,
  harvest_inference, target_segment_frames, segment_ready, launch_segment, launch_if_ready, process,
  flush, infer, complete, sum_frames, concat_samples,
}
use karaoke_anything.Processors.Segmented.Launch.{Minimal, launch-Minimal}
use karaoke_anything.Processors.Segmented.Failures.{Raised, process_raises}
use karaoke_anything.Processors.Segmented.Pace.{available, process_pace, distribute_samples}
use karaoke_anything.Processors.Segmented.Fifo.{packet_headers, output_headers, pending}
use karaoke_anything.Processors.Segmented.Invariant.{IsOutput, Inv, initial-Inv}
use karaoke_anything.Processors.Segmented.History.{
  Call, processes, resets, ends, IsSound, step, run, AllReturn, arrived, run-Inv, run-Fifo,
}
use karaoke_anything.Processors.Segmented.Refines
use karaoke_anything.Processors.Segmented.Refines.{run-Run}
use karaoke_anything.Processors.Pipeline.{Run}
use karaoke_anything.Processors.Centre.{process_stereo}
use karaoke_anything.Processors.Centre.Output.{process_stereo_lem}
use karaoke_anything.Processors.Htdemucs.{
  htdemucs, htdemucs-Lawful, decode_and_validate, validate_stereo,
}

abbrev model : Subclass
model = htdemucs little

abbrev stereo : MediaPacket ℕ
stereo = received stereo_payload "sender" 5006 1

-- one channel, one frame
abbrev mono_payload : Bytes
mono_payload =
    75 ∷ 65 ∷ 78 ∷ 89 ∷ 1 ∷ 0 ∷ 1 ∷ 1 ∷ 0 ∷ 0 ∷ 0 ∷ 2 ∷ 0 ∷ 0 ∷ 0 ∷ 8 ∷ 0 ∷ 0 ∷ 0 ∷ 0 ∷ 0 ∷ 0 ∷ 0
    ∷ 9 ∷ 0 ∷ 1 ∷ 0 ∷ 0 ∷ 0 ∷ 0 ∷ 128 ∷ 63 ∷ []

abbrev mono : MediaPacket ℕ
mono = received mono_payload "sender" 5006 1

abbrev separate : List ℕ → ℕ → ℕ → Result (List ℕ)
separate samples rate channels = ok (stereo_words ++ stereo_words)

-- two datagrams, the end of the inference they start, and a third
abbrev calls : List (Call ℕ)
calls = processes stereo ∷ processes stereo ∷ ends separate 1 ∷ []

abbrev buffered : Segmented ℕ
buffered = record initial {
  input_packets = stereo_packet ∷ stereo_packet ∷ [];
  input_frames = 2;
  stream_sample_rate = some 2;
  stream_channels = some 2;
}

abbrev separated : Segmented ℕ
separated = record buffered {
  input_packets = [];
  input_frames = 0;
  active_packets = stereo_packet ∷ stereo_packet ∷ [];
  segments_started = 1;
  inference_task = some (finished (ok (stereo_words ++ stereo_words)));
  last_inference_seconds = some 1;
  last_real_time_factor = some 1;
}

abbrev resumed : Segmented ℕ
resumed = record separated {
  input_packets = stereo_packet ∷ [];
  input_frames = 1;
  active_packets = [];
  inference_task = none;
  ready_output = processed stereo_payload ∷ [];
  segments_completed = 1;
}

run-calls : (run toy_host model 1000 calls initial).1 ≡ separated
unfolding same_bytes initial run step decode validate_header validate_preamble
    validate_version_and_format parse_header_fields validate_body_length read_samples frombytes
    tobytes encode_samples decode_and_validate validate_stereo split_loop accept_stream_format
    pop_ready pop_all await_segment_result finish_segment reset launch distribute_loop
    distribute_segment_output harvest_inference target_segment_frames segment_ready launch_segment
    launch_if_ready process flush infer complete
run-calls = refl

resumes :
    process toy_host model 1000 stereo separated ≡ (ok (processed stereo_payload ∷ []), resumed)
unfolding same_bytes initial run step decode validate_header validate_preamble
    validate_version_and_format parse_header_fields validate_body_length read_samples frombytes
    tobytes encode_samples decode_and_validate validate_stereo split_loop accept_stream_format
    pop_ready pop_all await_segment_result finish_segment reset launch distribute_loop
    distribute_segment_output harvest_inference target_segment_frames segment_ready launch_segment
    launch_if_ready process flush infer complete
resumes = refl

rejects_mono :
    process toy_host model 1000 mono buffered
    ≡ (err (requires_stereo "HTDemucs prototype" 1), buffered)
unfolding same_bytes initial run step decode validate_header validate_preamble
    validate_version_and_format parse_header_fields validate_body_length read_samples frombytes
    tobytes encode_samples decode_and_validate validate_stereo split_loop accept_stream_format
    pop_ready pop_all await_segment_result finish_segment reset launch distribute_loop
    distribute_segment_output harvest_inference target_segment_frames segment_ready launch_segment
    launch_if_ready process flush infer complete
rejects_mono = refl

mono-IsByte : All IsByte mono_payload
mono-IsByte = omega arith

stereo-IsWord : All IsWord (stereo_words ++ stereo_words)
stereo-IsWord = omega arith

calls-IsSound : All IsSound calls
calls-IsSound = (
  stereo-IsByte,
  (
    stereo-IsByte,
    ((λ samples rate channels ws h. subst (All IsWord) (ok-injective h) stereo-IsWord), tt),
  ),
)

calls_return : AllReturn toy_host model 1000 calls initial
unfolding same_bytes initial run step decode validate_header validate_preamble
    validate_version_and_format parse_header_fields validate_body_length read_samples frombytes
    tobytes encode_samples decode_and_validate validate_stereo split_loop accept_stream_format
    pop_ready pop_all await_segment_result finish_segment reset launch distribute_loop
    distribute_segment_output harvest_inference target_segment_frames segment_ready launch_segment
    launch_if_ready process flush infer complete
calls_return = (tt, (tt, (tt, tt)))

separated-Inv : Inv little separated
separated-Inv =
    subst (Inv little) run-calls
      (run-Inv toy_host model 1000 (htdemucs-Lawful little) calls initial calls-IsSound
        (initial-Inv little)).0

stereo-IsPacket : IsPacket stereo_packet
stereo-IsPacket =
    (decode-IsPacket little stereo_payload stereo_packet stereo-IsByte (stereo_decodes little)).0

buffered-Inv : Inv little buffered
unfolding initial
buffered-Inv = record {
  counted = refl;
  inputs = (stereo-IsPacket, (stereo-IsPacket, tt));
  actives = tt;
  outputs = tt;
  task = refl;
}

launch-Minimal_example :
    let t = launch 2 buffered in (2 ≤ sum_frames t.active_packets) × Minimal 2 t.active_packets
launch-Minimal_example = launch-Minimal 2 buffered refl (omega arith) (omega arith)

process_pace_example :
    (1 ≤ 1)
    × (processed stereo_payload ∷ [] ≡ [] → resumed.ready_output ≡ [])
    × (processed stereo_payload ∷ resumed.ready_output
        ≡ available little separated separated.inference_task)
process_pace_example =
    process_pace toy_host model 1000 stereo separated resumed (processed stereo_payload ∷ [])
      resumes

process_raises_example :
    Raised toy_host model 1000 mono buffered buffered (requires_stereo "HTDemucs prototype" 1)
process_raises_example =
    process_raises toy_host model 1000 (htdemucs-Lawful little) mono buffered buffered
      (requires_stereo "HTDemucs prototype" 1) mono-IsByte buffered-Inv rejects_mono

distribute_samples_example :
    (outs : List ProcessedPacket) × (ps : List KanyPacket) × (distribute_segment_output toy_host
        model 1000
        (stereo_words ++ stereo_words)
        separated
      ≡ (ok tt, record separated { ready_output = outs }))
    × (map (λ out. decode big out.payload) outs ≡ map ok ps)
    × (packet_headers ps ≡ packet_headers (stereo_packet ∷ stereo_packet ∷ []))
    × (concat_samples ps ≡ stereo_words ++ stereo_words)
unfolding initial
distribute_samples_example =
    distribute_samples toy_host model 1000 big (stereo_words ++ stereo_words) separated
      (stereo-IsPacket, (stereo-IsPacket, tt)) (omega arith) refl

run-Inv_example :
    Inv little (run toy_host model 1000 calls initial).1
    × All (IsOutput little) (run toy_host model 1000 calls initial).0
run-Inv_example =
    run-Inv toy_host model 1000 (htdemucs-Lawful little) calls initial calls-IsSound
      (initial-Inv little)

run-Fifo_example :
    output_headers (run toy_host model 1000 calls initial).0
      ++ pending (run toy_host model 1000 calls initial).1
    ≡ pending {F = ℕ} initial ++ arrived calls
run-Fifo_example =
    run-Fifo toy_host model 1000 (htdemucs-Lawful little) calls initial calls-IsSound
      (initial-Inv little) calls_return

stored : (x : ℕ) → IsWord (toy_host.store x)
stored x = omega arith

process_stereo_lem_example :
    (out : Bytes) × (ws : List ℕ) × (process_stereo toy_host 700 stereo ≡ ok (processed out ∷ []))
    × (decode big out ≡ ok (record stereo_packet { samples = floats ws }))
    × (length ws ≡ length stereo_packet.samples.items)
process_stereo_lem_example =
    process_stereo_lem toy_host 700 stored big stereo stereo_packet stereo-IsByte
      (stereo_decodes little) refl

-- a datagram that is refused, and a reset
abbrev mixed_calls : List (Call ℕ)
mixed_calls = processes stereo ∷ processes mono ∷ resets ∷ calls

mixed_calls-IsSound : All IsSound mixed_calls
mixed_calls-IsSound = (stereo-IsByte, (mono-IsByte, (tt, calls-IsSound)))

run-Run_example :
    Run
      (Refines.view {F = ℕ} initial)
      (arrived mixed_calls)
      (output_headers (run toy_host model 1000 mixed_calls initial).0)
      (Refines.view (run toy_host model 1000 mixed_calls initial).1)
run-Run_example =
    run-Run toy_host model 1000 (htdemucs-Lawful little) mixed_calls initial mixed_calls-IsSound
      (initial-Inv little)
