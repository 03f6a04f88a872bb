-- ===== src/Processors/Mdx23c/Defs.antt =====
-- mdx23c_vocals.py: the state of `MDX23CVocalsProcessor`, and how it buffers, launches and drops.
use karaoke_anything.Prelude.{
  ℕ, ◌+◌, ◌-◌, ◌*◌, not, ◌||◌, Option, none, some, List, [], ◌∷◌, ◌++◌, length, take, drop, leb,
  ◌==◌, if◌then◌else◌,
}
use karaoke_anything.Prelude.Int.{ℤ, max_ℕ, above}
use karaoke_anything.Prelude.Exec.{Exec, pure, raise, lift, modify, ◌>>=◌, ◌>>◌, continue}
use karaoke_anything.Errors
use karaoke_anything.Errors.{
  Exception, Result, ok, err, kany_error, runtime_error, value_error, cancelled_error, index_error,
  requires_kany, requires_stereo, inference_failed, wrong_sample_count,
}
use karaoke_anything.Host.{Host}
use karaoke_anything.Models.{MediaPacket, ProcessedPacket, processed}
use karaoke_anything.Kany.{Bytes, ByteOrder, KanyPacket, decode, floats, encode_samples}
use karaoke_anything.Processors.Segmented.{
  Job, Task, running, finished, split_loop, concat_samples, differs,
}
use karaoke_anything.Processors.Mdx23c.Crossfade.{Crossfaded, crossfaded}

-- The attributes that a live change of the settings may set.
pub record Window (F : Type 0) : Type 0 where
  pub segment_seconds : F
  pub overlap : F
  pub max_buffered_segments : ℕ

-- The fields that change. `F` is the host's type of floats.
pub record Mdx23c (F : Type 0) : Type 0 where
  pub input_packets : List KanyPacket
  pub input_frames : ℕ
  pub ready_output : List ProcessedPacket
  pub inference_task : Option Task
  pub active_packets : List KanyPacket
  pub stream_sample_rate : Option ℕ
  pub stream_channels : Option ℕ
  pub previous_tail : Option (List ℕ)
  pub segments_started : ℕ
  pub segments_completed : ℕ
  pub dropped_packets : ℕ
  pub underruns : ℕ
  pub last_inference_seconds : Option F
  pub last_real_time_factor : Option F
  pub last_error : Option Exception

-- `__init__`
unfoldable pub initial : {F : Type 0} → Mdx23c F
initial = record {
  input_packets = [];
  input_frames = 0;
  ready_output = [];
  inference_task = none;
  active_packets = [];
  stream_sample_rate = none;
  stream_channels = none;
  previous_tail = none;
  segments_started = 0;
  segments_completed = 0;
  dropped_packets = 0;
  underruns = 0;
  last_inference_seconds = none;
  last_real_time_factor = none;
  last_error = none;
}

-- the handler of `KanyProtocolError`, and the check of the channels behind it
unfoldable pub validate_stereo : Result KanyPacket → Result KanyPacket
validate_stereo (ok decoded) =
    if decoded.channels == 2 then ok decoded else err (requires_stereo "MDX23C" decoded.channels)
validate_stereo (err (kany_error e)) = err (requires_kany "MDX23C" e)
validate_stereo (err e) = err e

unfoldable pub decode_and_validate : ByteOrder → Bytes → Result KanyPacket
unfolding validate_stereo
decode_and_validate order payload = validate_stereo (decode order payload)

-- the sum of `p.frames * 2`
abbrev pub expected_samples : List KanyPacket → ℕ
expected_samples [] = 0
expected_samples (p ∷ ps) = p.frames * 2 + expected_samples ps

-- What the loop of `_buffer_packet` changes.
pub record Trimmed : Type 0 where
  pub packets : List KanyPacket
  pub frames : ℕ
  pub dropped : ℕ

-- `while self._input_frames > maximum and self._input_packets`
unfoldable pub trim_loop : ℤ → List KanyPacket → ℕ → ℕ → Trimmed
trim_loop maximum [] frames dropped = record { packets = []; frames = frames; dropped = dropped }
trim_loop maximum (p ∷ ps) frames dropped =
    let rest = trim_loop maximum ps (frames - p.frames) (dropped + 1) in
    if above frames maximum
    then rest
    else record { packets = p ∷ ps; frames = frames; dropped = dropped }

module _ {F : Type 0} where
  -- `reset`. The task is cancelled, and what it ends with is ignored.
  unfoldable pub reset : Mdx23c F → Mdx23c F
  reset s = record s {
    inference_task = none;
    active_packets = [];
    input_packets = [];
    ready_output = [];
    input_frames = 0;
    stream_sample_rate = none;
    stream_channels = none;
    previous_tail = none;
    last_error = none;
  }

  -- `_track_stream_format`
  unfoldable pub track_stream_format : KanyPacket → Exec (Mdx23c F) (Unit {0})
  unfolding reset
  track_stream_format packet s = elim s.stream_sample_rate [
    | none ↦ (
      ok tt,
      record s {
        stream_sample_rate = some packet.sample_rate;
        stream_channels = some packet.channels;
      },
    )
    | some rate ↦
        if not (packet.sample_rate == rate) || differs packet.channels s.stream_channels
        then (err (value_error "audio format changed; MDX23C state was reset"), reset s)
        else (ok tt, s)
  ]

  abbrev pub append_input : KanyPacket → Mdx23c F → Mdx23c F
  append_input packet s = record s {
    input_packets = s.input_packets ++ packet ∷ [];
    input_frames = s.input_frames + packet.frames;
  }

  unfoldable pub trim : ℤ → Mdx23c F → Mdx23c F
  trim maximum s =
      let kept = trim_loop maximum s.input_packets s.input_frames s.dropped_packets in
      record s {
        input_packets = kept.packets;
        input_frames = kept.frames;
        dropped_packets = kept.dropped;
      }

  -- `_launch_segment`; its loop is that of segmented_inference.py
  unfoldable pub launch : ℕ → Mdx23c F → Mdx23c F
  launch target s =
      let split = split_loop target s.input_packets [] 0 s.input_frames in
      record s {
        input_packets = split.rest;
        input_frames = split.input_frames;
        active_packets = split.packets;
        segments_started = s.segments_started + 1;
        inference_task = some (
            running (record {
              packets = split.packets;
              samples = concat_samples split.packets;
              frames = split.frames;
            }));
      }

  -- the second half of the test in `process`, and the call behind it
  unfoldable pub launch_at : ℕ → Exec (Mdx23c F) (Unit {0})
  unfolding launch
  launch_at target s = if leb target s.input_frames then (ok tt, launch target s) else (ok tt, s)

  -- the end of `process`
  unfoldable pub pop_or_count : Exec (Mdx23c F) (List ProcessedPacket)
  pop_or_count s = elim s.ready_output [
    | output ∷ rest ↦ (ok (output ∷ []), record s { ready_output = rest })
    | [] ↦ elim s.inference_task [
      | none ↦ (ok [], s)
      | some task ↦ (ok [], record s { underruns = s.underruns + 1 })
    ]
  ]

  -- the loop of `flush`
  unfoldable pub pop_all : Exec (Mdx23c F) (List ProcessedPacket)
  pop_all s = (ok s.ready_output, record s { ready_output = [] })

  abbrev pub clear_active : Mdx23c F → Mdx23c F
  clear_active s = record s { active_packets = [] }

  abbrev note_error : Exception → Mdx23c F → Mdx23c F
  note_error e s = record s { last_error = some e }

  -- `_await_segment_result`, once the task has ended. A `CancelledError` is no `Exception`.
  unfoldable pub await_segment_result : Result (List ℕ) → Exec (Mdx23c F) (List ℕ)
  await_segment_result (ok output) = pure output
  await_segment_result (err cancelled_error) = raise cancelled_error
  await_segment_result (err e) = do
    modify clear_active
    modify (note_error e)
    raise (inference_failed "MDX23C" e)

  -- `_finish_segment`
  unfoldable pub finish_segment : Mdx23c F → Mdx23c F
  finish_segment s = record s {
    active_packets = [];
    segments_completed = s.segments_completed + 1;
    last_error = none;
  }

  abbrev pub append_ready : Bytes → Mdx23c F → Mdx23c F
  append_ready payload s = record s { ready_output = s.ready_output ++ processed payload ∷ [] }

  -- `self._previous_tail = …`
  abbrev pub keep_tail : Option (List ℕ) → Mdx23c F → Mdx23c F
  keep_tail tail s = record s { previous_tail = tail }

module _ {F : Type 0} (order : ByteOrder) where
  -- the loop of `_distribute_segment_output`, `offset` samples behind the start
  unfoldable pub distribute_loop : List ℕ → List KanyPacket → ℕ → Exec (Mdx23c F) (Unit {0})
  distribute_loop output [] offset s = (ok tt, s)
  distribute_loop output (original ∷ rest) offset s =
      let count = original.frames * 2 in
      let step = encode_samples order original (floats (take count (drop offset output))) in
      elim step [
        | ok payload ↦ distribute_loop output rest (offset + count) (append_ready payload s)
        | err e ↦ (err e, s)
      ]

module _ (host : Host) (window : Window host.Float) where
  abbrev State : Type 0
  State = Mdx23c host.Float

  -- the call of `_crossfade`, and the loop behind it
  unfoldable pub distribute_crossfaded : Crossfaded → Exec State (Unit {0})
  unfolding distribute_loop
  distribute_crossfaded result s =
      distribute_loop host.byteorder result.output s.active_packets 0 (keep_tail result.tail s)

  unfoldable pub distribute_segment_output : List ℕ → Exec State (Unit {0})
  unfolding distribute_crossfaded
  distribute_segment_output output s =
      let expected = expected_samples s.active_packets in
      if length output == expected
      then continue (crossfaded host window.overlap output s.previous_tail) distribute_crossfaded s
      else (err (wrong_sample_count "MDX23C" (length output) expected), clear_active s)

  unfoldable pub harvest_inference : Exec State (Unit {0})
  harvest_inference s = elim s.inference_task [
    | none ↦ (ok tt, s)
    | some (running job) ↦ (ok tt, s)
    | some (finished result) ↦
        (do
          output ← await_segment_result result
          distribute_segment_output output
          modify finish_segment)
          (record s { inference_task = none })
  ]

  -- `_buffer_packet`
  unfoldable pub buffer_packet : KanyPacket → Exec State (Unit {0})
  unfolding trim
  buffer_packet decoded = do
    modify (append_input decoded)
    maximum ← lift (
        host.round (
          host.mul (host.mul (host.ratio decoded.sample_rate 1) window.segment_seconds)
            (host.ratio window.max_buffered_segments 1)))
    modify (trim maximum)

  -- Frame counts are compared with the target, and none is below zero: a negative target counts
  -- as zero. The assertion is written as an error.
  unfoldable pub target_segment_frames : State → Result ℕ
  target_segment_frames s = elim s.stream_sample_rate [
    | none ↦ err (runtime_error "AssertionError")
    | some rate ↦
        Errors.◌>>=◌ (host.round (host.mul (host.ratio rate 1) window.segment_seconds))
          λ z. ok (max_ℕ 0 z)
  ]

  -- `if self._inference_task is None and self._input_frames >= …: self._launch_segment()`
  unfoldable pub launch_if_ready : Exec State (Unit {0})
  unfolding launch_at target_segment_frames
  launch_if_ready s = elim s.inference_task [
    | none ↦ continue (target_segment_frames s) launch_at s
    | some task ↦ (ok tt, s)
  ]

  -- The packets that the generator yields. It raises before the first one, if it raises.
  unfoldable pub process : MediaPacket host.Float → Exec State (List ProcessedPacket)
  process packet = do
    harvest_inference
    decoded ← lift (decode_and_validate host.byteorder packet.payload)
    track_stream_format decoded
    buffer_packet decoded
    launch_if_ready
    pop_or_count

  unfoldable pub flush : Exec State (List ProcessedPacket)
  flush = do harvest_inference; pop_all

-- The end of the coroutine `run`, on the event loop: `run_inference` is `_run_inference` on its
-- worker thread, and `elapsed` what `time.perf_counter` measured.
module _ (host : Host) (run_inference : List ℕ → ℕ → ℕ → Result (List ℕ))
    (elapsed : host.Float) where
  abbrev note_seconds : Mdx23c host.Float → Mdx23c host.Float
  note_seconds s = record s { last_inference_seconds = some elapsed }

  abbrev note_factor : host.Float → Mdx23c host.Float → Mdx23c host.Float
  note_factor factor s = record s { last_real_time_factor = some factor }

  unfoldable pub infer : Job → Exec (Mdx23c host.Float) (List ℕ)
  infer job s = elim job.packets [
    | [] ↦ (err index_error, s)
    | first ∷ _ ↦
        (do
          result ← lift (run_inference job.samples first.sample_rate 2)
          modify note_seconds
          duration ← lift (host.div (host.ratio job.frames 1) (host.ratio first.sample_rate 1))
          factor ← lift (host.div elapsed duration)
          modify (note_factor factor)
          pure result)
          s
  ]

  unfoldable pub complete : Mdx23c host.Float → Mdx23c host.Float
  unfolding infer
  complete s = elim s.inference_task [
    | none ↦ s
    | some (finished result) ↦ s
    | some (running job) ↦
        let ended = infer job s in record (ended.1) { inference_task = some (finished ended.0) }
  ]
