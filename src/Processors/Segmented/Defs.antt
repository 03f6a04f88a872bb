-- ===== src/Processors/Segmented/Defs.antt =====
-- segmented_inference.py: the state of the processor and its methods.
use karaoke_anything.Prelude.{
  ℕ, ◌+◌, ◌-◌, ◌*◌, String, Bool, true, not, ◌||◌, Option, none, some, List, [], ◌∷◌, ◌++◌, length,
  take, drop, ltb, leb, ◌==◌, if◌then◌else◌,
}
use karaoke_anything.Prelude.Int.{max_ℕ}
use karaoke_anything.Prelude.Exec.{Exec, pure, raise, lift, modify, skip, ◌>>=◌, ◌>>◌, continue}
use karaoke_anything.Errors
use karaoke_anything.Errors.{
  Exception, Result, ok, err, runtime_error, cancelled_error, index_error, inference_failed,
  wrong_sample_count, format_changed,
}
use karaoke_anything.Host.{Host}
use karaoke_anything.Models.{MediaPacket, ProcessedPacket, processed}
use karaoke_anything.Kany.{Bytes, ByteOrder, KanyPacket, floats, encode_samples}

-- What the closure `infer` of `_launch_segment` captures.
pub record Job : Type 0 where
  pub packets : List KanyPacket
  pub samples : List ℕ
  pub frames : ℕ

-- `asyncio.Task[array]`: its coroutine has not ended, or it has returned or raised.
pub data Task : Type 0 where
  running : Job → Task
  finished : Result (List ℕ) → Task

-- The fields that change. `F` is the host's type of floats.
pub record Segmented (F : Type 0) : Type 0 where
  pub input_packets : List KanyPacket
  pub input_frames : ℕ
  pub ready_output : List ProcessedPacket
  pub inference_task : Option Task
  pub active_packets : List KanyPacket
  pub stream_sample_rate : Option ℕ
  pub stream_channels : Option ℕ
  pub segments_started : ℕ
  pub segments_completed : ℕ
  pub last_inference_seconds : Option F
  pub last_real_time_factor : Option F
  pub last_error : Option Exception

-- `__init__`
unfoldable pub initial : {F : Type 0} → Segmented F
initial = record {
  input_packets = [];
  input_frames = 0;
  ready_output = [];
  inference_task = none;
  active_packets = [];
  stream_sample_rate = none;
  stream_channels = none;
  segments_started = 0;
  segments_completed = 0;
  last_inference_seconds = none;
  last_real_time_factor = none;
  last_error = none;
}

-- What a subclass supplies.
pub record Subclass : Type 0 where
  pub model_label : String
  pub decode_and_validate : Bytes → Result KanyPacket

abbrev pub sum_frames : List KanyPacket → ℕ
sum_frames [] = 0
sum_frames (p ∷ ps) = p.frames + sum_frames ps

-- `samples.extend(current.samples)` for each packet
abbrev pub concat_samples : List KanyPacket → List ℕ
concat_samples [] = []
concat_samples (p ∷ ps) = p.samples.items ++ concat_samples ps

-- the sum of `packet.frames * packet.channels`
abbrev pub expected_samples : List KanyPacket → ℕ
expected_samples [] = 0
expected_samples (p ∷ ps) = p.frames * p.channels + expected_samples ps

-- The variables of the loop of `_launch_segment`.
pub record Split : Type 0 where
  pub packets : List KanyPacket
  pub rest : List KanyPacket
  pub frames : ℕ
  pub input_frames : ℕ

-- `while self._input_packets and frames < target`
unfoldable pub split_loop : ℕ → List KanyPacket → List KanyPacket → ℕ → ℕ → Split
split_loop target [] packets frames input_frames = record {
  packets = packets;
  rest = [];
  frames = frames;
  input_frames = input_frames;
}
split_loop target (current ∷ rest) packets frames input_frames =
    let next =
      split_loop target rest (packets ++ current ∷ []) (frames + current.frames)
        (input_frames - current.frames) in
    if ltb frames target then next else record {
      packets = packets;
      rest = current ∷ rest;
      frames = frames;
      input_frames = input_frames;
    }

-- `n != o`, where `o` may be `None`
abbrev pub differs : ℕ → Option ℕ → Bool
differs n none = true
differs n (some m) = not (n == m)

module _ {F : Type 0} where
  -- `_accept_stream_format`
  unfoldable pub accept_stream_format : KanyPacket → Exec (Segmented F) (Unit {0})
  accept_stream_format packet s = elim s.stream_sample_rate [
    | none ↦ (
      ok tt,
      record s {
        stream_sample_rate = some packet.sample_rate;
        stream_channels = some packet.channels;
      },
    )
    | some rate ↦
        if not (packet.sample_rate == rate) || differs packet.channels s.stream_channels
        then (err (format_changed rate s.stream_channels packet.sample_rate packet.channels), s)
        else (ok tt, s)
  ]

  -- `self._input_packets.append(decoded)` and the frame count
  abbrev pub append_input : KanyPacket → Segmented F → Segmented F
  append_input packet s = record s {
    input_packets = s.input_packets ++ packet ∷ [];
    input_frames = s.input_frames + packet.frames;
  }

  -- `self._ready_output.popleft()`, if there is one
  unfoldable pub pop_ready : Exec (Segmented F) (List ProcessedPacket)
  pop_ready s = elim s.ready_output [
    | [] ↦ (ok [], s)
    | output ∷ rest ↦ (ok (output ∷ []), record s { ready_output = rest })
  ]

  -- the loop of `flush`
  unfoldable pub pop_all : Exec (Segmented F) (List ProcessedPacket)
  pop_all s = (ok s.ready_output, record s { ready_output = [] })

  abbrev clear_active : Segmented F → Segmented F
  clear_active s = record s { active_packets = [] }

  abbrev note_error : Exception → Segmented F → Segmented F
  note_error e s = record s { last_error = some e }

  -- `_await_segment_result`, once the task has ended
  unfoldable pub await_segment_result : String → Result (List ℕ) → Exec (Segmented F) (List ℕ)
  await_segment_result label (ok separated) = pure separated
  await_segment_result label (err cancelled_error) = do modify clear_active; raise cancelled_error
  await_segment_result label (err e) = do
    modify (note_error e)
    modify clear_active
    raise (inference_failed label e)

  abbrev append_ready : Bytes → Segmented F → Segmented F
  append_ready payload s = record s { ready_output = s.ready_output ++ processed payload ∷ [] }

  -- `_finish_segment`
  unfoldable pub finish_segment : Segmented F → Segmented F
  finish_segment s = record s {
    active_packets = [];
    segments_completed = s.segments_completed + 1;
    last_error = none;
  }

  -- `reset`. The task is cancelled, and what it ends with is ignored.
  unfoldable pub reset : Segmented F → Segmented F
  reset s = record s {
    inference_task = none;
    active_packets = [];
    input_packets = [];
    input_frames = 0;
    ready_output = [];
    stream_sample_rate = none;
    stream_channels = none;
    last_error = none;
  }

  -- `_launch_segment` behind its first line, the call of `_target_segment_frames`
  unfoldable pub launch : ℕ → Segmented F → Segmented F
  launch target s =
      let split = split_loop target s.input_packets [] 0 s.input_frames in
      record s {
        input_packets = split.rest;
        input_frames = split.input_frames;
        active_packets = split.packets;
        segments_started = s.segments_started + 1;
        inference_task = some (
            running (record {
              packets = split.packets;
              samples = concat_samples split.packets;
              frames = split.frames;
            }));
      }

module _ {F : Type 0} (order : ByteOrder) where
  -- the loop of `_distribute_segment_output`, `offset` samples behind the start
  unfoldable pub distribute_loop : List ℕ → List KanyPacket → ℕ → Exec (Segmented F) (Unit {0})
  distribute_loop separated [] offset s = (ok tt, s)
  distribute_loop separated (original ∷ rest) offset s =
      let count = original.frames * original.channels in
      let step = encode_samples order original (floats (take count (drop offset separated))) in
      elim step [
        | ok payload ↦ distribute_loop separated rest (offset + count) (append_ready payload s)
        | err e ↦ (err e, s)
      ]

module _ (host : Host) (subclass : Subclass) (segment_seconds : host.Float) where
  abbrev State : Type 0
  State = Segmented host.Float

  unfoldable pub distribute_segment_output : List ℕ → Exec State (Unit {0})
  unfolding distribute_loop
  distribute_segment_output separated s =
      let expected = expected_samples s.active_packets in
      if length separated == expected
      then distribute_loop host.byteorder separated s.active_packets 0 s
      else (
        err (wrong_sample_count subclass.model_label (length separated) expected),
        clear_active s,
      )

  unfoldable pub harvest_inference : Exec State (Unit {0})
  harvest_inference s = elim s.inference_task [
    | none ↦ (ok tt, s)
    | some (running job) ↦ (ok tt, s)
    | some (finished result) ↦
        (do
          separated ← await_segment_result subclass.model_label result
          distribute_segment_output separated
          modify finish_segment)
          (record s { inference_task = none })
  ]

  unfoldable pub target_segment_frames : State → Result ℕ
  target_segment_frames s = elim s.stream_sample_rate [
    | none ↦ err (runtime_error "stream format is not known")
    | some rate ↦
        Errors.◌>>=◌ (host.round (host.mul (host.ratio rate 1) segment_seconds)) λ z. ok (max_ℕ 1 z)
  ]

  unfoldable pub segment_ready : State → Result Bool
  unfolding target_segment_frames
  segment_ready s = Errors.◌>>=◌ (target_segment_frames s) λ target. ok (leb target s.input_frames)

  unfoldable pub launch_segment : Exec State (Unit {0})
  unfolding launch
  launch_segment s = continue (target_segment_frames s) (λ target. modify (launch target)) s

  -- `if self._inference_task is None and self._segment_ready(): self._launch_segment()`
  unfoldable pub launch_if_ready : Exec State (Unit {0})
  unfolding launch_segment segment_ready
  launch_if_ready s = elim s.inference_task [
    | none ↦ continue (segment_ready s) (λ ready. if ready then launch_segment else skip) s
    | some task ↦ (ok tt, s)
  ]

  -- The packets that the generator yields. It raises before the first one, if it raises.
  unfoldable pub process : MediaPacket host.Float → Exec State (List ProcessedPacket)
  process packet = do
    harvest_inference
    decoded ← lift (subclass.decode_and_validate packet.payload)
    accept_stream_format decoded
    modify (append_input decoded)
    launch_if_ready
    pop_ready

  unfoldable pub flush : Exec State (List ProcessedPacket)
  flush = do harvest_inference; pop_all

-- The end of the coroutine `infer`, on the event loop: `run_inference` is `_run_inference` of the
-- subclass on its worker thread, and `elapsed` what `time.perf_counter` measured.
module _ (host : Host) (run_inference : List ℕ → ℕ → ℕ → Result (List ℕ))
    (elapsed : host.Float) where
  abbrev note_seconds : Segmented host.Float → Segmented host.Float
  note_seconds s = record s { last_inference_seconds = some elapsed }

  abbrev note_factor : host.Float → Segmented host.Float → Segmented host.Float
  note_factor factor s = record s { last_real_time_factor = some factor }

  unfoldable pub infer : Job → Exec (Segmented host.Float) (List ℕ)
  infer job s = elim job.packets [
    | [] ↦ (err index_error, s)
    | first ∷ _ ↦
        (do
          result ← lift (run_inference job.samples first.sample_rate first.channels)
          modify note_seconds
          duration ← lift (host.div (host.ratio job.frames 1) (host.ratio first.sample_rate 1))
          factor ← lift (host.div elapsed duration)
          modify (note_factor factor)
          pure result)
          s
  ]

  unfoldable pub complete : Segmented host.Float → Segmented host.Float
  unfolding infer
  complete s = elim s.inference_task [
    | none ↦ s
    | some (finished result) ↦ s
    | some (running job) ↦
        let ended = infer job s in record (ended.1) { inference_task = some (finished ended.0) }
  ]
