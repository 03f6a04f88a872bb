-- ===== src/Service/Egress.antt =====
-- app/audio_trombone/service.py: forwarding, `_processing_loop` and `_flush_processor`.
use karaoke_anything.Prelude.{
  ℕ, ◌+◌, String, Option, none, some, List, [], ◌∷◌, length, if◌then◌else◌, texts_equal, ◌==◌,
}
use karaoke_anything.Prelude.Int.{ℤ, pos}
use karaoke_anything.Prelude.Exec.{Exec}
use karaoke_anything.Errors.{Result, ok, err, cancelled_error}
use karaoke_anything.Models.{MediaPacket, ProcessedPacket}
use karaoke_anything.Service.State.{AudioProcessor, Network, TromboneService}

-- `host or fallback`
abbrev pub or_host : Option String → String → String
or_host none fallback = fallback
or_host (some host) fallback = if texts_equal host "" then fallback else host

-- `host or fallback`, where the fallback may be `None`
abbrev pub or_maybe : Option String → Option String → Option String
or_maybe none fallback = fallback
or_maybe (some host) fallback = if texts_equal host "" then fallback else some host

-- `port or fallback`
abbrev pub or_port : Option ℕ → ℤ → ℤ
or_port none fallback = fallback
or_port (some port) fallback = if port == 0 then fallback else pos port

module _ {F Memory : Type 0} where
  abbrev pub count_emitted : TromboneService F Memory → TromboneService F Memory
  count_emitted s = record s {
    metrics = record (s.metrics) { packets_emitted = s.metrics.packets_emitted + 1 };
  }

  abbrev pub count_forwarded : ℕ → TromboneService F Memory → TromboneService F Memory
  count_forwarded size s = record s {
    metrics = record (s.metrics) {
      packets_forwarded = s.metrics.packets_forwarded + 1;
      bytes_forwarded = s.metrics.bytes_forwarded + size;
    };
  }

  abbrev pub count_forwarding_error : TromboneService F Memory → TromboneService F Memory
  count_forwarding_error s = record s {
    metrics = record (s.metrics) { forwarding_errors = s.metrics.forwarding_errors + 1 };
  }

  abbrev pub count_processed : TromboneService F Memory → TromboneService F Memory
  count_processed s = record s {
    metrics = record (s.metrics) { packets_processed = s.metrics.packets_processed + 1 };
  }

  abbrev pub count_processor_error : TromboneService F Memory → TromboneService F Memory
  count_processor_error s = record s {
    metrics = record (s.metrics) { processor_errors = s.metrics.processor_errors + 1 };
  }

  abbrev pub with_memory : Memory → TromboneService F Memory → TromboneService F Memory
  with_memory memory s = record s { memory = memory }

  -- `_send_output`; `n` numbers the outputs of one call
  unfoldable pub send_output :
      Network → ℕ → ProcessedPacket → String → TromboneService F Memory → TromboneService F Memory
  send_output sendto n output fallback_host s = elim s.transport [
    | none ↦ count_forwarding_error s
    | some _ ↦
        elim (sendto n output.payload
          (or_host output.destination_host (or_host s.settings.return_host fallback_host))
          (or_port output.destination_port s.settings.output_port)) [
            | ok _ ↦ count_forwarded (length output.payload) s
            | err _ ↦ count_forwarding_error s
          ]
  ]

  -- the body of the `async for` of `_processing_loop`, for each output
  unfoldable pub emit :
      Network
      → ℕ
      → List ProcessedPacket
      → String
      → TromboneService F Memory
      → TromboneService F Memory
  unfolding send_output
  emit sendto n [] sender_host s = s
  emit sendto n (output ∷ outputs) sender_host s =
      emit sendto (n + 1) outputs sender_host
        (send_output sendto n output sender_host (count_emitted s))

  -- the body of the `async for` of `_flush_processor`, for each output
  unfoldable pub emit_flushed :
      Network → ℕ → List ProcessedPacket → TromboneService F Memory → TromboneService F Memory
  unfolding send_output
  emit_flushed sendto n [] s = s
  emit_flushed sendto n (output ∷ outputs) s =
      emit_flushed sendto (n + 1) outputs
        (elim (or_maybe s.settings.return_host s.metrics.last_sender_host) [
          | none ↦ s
          | some fallback_host ↦ send_output sendto n output fallback_host (count_emitted s)
        ])

  abbrev pub count_end : Result (Unit {0}) → Exec (TromboneService F Memory) (Unit {0})
  count_end (ok _) s = (ok tt, count_processed s)
  count_end (err cancelled_error) s = (err cancelled_error, s)
  count_end (err e) s = (ok tt, count_processor_error s)

  module _ (audio : AudioProcessor F Memory) (sendto : Network) where
    -- `_processing_loop`, for one packet that it took from the queue
    unfoldable pub handle : MediaPacket F → Exec (TromboneService F Memory) (Unit {0})
    unfolding emit
    handle packet s =
        let yields = audio.process s.processor packet s.memory in
        count_end yields.ended
          (emit sendto 0 yields.outputs packet.sender_host (with_memory yields.memory s))

    unfoldable pub flush_processor : Exec (TromboneService F Memory) (Unit {0})
    unfolding emit_flushed
    flush_processor s =
        let yields = audio.flush s.processor s.memory in
        (yields.ended, emit_flushed sendto 0 yields.outputs (with_memory yields.memory s))
