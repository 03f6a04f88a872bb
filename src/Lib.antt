-- ===== src/Lib.antt =====
-- Karaoke Anything (app/audio_trombone): a server that receives audio packets over UDP, passes
-- them through one audio processor and sends the results back, with settings that a client may
-- change at run time. This library models the packet codec, the ingress, the processors that
-- separate audio in segments, with an abstract pipeline that they refine, the settings with the
-- table of processors, the service that ties them together, and the requests that change its
-- settings.
--
-- The parts and their files:
--   Kany: app/audio_trombone/kany.py. `KanyPacket.decode` (`decode`, with one definition for each
--     of the static methods that it calls) and `encode_samples`. Kany/Datagram writes the layout
--     of docs/protocol.md down a second time, from the sender's side.
--   Models: app/audio_trombone/models.py, the packets between the parts and the counters.
--   Transport: app/audio_trombone/transport.py. `datagram_received` puts a `MediaPacket` on the
--     bounded queue, or drops it.
--   Processors/Segmented: app/audio_trombone/processors/segmented_inference.py. The state is the
--     record `Segmented`; `process`, `flush`, `reset` and the end of the coroutine `infer`
--     (`complete`) are functions on it, and each private method is one definition.
--     Processors/Segmented/History composes them in any order.
--   Processors/Pipeline: what both kinds of buffering processor promise, as a step relation on
--     three queues of headers. Processors/Pipeline/Held sees a processor's fields as these queues;
--     Processors/Segmented/Refines and Processors/Mdx23c/History show each call to be a run of
--     steps.
--   Processors/Mdx23c: app/audio_trombone/processors/mdx23c_vocals.py. Defs has the record
--     `Mdx23c` with one definition for each method, Crossfade the loops of `_crossfade` on lists
--     of 32-bit patterns with the host's float operations; History composes the calls. Formula
--     writes down what `_crossfade` computes without its helpers.
--   Processors/Mdx23c/Adapter and Processors/Mdx23c/Inference: app/audio_trombone/mdx23c.py, with
--     `MDX23CAdapter.infer`, and the methods `start`, `stop` and `_run_inference` of the
--     processor.
--   Processors/Torch: the operations of PyTorch and torchaudio that the code calls, as a record.
--     `Shapes` and `Devices` state what their documentation says of the shape and of the device of
--     a result.
--   Processors/Htdemucs and Processors/Convtasnet: processors/htdemucs.py and
--     processors/convtasnet_lyrics.py. Each has `_decode_and_validate`, and in a module Inference
--     the loading of the model, `stop` and `_run_inference`. Processors/Segmented/Lengths connects
--     `_run_inference` with the check of the base class.
--   Processors/Centre: processors/centre_reduction.py, `process` with its loop over pairs of
--     samples.
--   Config: app/audio_trombone/config.py, `Settings` and `from_environment`.
--   Registry: app/audio_trombone/processors/registry.py, the table of processors and `create`,
--     with the checks that the constructors make. A `ProcessorConfig` is a processor's class with
--     the attributes that its constructor sets.
--   Service: app/audio_trombone/service.py. Service/Settings has the updates and their validation,
--     Service/Live the settings that reach a running processor, Service/State the record
--     `TromboneService`, Service/Egress forwarding and the processing loop, Service/Lifecycle the
--     public methods. Service/Cases, Service/Life and Service/Work list every way in which an
--     operation ends; Service/History composes operations in any order. Service/Drain runs the
--     loop until the queue is empty.
--   Service/Library: all classes of processors, with passthrough.py, delay.py and null.py, as the
--     interface that the service takes. Service/Holds has their invariant; Service/Healthy carries
--     it through the operations of the service, and Service/Runs lets the tasks end between these.
--     Service/Forwards follows a datagram from the socket to the network.
--   Api: app/main.py, the bodies of the settings requests, `_flatten_updates` and
--     `_apply_settings`. Api/Routes has the other routes that change the service.
--   Tools/Checkpoint: app/audio_trombone/tools/validate_mdx23c.py, `normalise_state_dict`.
--   Errors and Prelude/Exec: exceptions as values, and methods that change an object and may
--     raise. What was written before a raise stays written.
--   Host: Python's floats, the parsing of numbers and the machine's byte order, as a record that
--     every definition that uses them takes as an argument. Fixtures has a small host for tests.
--
-- How they interact: the event loop calls `datagram_received` for each datagram. The processing
-- loop takes packets from the queue, calls `process` of the active processor and sends what it
-- yields. A request changes the settings, and with them the running processor or the choice of a
-- new one. An event of Service/History is one whole call or one turn of the loop; requests that
-- overlap, while a new processor starts outside the lock, are not modelled. A cancellation is an
-- exception that a call of the processor ends with. A segmented processor starts a task on a
-- worker thread and looks at its result at the next call, so the end of a task is a step of its
-- own in Processors/Segmented/History and may come between any two calls.
--
-- Representation: `bytes` is a list of natural numbers, and theorems about a datagram assume that
-- each is below 256. A float32 item of an `array` is its 32-bit pattern; `frombytes`, `byteswap`
-- and `tobytes` are written out for both byte orders. Python's integers do not overflow, so they
-- are natural numbers, with ℤ where a value may be negative. The dictionary of updates is a list
-- of typed updates, as its callers make it. There is no fuel: every loop is structural recursion
-- on a list.
--
-- The service is stated for any processor: the record `AudioProcessor` has the methods of
-- processors/base.py as functions on a type of memory, which does not contain the attributes of
-- `ProcessorConfig`. The network and the binding of the socket are arguments that may fail. Where
-- an order of floats matters, the record `Ordered` of Service/Validated names the two facts that
-- are used.
--
-- Not modelled: PyTorch, Demucs, the vendored Conv-TasNet and the architecture of MDX23C, which is
-- not in the repository: the constructors of the models and their calls are parameters.
-- `inference_fn`, which only tests supply, is none. The YAML of MDX23C, the other scripts of
-- app/audio_trombone/tools, the sleep of the delay processor, log messages, task names, the
-- diagnostics and reports that only read fields, the HTTP routes of app/main.py that only report,
-- and the Rust client.
pub mod Prelude
pub mod Errors
pub mod Kany
pub mod Host
pub mod Models
pub mod Processors
pub mod Transport
pub mod Fixtures
pub mod Config
pub mod Registry
pub mod Service
pub mod Api
pub mod Tools
