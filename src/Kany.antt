-- ===== src/Kany.antt =====
-- app/audio_trombone/kany.py: decoding a KANY v1 datagram and encoding its samples again.
-- `bytes` is a list of numbers; an `array` has its type code and its items, a float32 item as
-- the 32-bit pattern of its value. What the machine's byte order decides takes it as an argument.
mod Buffers
mod Decode
pub mod Words
pub mod Header
pub mod RoundTrip
pub mod Contract
pub mod Rejects
pub mod Datagram
mod Tests
unfoldable pub use Buffers.*
unfoldable pub use Decode.*
