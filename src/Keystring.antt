-- ===== src/Keystring.antt =====
-- The decoder of index keys: internal/keystring/keystring_decoder.go.
mod Buffer
mod Values
mod Numbers
mod Decoder
mod Fits
pub mod Terminates
pub mod Encoder
mod Reads
mod Texts
mod Parts
pub mod RoundTrip
unfoldable pub use Values.*
unfoldable pub use Numbers.*
unfoldable pub use Decoder.*
unfoldable pub use Buffer.*
