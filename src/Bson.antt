-- ===== src/Bson.antt =====
-- BSON documents as the verifier reads them (internal/verifier/bson_compare.go), after the driver's
-- parse: `Raw` is the chain of elements that `bson.Raw.Elements` yields, and ends in `bad` where the
-- bytes do not parse. Distinct bytes are distinct values, so equality of `Raw` is `bytes.Equal`.
mod Types
mod Unordered
pub mod Decides
pub mod Same
pub mod Used
pub mod Stop
unfoldable pub use Types.*
unfoldable pub use Unordered.*
