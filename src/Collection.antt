-- ===== src/Collection.antt =====
-- Collection tasks under internal/verifier: the comparison of collections' specifications, indexes and
-- shard keys in migration_verifier.go, sharding.go and documentdb.go.
mod Specs
pub mod Matches
mod Indexes
mod Sharding
mod IndexMaps
pub mod IndexMatch
pub mod ShardMatch
unfoldable pub use Specs.*
unfoldable pub use Indexes.*
unfoldable pub use Sharding.*
