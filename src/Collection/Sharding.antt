-- ===== src/Collection/Sharding.antt =====
-- verifyShardingIfNeeded of sharding.go.
use Prim.Native.String.{◌++◌ as ◌++ₛ◌}
use migration_verifier_docdb.Base.{
  Bool, true, false, not, Option, none, some, List, [], ◌∷◌, String, if◌then◌else◌, ◌||◌, Outcome,
  ok, ◌>>=◌, holds,
}
use migration_verifier_docdb.Bson.{Raw, Raw-discrete}
use migration_verifier_docdb.Compare.{
  Result, Cluster, cluster_source, cluster_target, no_cluster, no_history, missing, mismatch,
}

-- Whether each cluster is sharded, what sharding.GetShardKey gives for the two collections, and
-- whether the server thinks that two keys match.
pub record ShardKeys (E : Type 0) : Type 0 where
  pub src_sharded : Bool
  pub dst_sharded : Bool
  pub src_key : Outcome E (Option Raw)
  pub dst_key : Outcome E (Option Raw)
  pub server_thinks_these_match : Raw → Raw → Outcome E Bool
  pub print_raw : Raw → String

abbrev pub shard_result : String → String → Cluster → Result
shard_result namespace details cluster = record {
  id = record { ty = 0; value = [] };
  field = "shard key";
  details = details;
  cluster = cluster;
  namespace = namespace;
  mismatch_history = no_history;
  data_size = 0;
  src_timestamp = none;
  dst_timestamp = none;
}

module _ {E : Type 0} (k : ShardKeys E) (src_ns : String) where
  abbrev pub by_answer : Raw → Raw → Bool → List Result
  by_answer s d true = []
  by_answer s d false =
      shard_result src_ns (mismatch ++ₛ ": src=" ++ₛ k.print_raw s ++ₛ "; dst=" ++ₛ k.print_raw d)
        no_cluster
      ∷ []

  abbrev pub compare_keys : Option Raw → Option Raw → Outcome E (List Result)
  compare_keys none none = ok []
  compare_keys (some s) none = ok (shard_result src_ns missing cluster_target ∷ [])
  compare_keys none (some d) = ok (shard_result src_ns missing cluster_source ∷ [])
  compare_keys (some s) (some d) =
      if holds (Raw-discrete s d)
      then ok []
      else (k.server_thinks_these_match s d >>= λ same. ok (by_answer s d same))

  unfoldable pub verify_sharding_if_needed : Outcome E (List Result)
  verify_sharding_if_needed =
      if not k.src_sharded || not k.dst_sharded
      then ok []
      else (k.src_key >>= λ s. k.dst_key >>= λ d. compare_keys s d)
