-- ===== src/Tests/Collections.antt =====
-- A collection whose two sides differ in their read-only flags and in an index.
use migration_verifier_docdb.Base.{
  ℕ_discrete, ℕ, ◌≡◌, ◌↔◌, refl, Bool, true, false, ◌+◌, none, some, List, [], ◌∷◌, String, ok,
}
use migration_verifier_docdb.Base.Text.{text_dec}
use migration_verifier_docdb.Base.Dict.{lookup, insert}
use migration_verifier_docdb.Bson.{
  Value, leaf, boolean, Raw, element, end, elements, Fields, Raw-discrete,
}
use migration_verifier_docdb.Compare.{RawValue, Result}
use migration_verifier_docdb.NsMap.{get_dst_namespace, len}
use migration_verifier_docdb.Tasks.{
  Task, processing, metadata_mismatch, verify_collection, update_verification_task, answered,
  send_update, insert_partition_verification_task, insert_collection_verification_task,
}
use migration_verifier_docdb.Collection.{
  CollectionSpec, collection, CollectionType-discrete, Printer, IndexOps, named, ShardKeys, no_raw,
  compare_collection_specifications, compare_same_type, read_only_results, options_results,
  type_allows_data, is_capped_option, spec_result, normalize_collection_options, kept_options,
  is_skipped_option, verify_indexes, indexes_map, normalize_index_specs, with_id_index,
  dst_indexes_results, src_indexes_results, verify_sharding_if_needed,
}
use migration_verifier_docdb.Collection.Matches.{
  SameSpecs, Keeps, normalize_collection_options-Keeps, compare_collection_specifications-nil,
}
use migration_verifier_docdb.Collection.IndexMatch.{SameIndexes, indexes_of, verify_indexes-nil}
use migration_verifier_docdb.Collection.ShardMatch.{SameSharding, verify_sharding_if_needed-nil}
use migration_verifier_docdb.Process.{
  Metadata, Settings, CollectionCalls, CollectionError, scheme_id,
  process_collection_verification_task, verify_metadata_and_partition_collection,
  set_collection_size_in_task, verify_specs, verify_data, note_spec_problems, write_mismatches,
  record_mismatches, insert_failed_collection, note_problems, verify_indexes_and_partition,
  partition_collection, insert_partitions, is_small, choose_partitioner, mismatch_info,
}
use migration_verifier_docdb.Process.Judged.{
  IsJudged, process_collection_verification_task-IsJudged,
}
use migration_verifier_docdb.Tests.Documents.{driver, ab, ba}
use migration_verifier_docdb.Tests.Working.{waiting}
use migration_verifier_docdb.Tests.Processing.{start}

abbrev no_text : RawValue
no_text = record { ty = 2; value = [] }

abbrev printer : Printer
printer = record {
  print_type = λ t. "a type";
  print_bool = λ b. "a flag";
  print_raw = λ r. "a document";
  text_value = λ s. no_text;
}

abbrev flag : ℕ → Value
flag b = leaf boolean (b ∷ [])

-- Options that are skipped, and one that is not.
abbrev options : Raw
options = element "autoIndexId" (flag 1) (element "capped" (flag 0) (element "size" (flag 1) end))

abbrev size_only : Raw
size_only = element "size" (flag 1) end

abbrev option_fields : Fields
option_fields = ("autoIndexId", flag 1) ∷ ("capped", flag 0) ∷ ("size", flag 1) ∷ []

options_read : elements options ≡ some option_fields
unfolding elements
options_read = refl

normalize_collection_options-Keeps_example :
    (o : Raw) × (fs : Fields) × (normalize_collection_options options ≡ ok o)
    × (elements o ≡ some fs)
    × Keeps option_fields fs
normalize_collection_options-Keeps_example =
    normalize_collection_options-Keeps options option_fields options_read

abbrev spec : Bool → Raw → CollectionSpec
spec read_only opts = record {
  spec_type = collection;
  options = opts;
  read_only = read_only;
  id_index = no_raw;
}

abbrev read_only_result : Result
unfolding spec_result
read_only_result =
    spec_result driver printer "db.c" (record { ty = 0; value = [] }) "readOnly"
      ": src: a flag, dst: a flag"

specs_compared :
    compare_collection_specifications driver printer true true "db.c" "db.c"
      (spec false options)
      (spec true size_only)
    ≡ ok (read_only_result ∷ [], true)
unfolding compare_collection_specifications CollectionType-discrete compare_same_type
    normalize_collection_options Raw-discrete elements kept_options is_skipped_option text_dec
    read_only_results options_results type_allows_data is_capped_option spec_result ℕ_discrete
specs_compared = refl

compare_collection_specifications-nil_example :
    (read_only_result ∷ [] ≡ []) ↔ SameSpecs true (spec false options) (spec true size_only)
compare_collection_specifications-nil_example =
    compare_collection_specifications-nil driver printer "db.c" "db.c" true true
      (spec false options) (spec true size_only) (read_only_result ∷ []) true specs_compared

-- Index specifications whose names do not matter: each is under the name "a".
abbrev index_ops : IndexOps
index_ops = record {
  index_name = λ r. named "a";
  describe_spec_differences = λ s d. some none;
  text_value = λ s. no_text;
  int32_two = flag 2;
}

indexes_compared :
    verify_indexes index_ops false "db.c" "db.c" (ab ∷ []) (ba ∷ []) no_raw no_raw ≡ ok []
unfolding verify_indexes indexes_map with_id_index dst_indexes_results src_indexes_results insert
    lookup text_dec Raw-discrete
indexes_compared = refl

verify_indexes-nil_example :
    (src_map : List (String × Raw)) × (dst_map : List (String × Raw)) × (indexes_of index_ops false
        (ab ∷ [])
        no_raw
      ≡ ok src_map)
    × (indexes_of index_ops false (ba ∷ []) no_raw ≡ ok dst_map)
    × ((◌≡◌ {A = List Result} [] []) ↔ SameIndexes index_ops src_map dst_map)
verify_indexes-nil_example =
    verify_indexes-nil index_ops false "db.c" "db.c" (ab ∷ []) (ba ∷ []) no_raw no_raw []
      indexes_compared

-- The keys differ, but the server thinks that they match.
abbrev shard_keys : ShardKeys CollectionError
shard_keys = record {
  src_sharded = true;
  dst_sharded = true;
  src_key = ok (some ab);
  dst_key = ok (some ba);
  server_thinks_these_match = λ s d. ok true;
  print_raw = λ r. "a key";
}

keys_compared : verify_sharding_if_needed shard_keys "db.c" ≡ ok []
unfolding verify_sharding_if_needed Raw-discrete text_dec
keys_compared = refl

verify_sharding_if_needed-nil_example :
    (◌≡◌ {A = List Result} [] []) ↔ SameSharding shard_keys "db.c"
verify_sharding_if_needed-nil_example =
    verify_sharding_if_needed-nil shard_keys "db.c" [] keys_compared

abbrev settings : Settings
settings = record {
  drv = driver;
  printer = printer;
  index_ops = index_ops;
  verify_all = true;
  ns_map = record { src_dst_ns_map = []; dst_src_ns_map = [] };
  generation = 0;
  partition_settings = record {
    scheme = scheme_id;
    partition_size_in_bytes = 1000;
    buckets = false;
    src_is_document_db = true;
    src_has_sample_rate = false;
    src_is_replica_set = ok true;
    find_can_resume = false;
  };
}

abbrev calls : CollectionCalls
calls = record {
  src_ns = "db.c";
  dst_ns = "db.c";
  src_spec = ok (some (spec false options));
  dst_spec = ok (some (spec true size_only));
  coll_bytes = ok (500, 5);
  size_reply = answered;
  task_reply = answered;
  src_indexes = ok [];
  dst_indexes = ok [];
  shard_keys = record shard_keys { src_sharded = false };
  partition_calls = record {
    shard_key_fields = ok [];
    bounds = λ p. ok [];
    whole = (no_text, no_text);
    keys = λ i. 10 + i;
    can_write = λ w. true;
  };
  left_by = λ w i j. false;
}

abbrev coll_task : Task
coll_task = record (waiting 2 verify_collection) { status = processing }

abbrev coll_start : Metadata
coll_start = record start { tasks = coll_task ∷ [] }

abbrev coll_judged : Task
coll_judged = record coll_task {
  status = metadata_mismatch;
  source_bytes_count = 500;
  documents_count = 5;
}

-- The one partition's document task, and the next generation's collection task, are there too.
abbrev coll_after : Metadata
coll_after = (process_collection_verification_task settings calls coll_task coll_start).1

coll_processed :
    process_collection_verification_task settings calls coll_task coll_start
    ≡ (ok coll_judged, coll_after)
unfolding process_collection_verification_task verify_metadata_and_partition_collection
    set_collection_size_in_task verify_specs verify_data note_spec_problems write_mismatches
    record_mismatches insert_failed_collection verify_indexes_and_partition note_problems
    partition_collection insert_partitions is_small choose_partitioner update_verification_task
    send_update insert_collection_verification_task get_dst_namespace len
    compare_collection_specifications CollectionType-discrete compare_same_type
    normalize_collection_options Raw-discrete elements kept_options is_skipped_option text_dec
    read_only_results options_results type_allows_data is_capped_option spec_result ℕ_discrete
    verify_indexes indexes_map normalize_index_specs with_id_index dst_indexes_results
    src_indexes_results verify_sharding_if_needed mismatch_info lookup
    insert_partition_verification_task
coll_processed = refl

process_collection_verification_task-IsJudged_example :
    IsJudged settings calls
      (spec false options)
      (spec true size_only)
      coll_task
      coll_judged
      coll_start
      coll_after
process_collection_verification_task-IsJudged_example =
    process_collection_verification_task-IsJudged settings calls (spec false options)
      (spec true size_only) coll_task coll_judged coll_start coll_after refl refl refl
      coll_processed
