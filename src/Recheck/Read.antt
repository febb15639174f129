-- ===== src/Recheck/Read.antt =====
-- The loop of GenerateRecheckTasks, and what follows it.
use migration_verifier_docdb.Base.{
  ◌-◌, Bool, true, false, List, [], ◌∷◌, ◌++◌, if◌then◌else◌, Outcome, ok, err, ◌>>=◌, length, none,
}
use migration_verifier_docdb.Tasks.{Task}
use migration_verifier_docdb.Recheck.Queue.{Doc, is_empty}
use migration_verifier_docdb.Recheck.Generate.{
  Settings, Grouping, RecheckError, cursor_failed, persist_buffered_rechecks, is_same_doc,
  is_group_over, start_group, add_metadata, add_id, zero_timestamp,
}

-- A document that is not the same as the last: the group before it may be over.
unfoldable pub close_group : Settings → Doc → Grouping → Outcome RecheckError Grouping
unfolding persist_buffered_rechecks is_group_over start_group
close_group s d g =
    if is_group_over s d g
    then (persist_buffered_rechecks s g >>= λ g'. ok (start_group d g'))
    else ok g

-- One round of the loop.
unfoldable pub read_recheck : Settings → Doc → Grouping → Outcome RecheckError Grouping
unfolding close_group add_metadata add_id
read_recheck s d g =
    if is_same_doc d g
    then add_metadata d true (length g.id_accum - 1) g
    else (close_group s d g >>= λ g'.
        add_metadata d false (length g'.id_accum) g' >>= λ g''. ok (add_id d g''))

unfoldable pub read_rechecks : Settings → List Doc → Grouping → Outcome RecheckError Grouping
unfolding read_recheck
read_rechecks s [] g = ok g
read_rechecks s (d ∷ ds) g = read_recheck s d g >>= λ g'. read_rechecks s ds g'

abbrev pub no_group : Grouping
no_group = record {
  prev_db_name = "";
  prev_coll_name = "";
  id_accum = [];
  ids_sizer = record { elems_size = 0; count = 0 };
  data_size_accum = 0;
  first_mismatch_time = [];
  latest_src_timestamp = zero_timestamp;
  latest_dst_timestamp = zero_timestamp;
  last_id = none;
  cur_tasks = [];
  cur_tasks_bytes = 0;
  total_tasks = 0;
  requests = [];
}

-- GenerateRecheckTasks: the insert requests, each a list of tasks. `fails` says whether the cursor
-- ends with an error.
unfoldable pub generate_recheck_tasks :
    Settings → List Doc → Bool → Outcome RecheckError (List (List Task))
unfolding read_rechecks persist_buffered_rechecks
generate_recheck_tasks s ds fails = read_rechecks s ds no_group >>= λ g.
    if fails
    then err cursor_failed
    else (persist_buffered_rechecks s g >>= λ g'.
        ok (if is_empty g'.cur_tasks then g'.requests else g'.requests ++ g'.cur_tasks ∷ []))
