-- ===== src/Recheck/Metadata.antt =====
-- What the metadata of a document leave alone in GenerateRecheckTasks.
use migration_verifier_docdb.Base.{
  ℕ, ◌≡◌, refl, sym, ◌∙◌, ap, Bool, true, false, Option, none, some, List, String, arith,
  if◌then◌else◌, Outcome, ok, err, ok-injective, ℕ_discrete,
}
use migration_verifier_docdb.Base.Dict.{insert, delete}
use migration_verifier_docdb.Bson.{Timestamp}
use migration_verifier_docdb.Compare.{RawValue}
use migration_verifier_docdb.Tasks.{Task}
use migration_verifier_docdb.Recheck.Queue.{Doc}
use migration_verifier_docdb.Recheck.Generate.{
  Grouping, RecheckError, optime_with_mismatch, newer_timestamp, add_metadata,
}

-- The fields that `add_metadata` leaves alone.
abbrev pub Core : Type 0
Core = List (List Task) × List Task × String × String × List RawValue × Option RawValue

abbrev pub core : Grouping → Core
core g = (g.requests, g.cur_tasks, g.prev_db_name, g.prev_coll_name, g.id_accum, g.last_id)

pub add_metadata-core :
    (d : Doc) (same : Bool) (i : ℕ) (g g' : Grouping)
    → add_metadata d same i g ≡ ok g'
    → core g' ≡ core g
unfolding add_metadata
add_metadata-core d same i g g' h = by_times d.change_op_time d.first_mismatch_time h
  where
    by_dst :
        (b : Bool) (u v : Grouping)
        → core u ≡ core g
        → core v ≡ core g
        → core (if b then u else v) ≡ core g
    by_dst true u v p q = p
    by_dst false u v p q = q

    by_times :
        (o : Option Timestamp) (m : Option ℕ)
        → (elim o as (λ x. Outcome RecheckError Grouping) [
          | some optime ↦ elim m as (λ x. Outcome RecheckError Grouping) [
            | some t ↦ err optime_with_mismatch
            | none ↦ ok (
                if d.from_dst
                then (record g {
                  latest_dst_timestamp = newer_timestamp g.latest_dst_timestamp optime;
                  first_mismatch_time = delete ℕ_discrete i g.first_mismatch_time;
                })
                else (record g {
                  latest_src_timestamp = newer_timestamp g.latest_src_timestamp optime;
                  first_mismatch_time = delete ℕ_discrete i g.first_mismatch_time;
                }))
          ]
          | none ↦ elim m as (λ x. Outcome RecheckError Grouping) [
            | none ↦ ok g
            | some t ↦ ok (
                if same then g else (record g {
                  first_mismatch_time = insert ℕ_discrete i t g.first_mismatch_time;
                }))
          ]
        ])
          ≡ ok g'
        → core g' ≡ core g
    by_times (some o) (some t) x = absurd (ground arith)
    by_times (some o) none x =
        sym (ap (λ u. core u) (ok-injective x)) ∙ by_dst d.from_dst _ _ refl refl
    by_times none none x = sym (ap (λ u. core u) (ok-injective x))
    by_times none (some t) x = sym (ap (λ u. core u) (ok-injective x)) ∙ by_dst same _ _ refl refl
