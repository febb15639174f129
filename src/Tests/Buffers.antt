-- ===== src/Tests/Buffers.antt =====
-- Entries of a history, of which one expires, the values of a ring of two slots, and values that are
-- split by the size of their array.
use migration_verifier_docdb.Base.{
  ℕ, ◌≡◌, ◌≤◌, ◌-◌, List, [], ◌∷◌, refl, Outcome, ok, String, length, drop, All, arith,
}
use migration_verifier_docdb.History.{
  Log, new_history, add_logs, get_logs, fresh, IsOrdered, get_logs-add_logs,
}
use migration_verifier_docdb.Compare.{RawValue}
use migration_verifier_docdb.Recheck.{sizer_len, sizer_add}
use migration_verifier_docdb.Recheck.Split.{
  split_array_by_bson_max_size, IsSplit, split_array_by_bson_max_size-IsSplit,
}
use migration_verifier_docdb.Mring.{Queue, new_queue, push_all, get_all, push_all-get_all}

abbrev entries : List (Log ℕ)
entries =
    record { at = 1; datum = 10 }
    ∷ record { at = 5; datum = 20 }
    ∷ record { at = 9; datum = 30 }
    ∷ []

entries-IsOrdered : IsOrdered entries
entries-IsOrdered = ((omega arith, (omega arith, tt)), ((omega arith, tt), (tt, tt)))

entries_past : All (λ m. m.at ≤ 10) entries
entries_past = (omega arith, (omega arith, (omega arith, tt)))

get_logs-add_logs_example : get_logs 10 (add_logs entries (new_history 6)) ≡ fresh 6 10 entries
get_logs-add_logs_example = get_logs-add_logs 6 10 entries entries-IsOrdered entries_past

abbrev values : List ℕ
values = 3 ∷ 4 ∷ 5 ∷ []

push_all-get_all_example :
    (q : Queue ℕ) × (push_all values (new_queue 2) ≡ ok q)
    × (get_all q ≡ drop (length values - 2) values)
push_all-get_all_example = push_all-get_all 1 values

-- A Boolean's value has one byte.
abbrev to_raw : ℕ → Outcome String RawValue
to_raw b = ok (record { ty = 8; value = b ∷ [] })

-- An array of two such values has 13 bytes, so the third one is left over.
two_and_one :
    split_array_by_bson_max_size to_raw 12 (0 ∷ 1 ∷ 0 ∷ []) ≡ ok ((0 ∷ 1 ∷ []) ∷ (0 ∷ []) ∷ [])
unfolding split_array_by_bson_max_size sizer_len sizer_add
two_and_one = refl

split_array_by_bson_max_size-IsSplit_example :
    (gs : List (List ℕ)) × (split_array_by_bson_max_size to_raw 12 (0 ∷ 1 ∷ 0 ∷ []) ≡ ok gs)
    × IsSplit to_raw 12 (0 ∷ 1 ∷ 0 ∷ []) gs
split_array_by_bson_max_size-IsSplit_example =
    split_array_by_bson_max_size-IsSplit to_raw 12 (0 ∷ 1 ∷ 0 ∷ []) (omega arith)
      ((_, refl), ((_, refl), ((_, refl), tt)))
