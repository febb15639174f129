-- ===== src/Retry/Builders.antt =====
-- retryer.go, retry_info.go and constants.go of internal/retry. Times and durations are nanoseconds.
use migration_verifier_docdb.Base.{
  ℕ, zero, suc, ◌*◌, Bool, true, false, Option, none, some, List, [], ◌∷◌, ◌++◌, String, Outcome,
  ok, err,
}
use migration_verifier_docdb.Base.Int.{ℤ, pos, negsuc}

abbrev pub authentication_failed_code : ℕ
authentication_failed_code = 18

abbrev pub second : ℕ
second = 1000000000

abbrev pub default_time_limit : ℕ
default_time_limit = 600 * second

abbrev pub min_sleep_time : ℕ
min_sleep_time = 1 * second

abbrev pub max_sleep_time : ℕ
max_sleep_time = 16 * second

abbrev pub sleep_time_multiplier : ℕ
sleep_time_multiplier = 2

-- A callback is code of the caller: what is kept of it here is its description.
pub record Retryer : Type 0 where
  pub time_limit : Option ℕ
  pub has_before : Bool
  pub callbacks : List String
  pub description : Option String
  pub additional_error_codes : List ℕ
  pub max_attempts : Option ℕ

abbrev pub new_retryer : Retryer
new_retryer = record {
  time_limit = some default_time_limit;
  has_before = false;
  callbacks = [];
  description = none;
  additional_error_codes = [];
  max_attempts = none;
}

-- The panic of an assertion.
pub data AssertionFailed : Type 0 where
  assertion_failed : AssertionFailed

unfoldable pub with_error_codes : List ℕ → Retryer → Retryer
with_error_codes codes r = record r { additional_error_codes = codes }

unfoldable pub with_time_limit : ℤ → Retryer → Outcome AssertionFailed Retryer
with_time_limit (pos n) r = ok (record r { time_limit = some n })
with_time_limit (negsuc n) r = err assertion_failed

unfoldable pub without_time_limit : Retryer → Retryer
without_time_limit r = record r { time_limit = none }

unfoldable pub with_max_attempts : ℤ → Retryer → Outcome AssertionFailed Retryer
with_max_attempts (pos zero) r = err assertion_failed
with_max_attempts (pos (suc n)) r = ok (record r { max_attempts = some (suc n) })
with_max_attempts (negsuc n) r = err assertion_failed

unfoldable pub with_before : Retryer → Retryer
with_before r = record r { has_before = true }

unfoldable pub with_description : String → Retryer → Retryer
with_description d r = record r { description = some d }

unfoldable pub with_callback : String → Retryer → Retryer
with_callback d r = record r { callbacks = r.callbacks ++ d ∷ [] }

-- lastResetInfo and FuncInfo; the loop's own fields stand in the loop's state.
pub record FuncInfo : Type 0 where
  pub description : String
  pub loop_description : Option String
  pub last_reset : ℕ
  pub reset_description : Option String
  pub resets_so_far : ℕ

-- NoteSuccess, at a time.
unfoldable pub note_success : String → ℕ → FuncInfo → FuncInfo
note_success d now fi = record fi {
  last_reset = now;
  reset_description = some d;
  resets_so_far = suc fi.resets_so_far;
}

-- The loop's `Store` after a sleep: it starts the count of successes anew.
abbrev pub reset_at : ℕ → FuncInfo → FuncInfo
reset_at now fi = record fi { last_reset = now; reset_description = none; resets_so_far = 0 }

-- GetDescriptions.
unfoldable pub get_descriptions : FuncInfo → List String
get_descriptions fi = elim fi.loop_description [
  | none ↦ fi.description ∷ []
  | some d ↦ d ∷ fi.description ∷ []
]
