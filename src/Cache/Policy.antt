-- ===== src/Cache/Policy.antt =====
-- app/cache/policy.py: how long a completed answer may be reused.
pub mod Sources
pub mod Types
use Prim.Native.Char.{code}
use Prim.Native.String as Text
use mini_alpha.Cache.Models.{CachePolicyDecision}
use mini_alpha.Common.Dict.{Dict}
use mini_alpha.Common.Dict
use mini_alpha.Common.Value.{Value, Fields, str, datetime, dict, get_field, end, field}
use mini_alpha.Common.{
  ℕ, String, ◌+◌, ◌-◌, ◌*◌, ◌/◌, Bool, true, false, Option, none, some, List, [], ◌∷◌, ◌==◌, nat_eq,
  string_eq, ltb, leb, if◌then◌else◌, map, min, is_some,
}

unfoldable pub artifact_ttl_seconds : Dict String ℕ
artifact_ttl_seconds =
    ("company_news", 5 * 60)
    ∷ ("company_overview", 15 * 60)
    ∷ ("fundamental_ratios", 15 * 60)
    ∷ ("company_comparison", 15 * 60)
    ∷ ("sec_filings", 30 * 60)
    ∷ ("insider_activity", 30 * 60)
    ∷ ("price_history", 60 * 60)
    ∷ ("return_statistics", 60 * 60)
    ∷ ("volatility", 60 * 60)
    ∷ ("drawdown", 60 * 60)
    ∷ ("correlation", 60 * 60)
    ∷ ("technical_indicators", 60 * 60)
    ∷ ("moving_average_backtest", 60 * 60)
    ∷ ("analyst_estimates", 6 * 60 * 60)
    ∷ ("financial_statements", 24 * 60 * 60)
    ∷ ("ownership", 24 * 60 * 60)
    ∷ []

unfoldable pub artifact_type_aliases : Dict String String
artifact_type_aliases =
    ("volatility_analysis", "volatility")
    ∷ ("drawdown_analysis", "drawdown")
    ∷ ("correlation_analysis", "correlation")
    ∷ []

abbrev pub source_free_ttl_seconds : ℕ
source_free_ttl_seconds = 24 * 60 * 60

-- Microseconds
abbrev pub seconds : ℕ → ℕ
seconds n = n * 1000000

abbrev pub rejected : String → CachePolicyDecision
rejected reason = record {
  cacheable = false;
  ttl_seconds = 0;
  expires_at = none;
  source_retrieved_at = none;
  artifact_types = [];
  reason = reason;
}

unfoldable pub starts_with : String → String → Bool
starts_with Text.[] s = true
starts_with (Text.◌∷◌ c p) Text.[] = false
starts_with (Text.◌∷◌ c p) (Text.◌∷◌ d s) = if code c == code d then starts_with p s else false

unfoldable pub canonical_name : String → Option String
canonical_name value =
    if is_some (Dict.get value artifact_ttl_seconds)
    then some value
    else if starts_with "financial_statements_" value
    then some "financial_statements"
    else Dict.get value artifact_type_aliases

unfoldable pub canonical_artifact_type : Value → Option String
canonical_artifact_type (str value) = canonical_name value
canonical_artifact_type _ = none

-- `mapping.get(key, default)`
unfoldable pub get_or : Value → String → Fields → Value
get_or default k end = default
get_or default k (field j v fs) = if j == k then v else get_or default k fs

-- A `KeyError` of the table, and the `OverflowError` of `astimezone` for a time that has an offset and
-- is not in the years 1 to 9999 in UTC
pub data PolicyError : Type 0 where
  missing_key overflow : PolicyError

-- What a text says of the time of a source: `fromisoformat` raises `ValueError`, `astimezone` raises
-- `OverflowError`, or it is a time in UTC.
pub data Instant : Type 0 where
  not_iso too_far : Instant
  instant : ℕ → Instant

-- What the loop does with one artifact: it returns a rejection, raises, or appends the remaining
-- seconds, the source's time and the type.
pub data Check : Type 0 where
  refused : String → Check
  failed : PolicyError → Check
  fresh : ℕ → ℕ → String → Check

pub data Scan : Type 0 where
  stopped : String → Scan
  raised : PolicyError → Scan
  scanned : List (ℕ × ℕ × String) → Scan

-- The end of the function
pub data Evaluation : Type 0 where
  raises : PolicyError → Evaluation
  decided : CachePolicyDecision → Evaluation

-- The text of a value that is known to be one
text_or_empty : Value → String
text_or_empty (str s) = s
text_or_empty _ = ""

is_ok : Value → Bool
is_ok (str s) = s == "ok"
is_ok _ = false

unfoldable pub check_age : ℕ → String → Option ℕ → ℕ → Check
check_age current name none retrieved_at = failed missing_key
check_age current name (some base_ttl) retrieved_at =
    let source_age = (current - retrieved_at) / 1000000 in
    if leb base_ttl source_age
    then refused "source_data_expired"
    else fresh (base_ttl - source_age) retrieved_at name

unfoldable pub check_source : ℕ → String → Option ℕ → Instant → Check
unfolding check_age
check_source current name base not_iso = refused "missing_source_timestamp"
check_source current name base too_far = failed overflow
check_source current name base (instant retrieved_at) =
    if ltb (current + seconds (5 * 60)) retrieved_at
    then refused "future_source_timestamp"
    else check_age current name base retrieved_at

abbrev pub append_check : Check → Scan → Scan
append_check (refused reason) rest = stopped reason
append_check (failed error) rest = raised error
append_check (fresh remaining time name) (scanned rest) = scanned ((remaining, time, name) ∷ rest)
append_check (fresh remaining time name) rest = rest

-- `from_iso` is `_utc` of `datetime.fromisoformat` of a text whose `Z`s are written `+00:00`. A
-- `datetime` value stands for its time in UTC.
module _ (from_iso : String → Instant) where
  unfoldable pub source_timestamp : Fields → Instant
  source_timestamp d = elim (get_or (get_field "retrieved_at" d) "source_retrieved_at" d) [
    | datetime t ↦ instant t
    | str s ↦ from_iso s
    | _ ↦ not_iso
  ]

  unfoldable pub check_data : ℕ → String → String → Value → Check
  unfolding check_source
  check_data current name canonical_type (dict d) =
      check_source current name (Dict.get canonical_type artifact_ttl_seconds) (source_timestamp d)
  check_data current name canonical_type _ = refused "missing_artifact_data"

  unfoldable pub check_type : ℕ → String → Option String → Value → Check
  unfolding check_data
  check_type current name none contents = refused "unrecognized_artifact_type"
  check_type current name (some canonical_type) contents =
      check_data current name canonical_type contents

  unfoldable pub check_artifact : ℕ → Fields → Check
  unfolding is_ok text_or_empty check_type
  check_artifact current artifact =
      let artifact_type = get_field "artifact_type" artifact in
      if is_ok (get_field "status" artifact)
      then check_type current (text_or_empty artifact_type) (canonical_artifact_type artifact_type)
          (get_field "data" artifact)
      else refused "non_success_artifact"

  unfoldable pub scan : ℕ → List Fields → Scan
  scan current [] = scanned []
  scan current (artifact ∷ artifacts) =
      append_check (check_artifact current artifact) (scan current artifacts)

-- `min(x, *xs)`
unfoldable pub min_of : ℕ → List ℕ → ℕ
min_of x [] = x
min_of x (y ∷ ys) = min_of (if ltb y x then y else x) ys

abbrev pub accepted : ℕ → ℕ × ℕ × String → List (ℕ × ℕ × String) → CachePolicyDecision
accepted current first rest =
    let ttl = min_of first.0 (map (λ r. r.0) rest) in
    record {
      cacheable = true;
      ttl_seconds = ttl;
      expires_at = some (current + seconds ttl);
      source_retrieved_at = some (min_of first.1 (map (λ r. r.1) rest));
      artifact_types = map (λ r. r.2) (first ∷ rest);
      reason = "data_specific_ttl";
    }

abbrev source_free : ℕ → CachePolicyDecision
source_free current = record {
  cacheable = true;
  ttl_seconds = source_free_ttl_seconds;
  expires_at = some (current + seconds source_free_ttl_seconds);
  source_retrieved_at = none;
  artifact_types = [];
  reason = "source_free_answer";
}

abbrev pub decide_scan : ℕ → Scan → Evaluation
decide_scan current (stopped reason) = decided (rejected reason)
decide_scan current (raised error) = raises error
decide_scan current (scanned []) = decided (source_free current)
decide_scan current (scanned (first ∷ rest)) = decided (accepted current first rest)

unfoldable pub evaluate_artifact_ttl : (String → Instant) → ℕ → Bool → List Fields → Evaluation
unfolding scan min_of
evaluate_artifact_ttl from_iso current complete artifacts =
    if complete
    then decide_scan current (scan from_iso current artifacts)
    else decided (rejected "incomplete_result")
