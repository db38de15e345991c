-- ===== src/Persistence/Artifacts.antt =====
-- app/persistence/artifacts.py: the validation of one artifact envelope before it is stored.
use mini_alpha.Agent.Failures
use mini_alpha.Agent.Failures.{parse_structured_failure, to_dict}
use mini_alpha.Common.{ℕ, String, Option, none, some, ◌==◌, string_eq, ltb, if◌then◌else◌}
use mini_alpha.Common.Value.{Value, Fields, null, str, int, pos, dict, get_field, is_null}

-- `Literal["ok", "error"]`
pub data ArtifactStatus : Type 0 where
  success failed : ArtifactStatus

-- The exceptions of `parse_artifact`
pub data Invalid : Type 0 where
  bad_id bad_type bad_schema_version bad_status bad_success bad_error bad_failure : Invalid
  bad_provenance : Invalid
  failure : Failures.Invalid → Invalid

pub data Result {ℓ} (A : Type ℓ) : Type ℓ where
  ok : A → Result A
  err : Invalid → Result A

infixl 5 ◌>>=◌
abbrev pub ◌>>=◌ {ℓ κ} : {A : Type ℓ} {B : Type κ} → Result A → (A → Result B) → Result B
ok x >>= next = next x
err e >>= next = err e

pub record ParsedArtifact : Type 0 where
  pub artifact_id : Option ℕ
  pub artifact_type : String
  pub schema_version : ℕ
  pub status : ArtifactStatus
  pub payload : Option Fields
  pub error : Option String
  pub failure : Option Fields
  pub provenance : Option Fields

required_type : Value → Result String
required_type (str s) = if s == "" then err bad_type else ok s
required_type _ = err bad_type

required_version : Value → Result ℕ
required_version (int (pos n)) = if ltb n 1 then err bad_schema_version else ok n
required_version _ = err bad_schema_version

required_status : Value → Result ArtifactStatus
required_status (str s) =
    if s == "ok" then ok success else if s == "error" then ok failed else err bad_status
required_status _ = err bad_status

-- The data of a successful artifact, which has neither an error nor a failure
success_data : Fields → Result Fields
success_data artifact = elim (get_field "data" artifact) [
  | dict d ↦
      if is_null (get_field "error" artifact)
      then (if is_null (get_field "failure" artifact) then ok d else err bad_success)
      else err bad_success
  | _ ↦ err bad_success
]

error_text : Fields → Result String
error_text artifact =
    if is_null (get_field "data" artifact)
    then elim (get_field "error" artifact) [
      | str s ↦ if s == "" then err bad_error else ok s
      | _ ↦ err bad_error
    ]
    else err bad_error

read_failure : Failures.Result Failures.StructuredFailure → Result (Option Fields)
read_failure (Failures.ok f) = ok (some (to_dict f))
read_failure (Failures.err e) = err (failure e)

optional_failure : Value → Result (Option Fields)
unfolding read_failure
optional_failure null = ok none
optional_failure (dict d) = read_failure (parse_structured_failure d)
optional_failure _ = err bad_failure

optional_provenance : Value → Result (Option Fields)
optional_provenance null = ok none
optional_provenance (dict d) = ok (some d)
optional_provenance _ = err bad_provenance

-- The outcome fields: data, error and failure
outcome : ArtifactStatus → Fields → Result (Option Fields × Option String × Option Fields)
unfolding success_data error_text optional_failure
outcome success artifact = do d ← success_data artifact; ok (some d, none, none)
outcome failed artifact = do
  e ← error_text artifact
  f ← optional_failure (get_field "failure" artifact)
  ok (none, some e, f)

-- `parse_uuid` is `UUID(str(value))` of Python's `uuid` module, none where it raises.
module _ (parse_uuid : Value → Option ℕ) where
  optional_id : Value → Result (Option ℕ)
  optional_id null = ok none
  optional_id (Value.uuid n) = ok (some n)
  optional_id v = elim (parse_uuid v) [ none ↦ err bad_id | some n ↦ ok (some n) ]

  unfoldable pub parse_artifact : Fields → Result ParsedArtifact
  unfolding optional_id required_type required_version required_status outcome optional_provenance
  parse_artifact artifact = do
    artifact_id ← optional_id (get_field "artifact_id" artifact)
    artifact_type ← required_type (get_field "artifact_type" artifact)
    schema_version ← required_version (get_field "schema_version" artifact)
    status ← required_status (get_field "status" artifact)
    (payload, error, detail) ← outcome status artifact
    provenance ← optional_provenance (get_field "provenance" artifact)
    ok (record {
      artifact_id = artifact_id;
      artifact_type = artifact_type;
      schema_version = schema_version;
      status = status;
      payload = payload;
      error = error;
      failure = detail;
      provenance = provenance;
    })
