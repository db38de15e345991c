-- ===== src/Persistence/Models.antt =====
-- app/persistence/models.py: the records that a conversation repository stores, and the controlled
-- failures of app/persistence/repository.py. An id is the number of its UUID, a time its
-- microseconds since the epoch, `dict[str, object]` the fields of a Python mapping.
use mini_alpha.Common.{ℕ, String, Bool, Option, List}
use mini_alpha.Common.Value.{Fields}
use mini_alpha.Persistence.Artifacts.{ArtifactStatus}
use mini_alpha.Persistence.Artifacts

-- `RunStatus` and `ThreadStatus`
pub data Status : Type 0 where
  in_progress completed error cancelled : Status

pub record ConversationThread : Type 0 where
  pub thread_id : ℕ
  pub status : Status
  pub title : Option String
  pub latest_checkpoint_id : Option String
  pub next_turn_index : ℕ
  pub created_at : ℕ
  pub updated_at : ℕ

pub record ConversationRun : Type 0 where
  pub run_id : ℕ
  pub query_id : ℕ
  pub thread_id : ℕ
  pub turn_index : ℕ
  pub attempt_no : ℕ
  pub request_key : Option ℕ
  pub status : Status
  pub message : String
  pub answer : Option String
  pub tool_calls : List Fields
  pub error_code : Option String
  pub error_message : Option String
  pub started_at : ℕ
  pub completed_at : Option ℕ

pub record StoredArtifact : Type 0 where
  pub artifact_id : ℕ
  pub run_id : ℕ
  pub ordinal : ℕ
  pub artifact_type : String
  pub schema_version : ℕ
  pub status : ArtifactStatus
  pub payload : Option Fields
  pub error : Option String
  pub failure : Option Fields
  pub provenance : Option Fields
  pub created_at : ℕ

pub record RunAdmission : Type 0 where
  pub run : ConversationRun
  pub from_checkpoint_id : Option String
  pub replayed : Bool

pub record ConversationTurn : Type 0 where
  pub run : ConversationRun
  pub artifacts : List StoredArtifact

pub record ThreadPage : Type 0 where
  pub threads : List ConversationThread
  pub total : ℕ
  pub limit : ℕ
  pub offset : ℕ

-- `ConversationPersistenceError` and its subclasses, the `KeyError` of a missing dict key, and the
-- exceptions of the artifact validation.
pub data RepositoryError : Type 0 where
  thread_not_found run_not_found run_in_progress request_key_conflict : RepositoryError
  checkpoint_conflict run_lifecycle_conflict key_error : RepositoryError
  invalid_artifact : Artifacts.Invalid → RepositoryError
