-- ===== src/Research/Thread/Turn.antt =====
-- app/services/thread_research.py: `research`, a turn without a stream, and the methods that forward
-- to the repository.
use mini_alpha.Common.{ℕ, String, Bool, true, false, Option, none, some, if◌then◌else◌, map}
use mini_alpha.Common.Value.{Value}
use mini_alpha.Persistence.Memory.{
  FreshIds, admit_run, complete_run, fail_run, recover_abandoned_runs,
}
use mini_alpha.Persistence.Memory.Reader
use mini_alpha.Persistence.Memory.State.{Repository, Result, ok, err}
use mini_alpha.Persistence.Models.{
  ConversationThread, ConversationRun, ConversationTurn, RunAdmission, thread_not_found,
  run_not_found,
}
use mini_alpha.Research.Models.{ResearchResult}
use mini_alpha.Research.Thread.Stored.{tool_call_payload}
use mini_alpha.Research.Thread.{
  Outcome, returns, raises, ServiceError, refused, research_failed, agent_crashed,
  ThreadResearchResult, replay, completed_result, execution_error_message, is_conflict,
}

-- How the agent's `research_thread` ends
pub data AgentAnswer : Type 0 where
  answered : ResearchResult → AgentAnswer
  failed : String → AgentAnswer
  crashed : AgentAnswer

-- The error of `fail_run` where it raises, and the exception on its way otherwise
abbrev pub instead :
    ServiceError → Result ConversationRun × Repository → Outcome ThreadResearchResult × Repository
instead e (ok run, s) = (raises e, s)
instead e (err e', s) = (raises (refused e'), s)

module _ (uuid_text : ℕ → String) (parse_uuid : Value → Option ℕ) (uuid4 : ℕ → ℕ) where
  abbrev pub finished :
      ℕ → ℕ → Result ConversationTurn × Repository → Outcome ThreadResearchResult × Repository
  finished now run_id (ok turn, s) = (returns (completed_result uuid_text false turn), s)
  finished now run_id (err e, s) =
      if is_conflict e
      then instead (refused e) (
          fail_run now run_id "thread_conflict"
            "The research thread changed while the request was running." s)
      else (raises (refused e), s)

  abbrev pub finish :
      ℕ → RunAdmission → AgentAnswer → Repository → Outcome ThreadResearchResult × Repository
  finish now admission (failed code) s =
      instead (research_failed code)
        (fail_run now admission.run.run_id code (execution_error_message code) s)
  finish now admission crashed s = (raises agent_crashed, s)
  finish now admission (answered result) s = elim result.checkpoint_id [
    | none ↦ instead (research_failed "research_failed") (
        fail_run now admission.run.run_id "checkpoint_missing"
          "The research agent did not produce a checkpoint." s)
    | some checkpoint ↦ finished now admission.run.run_id (
        complete_run parse_uuid uuid4 now admission.run.run_id admission.from_checkpoint_id
          checkpoint result.answer (map tool_call_payload result.tool_calls) result.artifacts s)
  ]

  abbrev pub admitted :
      ℕ
      → (RunAdmission → AgentAnswer)
      → Result RunAdmission × Repository
      → Outcome ThreadResearchResult × Repository
  admitted later agent (err e, s) = (raises (refused e), s)
  admitted later agent (ok admission, s) =
      if admission.replayed
      then (replay uuid_text admission.run s, s)
      else finish later admission (agent admission) s

  -- `_research`: the run is admitted at `now` and ends at `later`.
  unfoldable pub research :
      FreshIds
      → ℕ
      → ℕ
      → (RunAdmission → AgentAnswer)
      → Option ℕ
      → String
      → Option ℕ
      → Repository
      → Outcome ThreadResearchResult × Repository
  research fresh now later agent thread_id message key s =
      admitted later agent (admit_run fresh now thread_id message key s)

unfoldable pub get_thread : ℕ → Repository → Outcome ConversationThread
get_thread t s = elim (Reader.get_thread t s) [
  | none ↦ raises (refused thread_not_found)
  | some thread ↦ returns thread
]

unfoldable pub get_turn : ℕ → Repository → Outcome ConversationTurn
get_turn r s = elim (Reader.get_turn r s) [
  | none ↦ raises (refused run_not_found)
  | some turn ↦ returns turn
]

-- The flag `_startup_recovery_completed` and the repository; the count is 0 after the first call.
abbrev recovered : Result ℕ × Repository → Outcome ℕ × Bool × Repository
recovered (ok n, s) = (returns n, true, s)
recovered (err e, s) = (raises (refused e), false, s)

unfoldable pub recover_once : ℕ → Bool → Repository → Outcome ℕ × Bool × Repository
recover_once now done s =
    if done then (returns 0, true, s) else recovered (recover_abandoned_runs now s)
