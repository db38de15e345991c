-- ===== src/Persistence/Memory/Failing.antt =====
-- What `fail_run` and `cancel_run` of app/persistence/memory.py do to a run, as their callers see it.
use mini_alpha.Common.{
  ℕ, ◌≡◌, ◌⊎◌, inl, inr, refl, Option, none, some, nat_eq, String, List, ◌==◌, string_eq,
  if◌then◌else◌,
}
use mini_alpha.Common.Dict.{get, get-put_self}
use mini_alpha.Common.Value.{Fields, Value}
use mini_alpha.Persistence.Artifacts
use mini_alpha.Persistence.Memory.Invariant.{IsValid}
use mini_alpha.Persistence.Memory.Effects.{Active, Active-cases}
use mini_alpha.Persistence.Memory.{fail_run, cancel_run, store_artifacts, parsed_artifacts}
use mini_alpha.Persistence.Memory.State.{Repository, Result, ok, err}
use mini_alpha.Persistence.Models.{
  ConversationRun, StoredArtifact, RepositoryError, Status, error, cancelled,
}

-- A call that has refused: it answers an error and leaves the repository as it was.
abbrev pub Refuses : {A : Type 0} → Result A × Repository → Repository → Type 0
Refuses answer s = (e : RepositoryError) × (answer ≡ (err e, s))

-- A call that has ended the run `r` with a status
pub record Ends (r : ℕ) (status : Status) (answer : Result ConversationRun × Repository)
    : Type 0 where
  pub run : ConversationRun
  pub returned : answer.0 ≡ ok run
  pub stored : get r answer.1.runs ≡ some run
  pub ended : run.status ≡ status

module _ (s : Repository) (v : IsValid s) (now r : ℕ) where
  pub fail_run-Ends :
      (code message : String) → Active s r → Ends r error (fail_run now r code message s)
  unfolding fail_run
  fail_run-Ends code message a =
      rw (a.accepted, a.home)
        (record {
          run = record a.run {
            status = error;
            error_code = some code;
            error_message = some message;
            completed_at = some now;
          };
          returned = refl;
          stored = get-put_self r _ s.runs;
          ended = refl;
        })

  pub fail_run-cases :
      (code message : String)
      → Refuses (fail_run now r code message s) s ⊎ Ends r error (fail_run now r code message s)
  unfolding fail_run
  fail_run-cases code message = elim (Active-cases s v r) [
    | inl (e, refused) ↦ inl (e, rw refused refl)
    | inr a ↦ inr (fail_run-Ends code message a)
  ]

abbrev pub partial_text : String → Option String
partial_text partial = if partial == "" then none else some partial

-- What a cancellation of an active run keeps of the run's work
pub record Keeps (r : ℕ) (partial : String) (tool_calls : List Fields)
    (evidence : List StoredArtifact) (run : ConversationRun) (s' : Repository) : Type 0 where
  pub answered : run.answer ≡ partial_text partial
  pub called : run.tool_calls ≡ tool_calls
  pub shown : get r s'.artifacts ≡ some evidence

module _ (s : Repository) (v : IsValid s) (now r : ℕ) (parse_uuid : Value → Option ℕ)
    (uuid4 : ℕ → ℕ) where
  pub cancel_run-Ends :
      (partial : String) (tool_calls artifacts : List Fields) (evidence : List StoredArtifact)
      → Active s r
      → store_artifacts parse_uuid uuid4 r now 0 artifacts ≡ Artifacts.ok evidence
      → (e : Ends r cancelled (cancel_run parse_uuid uuid4 now r partial tool_calls artifacts s))
        × Keeps r partial tool_calls evidence e.run
            (cancel_run parse_uuid uuid4 now r partial tool_calls artifacts s).1
  unfolding cancel_run
  cancel_run-Ends partial tool_calls artifacts evidence a good =
      rw (a.accepted, good, parsed_artifacts, a.home)
        (
          record {
            run = record a.run {
              status = cancelled;
              answer = partial_text partial;
              tool_calls = tool_calls;
              error_code = some "cancelled";
              error_message = some "The research run was cancelled.";
              completed_at = some now;
            };
            returned = refl;
            stored = get-put_self r _ s.runs;
            ended = refl;
          },
          record { answered = refl; called = refl; shown = get-put_self r _ s.artifacts },
        )
