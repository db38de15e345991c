-- ===== src/Research/Thread/Ends.antt =====
-- How a stream of app/services/thread_research.py ends.
use mini_alpha.Common.{
  ℕ, ◌≡◌, ◌⊎◌, inl, inr, refl, ap, subst, sym, false, String, Option, none, some, List, [], ◌∷◌,
  ◌++◌, select, select-append, map, arith, Bool-cases, Option-cases, nat_eq, append_assoc,
}
use mini_alpha.Common.Dict.{get}
use mini_alpha.Common.Value.{Fields, Value, str, get_field}
use mini_alpha.Events.Models.{EventName, run_end, is_run_end}
use mini_alpha.Persistence.Memory.{complete_run, fail_run}
use mini_alpha.Persistence.Memory.Failing.{Refuses, Ends, fail_run-cases}
use mini_alpha.Persistence.Memory.Invariant.{IsValid}
use mini_alpha.Persistence.Memory.Outcomes.{complete_run-error_unchanged, complete_run-Published}
use mini_alpha.Persistence.Memory.State.{Repository, Result, is_active}
use mini_alpha.Persistence.Memory.State
use mini_alpha.Persistence.Models.{
  ConversationRun, ConversationTurn, RunAdmission, RepositoryError, Status, in_progress, completed,
  error, cancelled,
}
use mini_alpha.Research.Models.{
  ResearchResult, AgentStreamItem, stream_event, stream_complete, AgentRun, Ending, exhausted,
  research_error, crashed, AgentEventName,
}
use mini_alpha.Research.Thread.Stored.{tool_call_payload}
use mini_alpha.Research.Thread.{
  ServiceError, refused, Line, spoken, Closing, close_failed, close_research_error, close_conflict,
  commit, close, is_conflict, committed, failed, agent_crashed, commit_result,
}

abbrev pub status_text : Status → String
status_text in_progress = "in_progress"
status_text completed = "completed"
status_text error = "error"
status_text cancelled = "cancelled"

-- The lines that end a run
abbrev pub endings : List Line → List Line
endings lines = select (λ line. is_run_end line.0) lines

-- The stream has told how the run ended: its last line is its one `run_end`, with the status of the
-- run that the repository now holds.
pub record Told (r : ℕ) (lines : List Line) (raised : Option ServiceError) (s : Repository)
    : Type 0 where
  pub run : ConversationRun
  pub front : List Line
  pub payload : Fields
  pub returned : raised ≡ none
  pub stored : get r s.runs ≡ some run
  pub over : is_active run.status ≡ false
  pub order : lines ≡ front ++ (run_end, payload) ∷ []
  pub once : endings front ≡ []
  pub status : get_field "status" payload ≡ str (status_text run.status)

-- The stream has raised before anything of the outcome was written or told.
pub record Broken (lines : List Line) (raised : Option ServiceError) (s s' : Repository)
    : Type 0 where
  pub e : ServiceError
  pub escaped : raised ≡ some e
  pub untold : endings lines ≡ []
  pub unchanged : s' ≡ s

abbrev pub Stops : ℕ → List Line → Option ServiceError → Repository → Repository → Type 0
Stops r lines raised s s' = Told r lines raised s' ⊎ Broken lines raised s s'

abbrev Closes : ℕ → Closing → Repository → Type 0
Closes r c s = Stops r c.lines c.raised s c.repository

-- Lines before the closing ones change nothing.
pub Stops-front :
    (r : ℕ) (front lines : List Line) (raised : Option ServiceError) (s s' : Repository)
    → endings front ≡ []
    → Stops r lines raised s s'
    → Stops r (front ++ lines) raised s s'
Stops-front r front lines raised s s' quiet (inl t) = inl (record {
  run = t.run;
  front = front ++ t.front;
  payload = t.payload;
  returned = t.returned;
  stored = t.stored;
  over = t.over;
  order = rw (t.order) (sym (append_assoc front t.front ((run_end, t.payload) ∷ [])));
  once = rw (select-append (λ line. is_run_end line.0) front t.front, quiet) t.once;
  status = t.status;
})
Stops-front r front lines raised s s' quiet (inr b) = inr (record {
  e = b.e;
  escaped = b.escaped;
  untold = rw (select-append (λ line. is_run_end line.0) front lines, quiet) b.untold;
  unchanged = b.unchanged;
})

pub endings-spoken : (items : List AgentStreamItem) → endings (spoken items) ≡ []
endings-spoken [] = refl
endings-spoken (stream_event AgentEventName.progress payload ∷ items) = endings-spoken items
endings-spoken (stream_event AgentEventName.message_chunk payload ∷ items) = endings-spoken items
endings-spoken (stream_event AgentEventName.tool_call payload ∷ items) = endings-spoken items
endings-spoken (stream_event AgentEventName.tool_result payload ∷ items) = endings-spoken items
endings-spoken (stream_event AgentEventName.artifact payload ∷ items) = endings-spoken items
endings-spoken (stream_complete result ∷ items) = endings-spoken items

failed-Closes :
    (r : ℕ) (code message : String) (s : Repository) (answer : Result ConversationRun × Repository)
    → Refuses answer s ⊎ Ends r error answer
    → Closes r (failed code message answer) s
failed-Closes r code message s (State.ok run, s') (inl (e, refusal)) =
    absurd (ground (arith, refusal))
failed-Closes r code message s (State.ok run, s') (inr ends) = inl (record {
  run = ends.run;
  front = (EventName.error, _) ∷ [];
  payload = _;
  returned = refl;
  stored = ends.stored;
  over = rw (ends.ended) refl;
  order = refl;
  once = refl;
  status = rw (ends.ended) refl;
})
failed-Closes r code message s (State.err e, s') (inl (e', refusal)) =
    inr (record { e = refused e; escaped = refl; untold = refl; unchanged = ap (λ x. x.1) refusal })
failed-Closes r code message s (State.err e, s') (inr ends) = absurd (ground (arith, ends.returned))

module _ (s : Repository) (v : IsValid s) (now r : ℕ) where
  close_failed-Closes :
      (code stored public : String) → Closes r (close_failed now r code stored public s) s
  unfolding close_failed
  close_failed-Closes code stored public =
      failed-Closes r code public s (fail_run now r code stored s)
        (fail_run-cases s v now r code stored)

  close_research_error-Closes : (code : String) → Closes r (close_research_error now r code s) s
  unfolding close_research_error
  close_research_error-Closes code = close_failed-Closes code _ _

  close_conflict-Closes : Closes r (close_conflict now r s) s
  unfolding close_conflict
  close_conflict-Closes = close_failed-Closes "thread_conflict" _ _

  committed-Closes :
      (answer : Result ConversationTurn × Repository)
      → ((turn : ConversationTurn)
          → answer.0 ≡ State.ok turn
          → (get r answer.1.runs ≡ some turn.run) × (turn.run.status ≡ completed))
      → ((e : RepositoryError) → answer.0 ≡ State.err e → answer.1 ≡ s)
      → Closes r (committed now r answer) s
  committed-Closes (State.ok turn, s') done kept =
      let (stored, ended) = done turn refl in
      inl (record {
        run = turn.run;
        front = [];
        payload = _;
        returned = refl;
        stored = stored;
        over = rw ended refl;
        order = refl;
        once = refl;
        status = rw ended refl;
      })
  committed-Closes (State.err e, s') done kept = elim (Bool-cases (is_conflict e)) [
    | inl c ↦ rw (c, kept e refl) close_conflict-Closes
    | inr c ↦
        rw c
          (inr (record { e = refused e; escaped = refl; untold = refl; unchanged = kept e refl }))
  ]

  module _ (parse_uuid : Value → Option ℕ) (uuid4 : ℕ → ℕ) where
    commit_result-Closes :
        (admission : RunAdmission) (result : ResearchResult) (checkpoint : String)
        → admission.run.run_id ≡ r
        → Closes r (commit_result parse_uuid uuid4 now admission result checkpoint s) s
    commit_result-Closes admission result checkpoint own =
        let calls = map tool_call_payload result.tool_calls in
        subst
          (λ q.
            Closes r
              (committed now q (
                complete_run parse_uuid uuid4 now q admission.from_checkpoint_id checkpoint
                  result.answer calls result.artifacts s))
              s)
          (sym own)
          (committed-Closes _
            (λ turn h.
              let p =
                complete_run-Published parse_uuid uuid4 now r calls result.artifacts
                  admission.from_checkpoint_id checkpoint result.answer s turn v h in
              (p.stored_run, p.done))
            (complete_run-error_unchanged parse_uuid uuid4 now r calls result.artifacts
              admission.from_checkpoint_id checkpoint result.answer s))

    commit-Closes :
        (admission : RunAdmission) (result : Option ResearchResult)
        → admission.run.run_id ≡ r
        → Closes r (commit parse_uuid uuid4 now admission result s) s
    commit-Closes admission none own = rw own (close_research_error-Closes "research_failed")
    commit-Closes admission (some result) own = elim (Option-cases result.checkpoint_id) [
      | inl e ↦ rw (e, own) (close_research_error-Closes "research_failed")
      | inr (checkpoint, e) ↦ rw e (commit_result-Closes admission result checkpoint own)
    ]

    pub close-Closes :
        (admission : RunAdmission) (agent : AgentRun) (ending : Ending)
        → admission.run.run_id ≡ r
        → agent.ending ≡ ending
        → Closes r (close parse_uuid uuid4 now admission agent s) s
    unfolding close
    close-Closes admission agent exhausted own e = rw e (commit-Closes admission _ own)
    close-Closes admission agent (research_error code) own e =
        rw (e, own) (close_research_error-Closes code)
    close-Closes admission agent crashed own e =
        rw e (inr (record { e = agent_crashed; escaped = refl; untold = refl; unchanged = refl }))
