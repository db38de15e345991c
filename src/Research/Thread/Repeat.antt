-- ===== src/Research/Thread/Repeat.antt =====
-- Repeated requests to app/services/thread_research.py.
use mini_alpha.Common.{
  ℕ, ◌≡◌, ◌≢◌, ◌⊎◌, inl, inr, refl, ap, ◌∙◌, sym, subst, Bool, true, false, String, Option, none,
  some, List, map, arith, if◌then◌else◌, Bool-cases, Option-cases, nat_eq,
}
use mini_alpha.Common.Dict.{get}
use mini_alpha.Common.Value.{Fields, Value}
use mini_alpha.Persistence.Memory.{FreshIds, admit_run, complete_run, fail_run}
use mini_alpha.Persistence.Memory.Calls.{same-differs}
use mini_alpha.Persistence.Memory.Effects.{IsFresh, admit_run-Transition, complete_run-Transition}
use mini_alpha.Persistence.Memory.Histories.{
  Bound, Reach-Kept, Reach-key, admit_run-Bound, replayed,
}
use mini_alpha.Persistence.Memory.Invariant.{IsValid}
use mini_alpha.Persistence.Memory.Outcomes.{complete_run-Published, Published}
use mini_alpha.Persistence.Memory.Reader.{get_turn}
use mini_alpha.Persistence.Memory.State.{Repository, Result, ok, err}
use mini_alpha.Persistence.Memory.Transition.{Transition, Transition-IsValid, here, next}
use mini_alpha.Persistence.Models.{
  ConversationRun, ConversationTurn, RunAdmission, RepositoryError, completed, in_progress, Status,
  error, cancelled,
}
use mini_alpha.Research.Models.{ResearchResult}
use mini_alpha.Research.Thread.Stored.{tool_call_payload}
use mini_alpha.Research.Thread.Turn.{
  AgentAnswer, answered, failed, crashed, research, finish, finished, instead, admitted,
}
use mini_alpha.Research.Thread.{
  Outcome, returns, ThreadResearchResult, replay, completed_result, is_conflict, refused,
  ServiceError, replay_by, replayed_turn,
}

result_cases :
    (x : Result RunAdmission)
    → ((e : RepositoryError) × (x ≡ err e)) ⊎ ((a : RunAdmission) × (x ≡ ok a))
result_cases (ok a) = inr (a, refl)
result_cases (err e) = inl (e, refl)

instead-raises :
    (e : ServiceError) (answer : Result ConversationRun × Repository) (x : ThreadResearchResult)
    → (instead e answer).0 ≢ returns x
instead-raises e (ok run, s) x h = absurd (ground (arith, h))
instead-raises e (err e', s) x h = absurd (ground (arith, h))

stored_turn :
    (turn : ConversationTurn) (s : Repository)
    → get turn.run.run_id s.runs ≡ some turn.run
    → get turn.run.run_id s.artifacts ≡ some turn.artifacts
    → get_turn turn.run.run_id s ≡ some turn
unfolding get_turn
stored_turn turn s there evidence = rw (get_turn, there, evidence) refl

module _ (uuid_text : ℕ → String) where
  -- A replay that returns has found a completed run.
  replay-marked :
      (run : ConversationRun) (s : Repository) (status : Status) (x : ThreadResearchResult)
      → run.status ≡ status
      → replay uuid_text run s ≡ returns x
      → x ≡ record x { replayed = true }
  unfolding replay completed_result
  replay-marked run s completed x e h = elim (Option-cases (get_turn run.run_id s)) [
    | inl missing ↦ absurd (ground arith)
    | inr (turn, found) ↦ ground arith
  ]
  replay-marked run s in_progress x e h = absurd (ground arith)
  replay-marked run s error x e h = absurd (ground arith)
  replay-marked run s cancelled x e h = absurd (ground arith)

  replay-home :
      (run : ConversationRun) (s : Repository) (status : Status) (x : ThreadResearchResult)
      → run.status ≡ status
      → get run.run_id s.runs ≡ some run
      → replay uuid_text run s ≡ returns x
      → run.thread_id ≡ x.thread_id
  unfolding replay completed_result get_turn
  replay-home run s completed x e there h = ground (arith, get_turn)
  replay-home run s in_progress x e there h = absurd (ground arith)
  replay-home run s error x e there h = absurd (ground arith)
  replay-home run s cancelled x e there h = absurd (ground arith)

  completed_result-home :
      (turn : ConversationTurn)
      → (completed_result uuid_text false turn).thread_id ≡ turn.run.thread_id
  unfolding completed_result
  completed_result-home turn = refl

  -- A completed run that is stored with its artifacts is replayed as it was returned.
  replay-completed :
      (turn : ConversationTurn) (s : Repository)
      → turn.run.status ≡ completed
      → get turn.run.run_id s.runs ≡ some turn.run
      → get turn.run.run_id s.artifacts ≡ some turn.artifacts
      → replay uuid_text turn.run s
        ≡ returns (record (completed_result uuid_text false turn) { replayed = true })
  unfolding replay completed_result
  replay-completed turn s done there evidence =
      ap (λ status. replay_by uuid_text status turn.run s) done
      ∙ ap (replayed_turn uuid_text) (stored_turn turn s there evidence)

  module _ (parse_uuid : Value → Option ℕ) (uuid4 : ℕ → ℕ) where
    -- A turn that returns has completed its run.
    record Finished (later : ℕ) (admission : RunAdmission) (s s' : Repository)
        (x : ThreadResearchResult) : Type 0 where
      result : ResearchResult
      checkpoint : String
      turn : ConversationTurn
      completed :
          (complete_run parse_uuid uuid4 later admission.run.run_id admission.from_checkpoint_id
            checkpoint result.answer
            (map tool_call_payload result.tool_calls)
            result.artifacts
            s)
          ≡ (ok turn, s')
      same : x ≡ completed_result uuid_text false turn

    finished-ok :
        (later r : ℕ) (answer : Result ConversationTurn × Repository) (x : ThreadResearchResult)
        → (finished uuid_text parse_uuid uuid4 later r answer).0 ≡ returns x
        → (turn : ConversationTurn) × (answer
            ≡ (ok turn, (finished uuid_text parse_uuid uuid4 later r answer).1))
          × (x ≡ completed_result uuid_text false turn)
    finished-ok later r (ok turn, s) x h = (turn, refl, ground arith)
    finished-ok later r (err e, s) x h = elim (Bool-cases (is_conflict e)) [
      | inl c ↦ absurd (
          instead-raises (refused e)
            (fail_run later r "thread_conflict"
              "The research thread changed while the request was running." s)
            x (rw c at h))
      | inr c ↦ absurd (ground arith)
    ]

    finish-Finished :
        (later : ℕ) (admission : RunAdmission) (answer : AgentAnswer) (s : Repository)
        (x : ThreadResearchResult)
        → (finish uuid_text parse_uuid uuid4 later admission answer s).0 ≡ returns x
        → Finished later admission s
            (finish uuid_text parse_uuid uuid4 later admission answer s).1
            x
    finish-Finished later admission (failed code) s x h =
        absurd (instead-raises _ (fail_run later admission.run.run_id code _ s) x h)
    finish-Finished later admission crashed s x h = absurd (ground (arith, h))
    finish-Finished later admission (answered result) s x h =
        elim (Option-cases result.checkpoint_id) [
          | inl e ↦
              absurd (instead-raises _ (fail_run later admission.run.run_id _ _ s) x (rw e at h))
          | inr (checkpoint, e) ↦
              let (turn, written, same) = finished-ok later admission.run.run_id _ x (rw e at h) in
              rw e (record {
                result = result;
                checkpoint = checkpoint;
                turn = turn;
                completed = written;
                same = same;
              })
        ]

    again-replayed :
        (fresh : FreshIds) (now later k t : ℕ) (agent : RunAdmission → AgentAnswer)
        (message : String) (s : Repository) (o : Outcome ThreadResearchResult) (r : ℕ)
        → IsValid s
        → (b : Bound s k r t message) → replay uuid_text b.run s ≡ o
        → (again : Option ℕ) → (again ≡ none) ⊎ (again ≡ some t)
        → research uuid_text parse_uuid uuid4 fresh now later agent again message (some k) s
          ≡ (o, s)
    unfolding research
    again-replayed fresh now later k t agent message s o r v b h again same =
        let (a, eq, run, flag) =
          replayed fresh now again message k r t s v b
            (same-differs again t message b.run same b.home b.text) in
        ap (admitted uuid_text parse_uuid uuid4 later agent) eq
        ∙ rw flag (ap (λ q. (replay uuid_text q s, s)) run ∙ ap (λ p. (p, s)) h)

    abbrev Repeats : ℕ → String → ThreadResearchResult → Repository → Type 0
    Repeats k message x s =
        (fresh : FreshIds) (now later : ℕ) (agent : RunAdmission → AgentAnswer) (again : Option ℕ)
        → (again ≡ none) ⊎ (again ≡ some x.thread_id)
        → research uuid_text parse_uuid uuid4 fresh now later agent again message (some k) s
          ≡ (returns (record x { replayed = true }), s)

    replayed-Repeats :
        (k r t : ℕ) (message : String) (s : Repository) (x : ThreadResearchResult)
        → IsValid s
        → (b : Bound s k r t message)
        → replay uuid_text b.run s ≡ returns (record x { replayed = true })
        → t ≡ x.thread_id
        → Repeats k message x s
    replayed-Repeats k r t message s x v b h home fresh now later agent again same =
        again-replayed fresh now later k t agent message s (returns (record x { replayed = true }))
          r v b h again (rw home same)

    published :
        {later r : ℕ} {calls artifacts : List Fields} {expected : Option String}
        {checkpoint answer : String} {s s' : Repository} {turn : ConversationTurn}
        {written : Result ConversationTurn × Repository}
        → written ≡ (ok turn, s')
        → Published parse_uuid uuid4 later r calls artifacts expected checkpoint answer s turn
            written.1
        → Published parse_uuid uuid4 later r calls artifacts expected checkpoint answer s turn s'
    published {later} {r} {calls} {artifacts} {expected} {checkpoint} {answer} {s} {s'} {turn} e p =
        subst (Published parse_uuid uuid4 later r calls artifacts expected checkpoint answer s turn)
          (ap (λ q. q.1) e) p

    Finished-Repeats :
        (k later : ℕ) (message : String) (a : RunAdmission) (s s' : Repository)
        (x : ThreadResearchResult)
        → IsValid s
        → Bound s k a.run.run_id a.run.thread_id message
        → Finished later a s s' x
        → Repeats k message x s'
    Finished-Repeats k later message a s s' x v b f =
        let r = a.run.run_id in
        let calls = map tool_call_payload f.result.tool_calls in
        let step : Transition s s' = subst (Transition s) (ap (λ p. p.1) f.completed) (
          complete_run-Transition s v later r parse_uuid uuid4 calls f.result.artifacts
            a.from_checkpoint_id f.checkpoint f.result.answer) in
        let p = published f.completed (
          complete_run-Published parse_uuid uuid4 later r calls f.result.artifacts
            a.from_checkpoint_id f.checkpoint f.result.answer s f.turn v
            (ap (λ p. p.0) f.completed)) in
        let kept = Reach-Kept r b.run (next here step) (record {
          run = b.run;
          there = b.there;
          same = record {
            run_id = refl;
            thread_id = refl;
            turn_index = refl;
            request_key = refl;
            message = refl;
          };
        }) in
        let known : kept.run ≡ f.turn.run = ground (arith, kept.there, p.stored_run) in
        let own : f.turn.run.run_id ≡ r =
          ap (λ (y : ConversationRun). y.run_id) (sym known) ∙ kept.same.run_id ∙ b.id in
        let bound : Bound s' k r a.run.thread_id message = record {
          run = f.turn.run;
          key = Reach-key k r (next here step) b.key;
          there = p.stored_run;
          text = rw⁻¹ known (kept.same.message ∙ b.text);
          home = rw⁻¹ known (kept.same.thread_id ∙ b.home);
          id = own;
        } in
        replayed-Repeats k r a.run.thread_id message s' x (Transition-IsValid step v) bound
          (rw (f.same) (
            replay-completed f.turn s' p.done (ap (λ q. get q s'.runs) own ∙ p.stored_run)
              (ap (λ q. get q s'.artifacts) own ∙ p.evidence)))
          (rw (f.same) (
            sym (
              completed_result-home f.turn
              ∙ ap (λ (y : ConversationRun). y.thread_id) (sym known)
              ∙ kept.same.thread_id
              ∙ b.home)))

    branch-Repeats :
        (k later : ℕ) (message : String) (answer : AgentAnswer) (a : RunAdmission) (s : Repository)
        (x : ThreadResearchResult) (again : Bool)
        → IsValid s
        → (b : Bound s k a.run.run_id a.run.thread_id message) → b.run ≡ a.run
        → (if again
            then (replay uuid_text a.run s, s)
            else finish uuid_text parse_uuid uuid4 later a answer s).0
          ≡ returns x
        → Repeats k message x
            (if again
              then (replay uuid_text a.run s, s)
              else finish uuid_text parse_uuid uuid4 later a answer s).1
    branch-Repeats k later message answer a s x true v b same h =
        replayed-Repeats k a.run.run_id a.run.thread_id message s x v b
          (ap (λ y. replay uuid_text y s) same
            ∙ h
            ∙ ap returns (replay-marked a.run s a.run.status x refl h))
          (replay-home a.run s a.run.status x refl (b.there ∙ ap some same) h)
    branch-Repeats k later message answer a s x false v b same h =
        Finished-Repeats k later message a s _ x v b (finish-Finished later a answer s x h)

    -- When a request under a key returns, in a valid repository and with unused fresh ids, the same
    -- message under the same key, to no thread or to the result's, returns the same result marked as
    -- replayed, whatever the agent would now do, and changes nothing.
    pub research-repeats :
        (fresh fresh' : FreshIds) (now later now' later' : ℕ)
        (agent agent' : RunAdmission → AgentAnswer) (thread_id : Option ℕ) (message : String)
        (k : ℕ) (s : Repository) (x : ThreadResearchResult)
        → IsValid s
        → IsFresh fresh s
        → (research uuid_text parse_uuid uuid4 fresh now later agent thread_id message (some k) s).0
          ≡ returns x
        → (again : Option ℕ) → (again ≡ none) ⊎ (again ≡ some x.thread_id)
        → let s' =
            (research uuid_text parse_uuid uuid4 fresh now later agent thread_id message
              (some k)
              s).1 in
          research uuid_text parse_uuid uuid4 fresh' now' later' agent' again message (some k) s'
          ≡ (returns (record x { replayed = true }), s')
    unfolding research
    research-repeats fresh fresh' now later now' later' agent agent' thread_id message k s x v f h
          again same =
        elim (result_cases (admit_run fresh now thread_id message (some k) s).0) [
          | inl (e, refusal) ↦ absurd (ground (arith, h))
          | inr (a, accepted) ↦
              let s₁ = (admit_run fresh now thread_id message (some k) s).1 in
              let (b, own) = admit_run-Bound fresh now message k s v thread_id a accepted in
              rw (accepted) (
                branch-Repeats k later message (agent a) a s₁ x a.replayed
                  (Transition-IsValid
                    (admit_run-Transition fresh now message s v f thread_id (some k)) v)
                  b own (rw accepted at h) fresh' now' later' agent' again same)
        ]
