-- ===== src/Research/Execution/Cancels.antt =====
-- How a cancellation of app/services/run_manager.py ends a run.
use mini_alpha.Common.{
  ℕ, ◌≡◌, String, refl, ap, sym, subst, ◌∙◌, true, Option, none, some, List, arith, nat_eq,
}
use mini_alpha.Common.Dict.{get}
use mini_alpha.Common.Text.{join}
use mini_alpha.Common.Value.{Value, Fields}
use mini_alpha.Events.Models.{RunEvent}
use mini_alpha.Events.Resilient.{Transport, ResilientStore}
use mini_alpha.Persistence.Artifacts
use mini_alpha.Persistence.Memory.Effects.{Active}
use mini_alpha.Persistence.Memory.Failing.{Ends, Keeps, cancel_run-Ends}
use mini_alpha.Persistence.Memory.Invariant.{IsValid}
use mini_alpha.Persistence.Memory.State.{Repository, Result, ok, err}
use mini_alpha.Persistence.Memory.{store_artifacts}
use mini_alpha.Persistence.Models.{ConversationRun, StoredArtifact, cancelled}
use mini_alpha.Research.Channel.Kept.{found, text_sent, call_sent, artifact_sent, snapshot-Kept}
use mini_alpha.Research.Channel.{snapshot, cancellation_snapshot}
use mini_alpha.Research.Execution.{World, end_channel, after_cancel, cancel_channel}
use mini_alpha.Research.Execution.Settles.{Settled, IsOpen, end_channel-Settled, end_channel-open}
use mini_alpha.Research.Thread.{Outcome, returns}

module _ (primary : Transport) (sent : RunEvent → ℕ) (r : ℕ) where
  -- What a cancellation answers and leaves behind
  pub record CancelledAs (texts : List String) (calls : List Fields)
      (evidence : List StoredArtifact) (before : ResilientStore primary)
      (answer : Outcome ConversationRun × World primary sent) : Type 0 where
    pub run : ConversationRun
    pub returned : answer.0 ≡ returns run
    pub ended : run.status ≡ cancelled
    pub stored : get r answer.1.repository.runs ≡ some run
    pub kept : Keeps r (join texts) calls evidence run answer.1.repository
    pub settled : Settled primary sent r before answer.1

  module _ (parse_uuid : Value → Option ℕ) (uuid4 : ℕ → ℕ) (now : ℕ) where
    after_cancel-CancelledAs :
        (texts : List String) (calls : List Fields) (evidence : List StoredArtifact)
        (before : ResilientStore primary) (answer : Result ConversationRun × Repository)
        (w : World primary sent)
        → IsOpen primary sent before w
        → (e : Ends r cancelled answer) → Keeps r (join texts) calls evidence e.run answer.1
        → CancelledAs texts calls evidence before
            (after_cancel primary sent parse_uuid uuid4 now answer w)
    after_cancel-CancelledAs texts calls evidence before (ok run, s') w o e kept =
        let u : World primary sent = record w {
          channel = record w.channel { run = run };
          repository = s';
        } in
        let same : (end_channel primary sent now "cancelled" none u).repository ≡ s' =
          ap (λ (z : World primary sent). z.repository)
            (end_channel-open primary sent now "cancelled" none u o.idle) in
        record {
          run = e.run;
          returned = ground (arith, e.returned);
          ended = e.ended;
          stored = ap (λ q. get r q.runs) same ∙ e.stored;
          kept = subst (Keeps r (join texts) calls evidence e.run) (sym same) kept;
          settled =
              end_channel-Settled primary sent r now "cancelled" none before u e.run
                (record {
                  idle = o.idle;
                  numbered = o.numbered;
                  quiet = o.quiet;
                  published = o.published;
                })
                e.stored (rw (e.ended) refl) (rw (e.ended) refl);
        }
    after_cancel-CancelledAs texts calls evidence before (err e', s') w o e kept =
        absurd (ground (arith, e.returned))

    -- Cancelling an active run whose channel has not ended, in a valid repository and where the
    -- payloads of the artifact events that were sent are valid artifacts, returns the run as
    -- cancelled. Its answer is the joined texts of the message chunks that were sent, if there was any;
    -- its tool calls are those of the tool-call events that have a name and arguments, and its
    -- artifacts those payloads, each in the order of the events. The run is settled.
    pub cancel_channel-CancelledAs :
        (before : ResilientStore primary) (w : World primary sent) (evidence : List StoredArtifact)
        → IsValid w.repository
        → Active w.repository r
        → IsOpen primary sent before w
        → store_artifacts parse_uuid uuid4 r now 0 (found artifact_sent w.channel.events)
          ≡ Artifacts.ok evidence
        → CancelledAs
            (found text_sent w.channel.events)
            (found call_sent w.channel.events)
            evidence
            before
            (cancel_channel primary sent parse_uuid uuid4 now r w)
    unfolding cancel_channel cancellation_snapshot
    cancel_channel-CancelledAs before w evidence v active o good =
        let seen = snapshot w.channel.events in
        let kept = snapshot-Kept w.channel.events in
        let accepted : store_artifacts parse_uuid uuid4 r now 0 seen.artifacts
            ≡ Artifacts.ok evidence =
          ap (store_artifacts parse_uuid uuid4 r now 0) kept.evidence ∙ good in
        let (ends, keeps) =
          cancel_run-Ends w.repository v now r parse_uuid uuid4 (join seen.answer_parts)
            seen.tool_calls seen.artifacts evidence active accepted in
        rw (← kept.texts, ← kept.calls)
          (after_cancel-CancelledAs seen.answer_parts seen.tool_calls evidence before _
            (record w { channel = record w.channel { cancel_requested = true } })
            (record {
              idle = o.idle;
              numbered = o.numbered;
              quiet = o.quiet;
              published = o.published;
            })
            ends keeps)
