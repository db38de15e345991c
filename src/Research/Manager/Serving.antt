-- ===== src/Research/Manager/Serving.antt =====
-- From a submission to app/services/run_manager.py to the end of its run.
use mini_alpha.Common.{
  ℕ, ◌≡◌, refl, ap, sym, subst, ◌∙◌, Bool, true, false, String, Option, none, some, List, [], ◌∷◌,
  arith, nat_eq, if◌then◌else◌,
}
use mini_alpha.Common.Dict.{get, put, get-put_self}
use mini_alpha.Common.Value.{Value}
use mini_alpha.Events.Models.{RunEvent}
use mini_alpha.Events.Resilient.{Transport, ResilientStore}
use mini_alpha.Persistence.Memory.Admitting.{admit_run-IsNew, new-Active}
use mini_alpha.Persistence.Memory.Effects.{Active, IsFresh, admit_run-Transition}
use mini_alpha.Persistence.Memory.Invariant.{IsValid}
use mini_alpha.Persistence.Memory.State.{Repository, Result, ok, err}
use mini_alpha.Persistence.Memory.Transition.{Transition-IsValid}
use mini_alpha.Persistence.Memory.{FreshIds, admit_run}
use mini_alpha.Persistence.Models.{ConversationRun, RunAdmission}
use mini_alpha.Research.Channel.{RunChannel, new_channel}
use mini_alpha.Research.Execution.Settles.{Settled, execute-Settled}
use mini_alpha.Research.Execution.{execute}
use mini_alpha.Research.Manager.{
  Manager, RunSubmission, submit, submitted, answer_error, answer_known, enqueue, serve, work,
  world_of,
}
use mini_alpha.Research.Models.{AgentRun}
use mini_alpha.Research.Thread.{
  Outcome, returns, raises, ServiceError, ThreadResearchStream, ThreadResearchResult, prepared,
  prepare_stream, with_replay, replay, existing_run_in_progress, persisted_run_failed, refused,
  research_failed, agent_crashed,
}

module _ (primary : Transport) (sent : RunEvent → ℕ) where
  -- A run that waits for the worker
  pub record IsReady (r : ℕ) (queued : ThreadResearchStream) (m : Manager primary sent)
      : Type 0 where
    pub valid : IsValid m.repository
    pub active : Active m.repository r
    pub own : queued.admission.run.run_id ≡ r
    pub first : queued.replay ≡ none
    pub channel : get r m.channels ≡ some (new_channel queued.admission.run)

  -- The worker goes on, and the run's channel is settled.
  pub record IsServed (r : ℕ) (before : ResilientStore primary)
      (answer : Option ServiceError × Manager primary sent) : Type 0 where
    pub channel : RunChannel
    pub returned : answer.0 ≡ none
    pub known : get r answer.1.channels ≡ some channel
    pub settled : Settled primary sent r before (world_of primary sent channel answer.1)

  module _ (parse_uuid : Value → Option ℕ) (uuid4 : ℕ → ℕ) where
    serve-IsServed :
        (r : ℕ) (queued : ThreadResearchStream) (clock : ℕ → ℕ) (now : ℕ) (agent : AgentRun)
        (m : Manager primary sent)
        → IsReady r queued m
        → IsServed r m.transport (serve primary sent parse_uuid uuid4 clock now agent queued m)
    unfolding serve
    serve-IsServed r queued clock now agent m q =
        let (returned, settled) =
          execute-Settled primary sent r now queued.admission.run m.transport m.repository
            parse_uuid uuid4 clock queued agent q.valid q.active q.own q.own q.first in
        let w =
          (execute primary sent parse_uuid uuid4 clock now queued agent
            (world_of primary sent (new_channel queued.admission.run) m)).1 in
        rw (serve, ap (λ z. get z m.channels) q.own ∙ q.channel)
          (record {
            channel = w.channel;
            returned = returned;
            known =
                ap (λ z. get r (put z w.channel m.channels)) q.own
                ∙ get-put_self r w.channel m.channels;
            settled = settled;
          })

    work-IsServed :
        (r : ℕ) (queued : ThreadResearchStream) (rest : List ThreadResearchStream) (clock : ℕ → ℕ)
        (now : ℕ) (agent : AgentRun) (m : Manager primary sent)
        → m.queue ≡ queued ∷ rest
        → IsReady r queued m
        → IsServed r m.transport (work primary sent parse_uuid uuid4 clock now agent m)
    unfolding work
    work-IsServed r queued rest clock now agent m e q =
        rw (work, e)
          (serve-IsServed r queued clock now agent (record m { queue = rest })
            (record {
              valid = q.valid;
              active = q.active;
              own = q.own;
              first = q.first;
              channel = q.channel;
            }))

  known-replayed :
      (e : ServiceError) (run : ConversationRun) (channel : Option RunChannel) (x : RunSubmission)
      → answer_known primary sent e run channel ≡ returns x
      → x.replayed ≡ true
  known-replayed e run none x h = absurd (ground (arith, h))
  known-replayed e run (some channel) x h = ground (arith, h)

  -- An answer from a channel is marked as replayed.
  error-replayed :
      (e : ServiceError) (m : Manager primary sent) (x : RunSubmission)
      → answer_error primary sent e m ≡ returns x
      → x.replayed ≡ true
  error-replayed (existing_run_in_progress run) m x h = known-replayed _ run _ x h
  error-replayed (persisted_run_failed run) m x h = known-replayed _ run _ x h
  error-replayed (refused e) m x h = absurd (ground (arith, h))
  error-replayed (research_failed code) m x h = absurd (ground (arith, h))
  error-replayed agent_crashed m x h = absurd (ground (arith, h))

  -- The queued stream of a submission that started a run
  record IsQueued (m : Manager primary sent) (a : RunAdmission)
      (answer : Outcome RunSubmission × Manager primary sent) (x : RunSubmission) : Type 0 where
    queued : ThreadResearchStream
    started : a.replayed ≡ false
    admitted : queued.admission ≡ a
    own : x.run_id ≡ a.run.run_id
    first : queued.replay ≡ none
    after : answer.1 ≡ enqueue primary sent queued m

  abbrev queued_alone : ThreadResearchStream → Manager primary sent → Manager primary sent
  queued_alone queued m = record m {
    channels = put queued.admission.run.run_id (new_channel queued.admission.run) m.channels;
    queue = queued ∷ [];
  }

  enqueue-alone :
      (queued : ThreadResearchStream) (m : Manager primary sent)
      → get queued.admission.run.run_id m.channels ≡ none
      → m.queue ≡ []
      → enqueue primary sent queued m ≡ queued_alone queued m
  enqueue-alone queued m unknown empty = simp (unknown, empty) refl

  abbrev answered :
      Bool
      → Outcome RunSubmission
      → Manager primary sent
      → Manager primary sent
      → Option (Outcome RunSubmission) × Manager primary sent
  answered accepting o m' m = if accepting then (some o, m') else (none, m)

  accepted_answer :
      (accepting : Bool) (o : Outcome RunSubmission) (m' m : Manager primary sent)
      (x : RunSubmission)
      → (answered accepting o m' m).0 ≡ some (returns x)
      → (accepting ≡ true) × (o ≡ returns x) × ((answered accepting o m' m).1 ≡ m')
  accepted_answer true o m' m x h = (refl, ground (arith, h), refl)
  accepted_answer false o m' m x h = absurd (ground (arith, h))

  module _ (uuid_text : ℕ → String) where
    abbrev handled :
        Manager primary sent
        → Result RunAdmission × Repository
        → Outcome RunSubmission × Manager primary sent
    handled m answer =
        let (outcome, s) = prepared uuid_text answer in
        submitted primary sent outcome (record m { repository = s })

    with_replay-replayed :
        (m : Manager primary sent) (a : RunAdmission) (o : Outcome ThreadResearchResult)
        (x : RunSubmission)
        → a.replayed ≡ true
        → (submitted primary sent (with_replay uuid_text a o) m).0 ≡ returns x
        → x.replayed ≡ true
    with_replay-replayed m a (returns result) x e h = ground (arith, h, e)
    with_replay-replayed m a (raises e') x e h = error-replayed e' m x h

    abbrev chosen : RunAdmission → Repository → Bool → Outcome ThreadResearchStream
    chosen a s again =
        if again
        then with_replay uuid_text a (replay uuid_text a.run s)
        else returns (record { admission = a; replay = none })

    branch-IsQueued :
        (m : Manager primary sent) (a : RunAdmission) (s : Repository) (x : RunSubmission)
        (again : Bool)
        → a.replayed ≡ again
        → (handled m (ok a, s)).0 ≡ returns x
        → x.replayed ≡ false
        → IsQueued (record m { repository = s }) a (handled m (ok a, s)) x
    branch-IsQueued m a s x true e h new =
        let m' : Manager primary sent = record m { repository = s } in
        let again =
          with_replay-replayed m' a (replay uuid_text a.run s) x e
            (ap (λ b. (submitted primary sent (chosen a s b) m').0) (sym e) ∙ h) in
        absurd (ground (arith, again, new))
    branch-IsQueued m a s x false e h new =
        let m' : Manager primary sent = record m { repository = s } in
        let answer = ap (λ b. submitted primary sent (chosen a s b) m') e in
        let same = ap (λ q. q.0) (sym answer) ∙ h in
        record {
          queued = record { admission = a; replay = none };
          started = e;
          admitted = refl;
          own = ground (arith, same);
          first = refl;
          after = ap (λ q. q.1) answer;
        }

    handled-IsQueued :
        (m : Manager primary sent) (answer : Result RunAdmission × Repository) (x : RunSubmission)
        → (handled m answer).0 ≡ returns x
        → x.replayed ≡ false
        → (a : RunAdmission) × (answer.0 ≡ ok a)
          × IsQueued (record m { repository = answer.1 }) a (handled m answer) x
    handled-IsQueued m (ok a, s) x h new = (a, refl, branch-IsQueued m a s x a.replayed refl h new)
    handled-IsQueued m (err e, s) x h new = absurd (ground (arith, h))

    module _ (parse_uuid : Value → Option ℕ) (uuid4 : ℕ → ℕ) where
      -- A submission that a worker with an empty queue accepts and that starts a run, in a valid
      -- repository and with unused fresh ids, is served by the worker's next round, whatever the agent
      -- does: no exception stops the worker, the run has ended in the repository, and its channel has
      -- events numbered from 1, all published in order, of which the last alone is a `run_end` and
      -- carries the run's status.
      pub submit-IsServed :
          (fresh : FreshIds) (now : ℕ) (thread_id : Option ℕ) (message : String) (key : Option ℕ)
          (clock : ℕ → ℕ) (later : ℕ) (agent : AgentRun) (m : Manager primary sent)
          (x : RunSubmission)
          → IsValid m.repository
          → IsFresh fresh m.repository
          → get fresh.run_id m.channels ≡ none
          → m.queue ≡ []
          → (submit primary sent uuid_text fresh now thread_id message key m).0 ≡ some (returns x)
          → x.replayed ≡ false
          → IsServed x.run_id m.transport (
              work primary sent parse_uuid uuid4 clock later agent
                (submit primary sent uuid_text fresh now thread_id message key m).1)
      unfolding submit prepare_stream
      submit-IsServed fresh now thread_id message key clock later agent m x v f unknown empty h
            new =
          let answer = admit_run fresh now thread_id message key m.repository in
          let s = answer.1 in
          let (on, same, after) =
            accepted_answer m.accepting (handled m answer).0 (handled m answer).1 m x h in
          let (a, accepted, q) = handled-IsQueued m answer x same new in
          let n =
            admit_run-IsNew fresh now message m.repository thread_id key a accepted q.started in
          let valid : IsValid s =
            Transition-IsValid
              (admit_run-Transition fresh now message m.repository v f thread_id key) v in
          let own : q.queued.admission.run.run_id ≡ fresh.run_id =
            ap (λ (y : RunAdmission). y.run.run_id) q.admitted ∙ n.own in
          let m' : Manager primary sent = record m { repository = s } in
          subst
            (λ r. IsServed r m.transport (
              work primary sent parse_uuid uuid4 clock later agent
                (submit primary sent uuid_text fresh now thread_id message key m).1))
            (sym (q.own ∙ n.own))
            (subst
              (λ u.
                IsServed fresh.run_id m.transport
                  (work primary sent parse_uuid uuid4 clock later agent u))
              (sym (
                after
                ∙ q.after
                ∙ enqueue-alone q.queued m' (ap (λ r. get r m.channels) own ∙ unknown) empty))
              (work-IsServed parse_uuid uuid4 fresh.run_id q.queued [] clock later agent
                (queued_alone q.queued m') refl
                (record {
                  valid = valid;
                  active = new-Active fresh a s valid n;
                  own = own;
                  first = q.first;
                  channel =
                      ap
                        (λ r. get r (
                          put q.queued.admission.run.run_id (new_channel q.queued.admission.run)
                            m.channels))
                        (sym own)
                      ∙ get-put_self q.queued.admission.run.run_id
                          (new_channel q.queued.admission.run) m.channels;
                })))
