-- ===== src/Research/Manager.antt =====
-- app/services/run_manager.py: `DetachedRunManager`, the channels and the queue of its worker around
-- the repository and the event transport.
pub mod Serving
use mini_alpha.Common.{
  ℕ, ◌+◌, String, Bool, true, false, Option, none, some, List, [], ◌∷◌, ◌++◌, ◌==◌, nat_eq,
  if◌then◌else◌, is_some, ◌||◌,
}
use mini_alpha.Common.Dict.{Dict, get, put}
use mini_alpha.Common.Value.{Fields, Value, str, end, field}
use mini_alpha.Events.Models.{RunEvent, run_end, is_run_end}
use mini_alpha.Events.Resilient
use mini_alpha.Events.Resilient.{Transport, ResilientStore}
use mini_alpha.Persistence.Memory.{FreshIds, fail_run}
use mini_alpha.Persistence.Memory.State.{Repository, Result, ok, err, is_active}
use mini_alpha.Persistence.Models.{
  ConversationRun, ConversationTurn, RepositoryError, Status, in_progress, run_lifecycle_conflict,
  run_not_found, key_error,
}
use mini_alpha.Research.Channel.{
  RunChannel, new_channel, code_field, record_event, publish_terminal, cancellation_snapshot,
}
use mini_alpha.Research.Models.{AgentRun}
use mini_alpha.Research.Thread.{
  Outcome, returns, raises, ServiceError, refused, existing_run_in_progress, persisted_run_failed,
  ThreadResearchStream, prepare_stream, stream,
}
use mini_alpha.Research.Thread.Ends.{status_text}
use mini_alpha.Research.Thread.Turn.{get_turn, recover_once}
use mini_alpha.Research.Execution.{
  World, execute, cancel_channel, end_channel, is_lifecycle_conflict, publish_event,
}

pub record RunSubmission : Type 0 where
  pub run_id : ℕ
  pub thread_id : ℕ
  pub turn_index : ℕ
  pub status : Status
  pub replayed : Bool

module _ (primary : Transport) (sent : RunEvent → ℕ) where
  pub record Manager : Type 0 where
    pub accepting : Bool
    pub recovered : Bool
    pub channels : Dict ℕ RunChannel
    pub queue : List ThreadResearchStream
    pub transport : ResilientStore primary
    pub repository : Repository

  -- The manager with one run's channel taken out, and put back
  abbrev pub world_of : RunChannel → Manager → World primary sent
  world_of channel m = record {
    channel = channel;
    transport = m.transport;
    repository = m.repository;
  }

  abbrev pub put_back : ℕ → World primary sent → Manager → Manager
  put_back run_id w m = record m {
    channels = put run_id w.channel m.channels;
    transport = w.transport;
    repository = w.repository;
  }

  -- A retransmission whose run has a channel is answered from it.
  abbrev pub answer_known :
      ServiceError → ConversationRun → Option RunChannel → Outcome RunSubmission
  answer_known e run none = raises e
  answer_known e run (some channel) = returns (record {
    run_id = run.run_id;
    thread_id = run.thread_id;
    turn_index = channel.run.turn_index;
    status = channel.run.status;
    replayed = true;
  })

  abbrev pub answer_error : ServiceError → Manager → Outcome RunSubmission
  answer_error (existing_run_in_progress run) m =
      answer_known (existing_run_in_progress run) run (get run.run_id m.channels)
  answer_error (persisted_run_failed run) m =
      answer_known (persisted_run_failed run) run (get run.run_id m.channels)
  answer_error e m = raises e

  -- A run without a channel gets one, and is queued.
  abbrev pub enqueue : ThreadResearchStream → Manager → Manager
  enqueue prepared m =
      let run = prepared.admission.run in
      if is_some (get run.run_id m.channels) then m else record m {
        channels = put run.run_id (new_channel run) m.channels;
        queue = m.queue ++ prepared ∷ [];
      }

  abbrev pub submitted : Outcome ThreadResearchStream → Manager → Outcome RunSubmission × Manager
  submitted (raises e) m = (answer_error e m, m)
  submitted (returns prepared) m =
      let run = prepared.admission.run in
      (
        returns (record {
          run_id = run.run_id;
          thread_id = run.thread_id;
          turn_index = run.turn_index;
          status = run.status;
          replayed = prepared.admission.replayed;
        }),
        enqueue prepared m,
      )

  -- The answer of `submit`, or none where the worker does not accept work.
  unfoldable pub submit :
      (ℕ → String)
      → FreshIds
      → ℕ
      → Option ℕ
      → String
      → Option ℕ
      → Manager
      → Option (Outcome RunSubmission) × Manager
  submit uuid_text fresh now thread_id message key m =
      let (prepared, s) = prepare_stream uuid_text fresh now thread_id message key m.repository in
      let (answer, m') = submitted prepared (record m { repository = s }) in
      if m.accepting then (some answer, m') else (none, m)

  abbrev not_owned : Outcome ConversationTurn → ServiceError
  not_owned (raises e) = e
  not_owned (returns turn) = elim turn.run.status [
    | in_progress ↦ refused run_not_found
    | _ ↦ refused run_lifecycle_conflict
  ]

  module _ (parse_uuid : Value → Option ℕ) (uuid4 : ℕ → ℕ) where
    unfoldable pub cancel : ℕ → ℕ → Manager → Outcome ConversationRun × Manager
    cancel now run_id m = elim (get run_id m.channels) [
      | none ↦ (raises (not_owned (get_turn run_id m.repository)), m)
      | some channel ↦
          let (answer, w) =
            cancel_channel primary sent parse_uuid uuid4 now run_id (world_of channel m) in
          (answer, put_back run_id w m)
    ]

    abbrev pub executed :
        ℕ → Option ServiceError × World primary sent → Manager → Option ServiceError × Manager
    executed run_id (outcome, w) m = (outcome, put_back run_id w m)

    unfoldable pub serve :
        (ℕ → ℕ) → ℕ → AgentRun → ThreadResearchStream → Manager → Option ServiceError × Manager
    serve clock now agent queued m = elim (get queued.admission.run.run_id m.channels) [
      | none ↦ (some (refused key_error), m)
      | some channel ↦
          if channel.cancel_requested
          then (none, m)
          else executed queued.admission.run.run_id
              (execute primary sent parse_uuid uuid4 clock now queued agent (world_of channel m)) m
    ]

    -- One round of `_work`; an empty queue is waited for. `agent` is how the agent runs.
    unfoldable pub work : (ℕ → ℕ) → ℕ → AgentRun → Manager → Option ServiceError × Manager
    work clock now agent m = elim m.queue [
      | [] ↦ (none, m)
      | queued ∷ rest ↦ serve clock now agent queued (record m { queue = rest })
    ]

  -- `start`, where there is no worker yet: abandoned runs are failed before any work is accepted, and
  -- only once in the life of the service.
  abbrev started : Outcome ℕ × Bool × Repository → Manager → Option ServiceError × Manager
  started (returns n, recovered, s) m =
      (none, record m { accepting = true; recovered = recovered; repository = s })
  started (raises e, recovered, s) m = (some e, record m { recovered = recovered; repository = s })

  unfoldable pub start : ℕ → Manager → Option ServiceError × Manager
  start now m = started (recover_once now m.recovered m.repository) m

  abbrev end_interrupted :
      ℕ
      → Result ConversationRun × Repository
      → World primary sent
      → Option ServiceError × World primary sent
  end_interrupted now (ok failed, s) w = (
    none,
    end_channel primary sent now "error" (some "process_interrupted")
        (record w { channel = record w.channel { run = failed }; repository = s }),
  )
  end_interrupted now (err e, s) w =
      (if is_lifecycle_conflict e then none else some (refused e), record w { repository = s })

  -- One round of `_interrupt_open_channels`
  unfoldable pub interrupt : ℕ → World primary sent → Option ServiceError × World primary sent
  interrupt now w =
      if w.channel.terminal
      then (none, w)
      else end_interrupted now
          (fail_run now w.channel.run.run_id "process_interrupted"
            "The worker process stopped before completing the run." w.repository)
          w

  abbrev go_on :
      (Manager → Option ServiceError × Manager)
      → Option ServiceError × Manager
      → Option ServiceError × Manager
  go_on rest (none, m) = rest m
  go_on rest (some e, m) = (some e, m)

  abbrev interrupted :
      ℕ → Option ServiceError × World primary sent → Manager → Option ServiceError × Manager
  interrupted run_id (outcome, w) m = (outcome, put_back run_id w m)

  unfoldable pub interrupt_each : ℕ → Dict ℕ RunChannel → Manager → Option ServiceError × Manager
  interrupt_each now [] m = (none, m)
  interrupt_each now ((r, channel) ∷ channels) m =
      go_on (λ m'. interrupt_each now channels m')
        (interrupted r (interrupt now (world_of channel m)) m)

  unfoldable pub interrupt_open_channels : ℕ → Manager → Option ServiceError × Manager
  interrupt_open_channels now m = interrupt_each now m.channels m

  -- The `run_end` that stands in for one that was never published
  abbrev pub missing_end : ℕ → ConversationRun → RunEvent → RunEvent
  missing_end now run latest = record {
    event_id = latest.event_id + 1;
    event = run_end;
    run_id = run.run_id;
    thread_id = run.thread_id;
    timestamp = now;
    payload = field "status" (str (status_text run.status)) (code_field run.error_code);
  }

  abbrev supplied :
      ℕ
      → ℕ
      → ConversationTurn
      → Option RunEvent × ResilientStore primary
      → Manager
      → Option ServiceError × Manager
  supplied now run_id turn (none, transport) m =
      (some (refused run_not_found), record m { transport = transport })
  supplied now run_id turn (some latest, transport) m =
      if is_run_end latest.event || is_some (get run_id m.channels)
      then (none, record m { transport = transport })
      else (
        none,
        record m {
          transport = publish_event primary sent (missing_end now turn.run latest) transport;
        },
      )

  abbrev supply : ℕ → ℕ → Outcome ConversationTurn → Manager → Option ServiceError × Manager
  supply now run_id (raises e) m = (some e, m)
  supply now run_id (returns turn) m =
      if is_active turn.run.status
      then (none, m)
      else supplied now run_id turn (Resilient.latest primary run_id m.transport) m

  unfoldable pub ensure_events_available : ℕ → ℕ → Manager → Option ServiceError × Manager
  ensure_events_available now run_id m = supply now run_id (get_turn run_id m.repository) m
