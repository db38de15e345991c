-- ===== src/Research/Execution.antt =====
-- app/services/run_manager.py: one run's execution and its cancellation. An execution is one step: its
-- stream's events are recorded and published in order, and no other call comes between. `clock`
-- times the events that a stream makes, `sent` the diagnostics of the transport, and `now` is what
-- the clock gives the call.
pub mod Delivery
pub mod Settles
pub mod Cancels
use mini_alpha.Common.{
  ℕ, ◌+◌, String, Bool, true, false, Option, none, some, List, [], ◌∷◌, ◌++◌, ◌==◌, nat_eq,
  if◌then◌else◌, is_some, ◌||◌,
}
use mini_alpha.Common.Dict.{Dict, get, put}
use mini_alpha.Common.Value.{Fields, Value, str, end, field}
use mini_alpha.Events.Models.{RunEvent, run_end, is_run_end}
use mini_alpha.Events.Resilient
use mini_alpha.Events.Resilient.{Transport, ResilientStore}
use mini_alpha.Persistence.Memory.{FreshIds, fail_run, cancel_run}
use mini_alpha.Persistence.Memory.State.{Repository, Result, ok, err}
use mini_alpha.Persistence.Models.{
  ConversationRun, ConversationTurn, RepositoryError, Status, in_progress, run_lifecycle_conflict,
  run_not_found,
}
use mini_alpha.Research.Channel.{
  RunChannel, new_channel, record_event, publish_terminal, cancellation_snapshot,
}
use mini_alpha.Research.Models.{AgentRun}
use mini_alpha.Research.Thread.{
  Outcome, returns, raises, ServiceError, refused, existing_run_in_progress, persisted_run_failed,
  ThreadResearchStream, prepare_stream, stream,
}
use mini_alpha.Research.Thread.Ends.{status_text}
use mini_alpha.Research.Thread.Turn.{get_turn}

abbrev pub is_lifecycle_conflict : RepositoryError → Bool
is_lifecycle_conflict run_lifecycle_conflict = true
is_lifecycle_conflict _ = false

module _ (primary : Transport) (sent : RunEvent → ℕ) where
  -- `_publish_event`: the resilient transport raises nothing.
  unfoldable pub publish_event : RunEvent → ResilientStore primary → ResilientStore primary
  publish_event event transport = Resilient.publish primary (sent event) event transport

  -- What one execution works on
  pub record World : Type 0 where
    pub channel : RunChannel
    pub transport : ResilientStore primary
    pub repository : Repository

  abbrev publish_taken : RunEvent → Bool → RunChannel → World → World
  publish_taken event true channel w = record w {
    channel = channel;
    transport = publish_event event w.transport;
  }
  publish_taken event false channel w = w

  abbrev pub deliver : RunEvent → World → World
  deliver event w =
      let (taken, channel) = record_event event w.channel in publish_taken event taken channel w

  unfoldable pub deliver_each : List RunEvent → World → World
  deliver_each [] w = w
  deliver_each (event ∷ events) w = deliver_each events (deliver event w)

  abbrev publish_made : Option RunEvent × RunChannel → World → World
  publish_made (none, channel) w = record w { channel = channel }
  publish_made (some event, channel) w = record w {
    channel = channel;
    transport = publish_event event w.transport;
  }

  abbrev pub end_channel : ℕ → String → Option String → World → World
  end_channel now status code w = publish_made (publish_terminal now status code w.channel) w

  abbrev pub after_fail :
      ℕ → String → Result ConversationRun × Repository → World → Option ServiceError × World
  after_fail now code (ok failed, s) w = (
    none,
    end_channel now "error" (some code)
        (record w { channel = record w.channel { run = failed }; repository = s }),
  )
  after_fail now code (err e, s) w =
      if is_lifecycle_conflict e
      then (none, end_channel now "error" (some code) (record w { repository = s }))
      else (some (refused e), record w { repository = s })

  -- `except Exception`: the failure of a worker, unless the channel has ended
  unfoldable pub worker_failed : ℕ → World → Option ServiceError × World
  worker_failed now w =
      if w.channel.terminal
      then (none, w)
      else after_fail now "worker_failed"
          (fail_run now w.channel.run.run_id "worker_failed" "The run worker stopped unexpectedly."
            w.repository)
          w

  abbrev pub after_stream : ℕ → Option ServiceError → World → Option ServiceError × World
  after_stream now none w = (none, w)
  after_stream now (some e) w = worker_failed now w

  module _ (parse_uuid : Value → Option ℕ) (uuid4 : ℕ → ℕ) where
    -- `_execute`. The stream reads the repository when the agent stops, after its events are sent.
    unfoldable pub execute :
        (ℕ → ℕ) → ℕ → ThreadResearchStream → AgentRun → World → Option ServiceError × World
    execute clock now prepared agent w =
        let streamed = stream parse_uuid uuid4 clock now prepared agent w.repository in
        after_stream now streamed.raised
          (record (deliver_each streamed.events w) { repository = streamed.repository })

    abbrev pub after_cancel :
        ℕ → Result ConversationRun × Repository → World → Outcome ConversationRun × World
    after_cancel now (ok cancelled, s) w = (
      returns cancelled,
      end_channel now "cancelled" none
          (record w { channel = record w.channel { run = cancelled }; repository = s }),
    )
    after_cancel now (err e, s) w = (raises (refused e), record w { repository = s })

    -- `cancel` of a run that has a channel, after its execution has stopped
    unfoldable pub cancel_channel : ℕ → ℕ → World → Outcome ConversationRun × World
    cancel_channel now run_id w =
        let (partial_answer, tool_calls, artifacts) = cancellation_snapshot w.channel in
        after_cancel now
          (cancel_run parse_uuid uuid4 now run_id partial_answer tool_calls artifacts w.repository)
          (record w { channel = record w.channel { cancel_requested = true } })
