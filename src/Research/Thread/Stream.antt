-- ===== src/Research/Thread/Stream.antt =====
-- The events of a stream of app/services/thread_research.py.
use mini_alpha.Common.{ℕ, ◌+◌, ◌≡◌, refl, none, List, [], ◌∷◌, map, Option}
use mini_alpha.Common.Value.{Value}
use mini_alpha.Events.Models.{RunEvent, RunEventProducer, emit, new_producer}
use mini_alpha.Persistence.Memory.Invariant.{IsValid}
use mini_alpha.Persistence.Memory.State.{Repository}
use mini_alpha.Research.Models.{AgentRun}
use mini_alpha.Research.Thread.{
  Line, emit_each, spoken, body, stream, opening, ThreadResearchStream,
}
use mini_alpha.Research.Thread.Ends.{Stops, Stops-front, endings-spoken, close-Closes}

abbrev pub line_of : RunEvent → Line
line_of event = (event.event, event.payload)

-- Events that are numbered from `n` on
abbrev pub Numbered : ℕ → List RunEvent → Type 0
Numbered n [] = Unit
Numbered n (event ∷ events) = (event.event_id ≡ n) × Numbered (n + 1) events

pub lines-emit_each :
    (clock : ℕ → ℕ) (lines : List Line) (p : RunEventProducer)
    → map line_of (emit_each clock lines p) ≡ lines
unfolding emit
lines-emit_each clock [] p = refl
lines-emit_each clock ((name, payload) ∷ lines) p = rw (lines-emit_each clock lines _) refl

pub emit_each-Numbered :
    (clock : ℕ → ℕ) (lines : List Line) (p : RunEventProducer)
    → Numbered (p.sequence + 1) (emit_each clock lines p)
unfolding emit
emit_each-Numbered clock [] p = tt
emit_each-Numbered clock ((name, payload) ∷ lines) p = (refl, emit_each-Numbered clock lines _)

module _ (parse_uuid : Value → Option ℕ) (uuid4 : ℕ → ℕ) where
  -- The stream of a newly admitted run, in a valid repository and whatever the agent does: its events
  -- are numbered from 1, and either its last event is its one `run_end` and carries the status of
  -- the run that the repository then holds, which has ended, or the stream has raised, has sent no
  -- `run_end` and has written nothing.
  pub stream-Stops :
      (clock : ℕ → ℕ) (now : ℕ) (prepared : ThreadResearchStream) (agent : AgentRun)
      (s : Repository)
      → IsValid s
      → prepared.replay ≡ none
      → Numbered 1 (stream parse_uuid uuid4 clock now prepared agent s).events
        × Stops prepared.admission.run.run_id
            (map line_of (stream parse_uuid uuid4 clock now prepared agent s).events)
            (stream parse_uuid uuid4 clock now prepared agent s).raised
            s
            (stream parse_uuid uuid4 clock now prepared agent s).repository
  unfolding stream body
  stream-Stops clock now prepared agent s v fresh = (
    emit_each-Numbered clock (opening prepared ∷ (body parse_uuid uuid4 now prepared agent s).lines)
        (new_producer prepared.admission.run.run_id prepared.admission.run.thread_id),
    rw (lines-emit_each, fresh)
        (Stops-front _
          (opening (record { admission = prepared.admission; replay = none }) ∷ spoken agent.items)
          _ _ s _ (endings-spoken agent.items)
          (close-Closes s v now _ parse_uuid uuid4 prepared.admission agent agent.ending refl
            refl)),
  )
