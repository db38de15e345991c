-- ===== src/Research/Execution/Settles.antt =====
-- How an execution of app/services/run_manager.py ends.
use mini_alpha.Common.{
  ℕ, ◌+◌, ◌≡◌, inl, inr, refl, ap, sym, subst, ◌∙◌, true, false, String, Option, none, some, List,
  [], ◌∷◌, ◌++◌, length, map, arith, nat_eq, map-append,
}
use mini_alpha.Common.Dict.{get}
use mini_alpha.Common.Value.{Fields, Value, str, get_field}
use mini_alpha.Events.Models.{RunEvent, run_end}
use mini_alpha.Events.Resilient.{Transport, ResilientStore}
use mini_alpha.Persistence.Memory.Effects.{Active}
use mini_alpha.Persistence.Memory.Failing.{Ends, fail_run-Ends}
use mini_alpha.Persistence.Memory.Invariant.{IsValid}
use mini_alpha.Persistence.Memory.State.{Repository, Result, is_active}
use mini_alpha.Persistence.Memory.State
use mini_alpha.Persistence.Models.{ConversationRun, error}
use mini_alpha.Research.Channel.{new_channel, publish_terminal, terminal_event}
use mini_alpha.Research.Execution.{
  World, publish_event, deliver_each, end_channel, after_fail, after_stream, worker_failed, execute,
}
use mini_alpha.Research.Execution.Delivery.{
  Orderly, has_end, endings-Orderly, endings-has_end, last-Orderly, last-has_end, publish_each,
  publish_each-append, delivered, deliver_each-open,
}
use mini_alpha.Research.Models.{AgentRun}
use mini_alpha.Research.Thread.{Line, ServiceError, ThreadResearchStream, stream}
use mini_alpha.Research.Thread.Ends.{endings, status_text, Told, Stops}
use mini_alpha.Research.Thread.Stream.{line_of, Numbered, stream-Stops}

pub Numbered-end :
    (n : ℕ) (events : List RunEvent) (event : RunEvent)
    → Numbered n events
    → event.event_id ≡ length events + n
    → Numbered n (events ++ event ∷ [])
Numbered-end n [] event h e = (ground (arith, e), tt)
Numbered-end n (x ∷ events) event h e =
    (h.0, Numbered-end (n + 1) events event h.1 (omega (arith, e)))

module _ (primary : Transport) (sent : RunEvent → ℕ) where
  -- A run is settled: its channel has ended, with events numbered from 1 of which the last alone is a
  -- `run_end` and carries the status of the run that the repository holds, which has ended. The
  -- transport got these events, in order.
  pub record Settled (r : ℕ) (before : ResilientStore primary) (w : World primary sent)
      : Type 0 where
    pub run : ConversationRun
    pub front : List Line
    pub payload : Fields
    pub terminal : w.channel.terminal ≡ true
    pub numbered : Numbered 1 w.channel.events
    pub order : map line_of w.channel.events ≡ front ++ (run_end, payload) ∷ []
    pub once : endings front ≡ []
    pub published : w.transport ≡ publish_each primary sent w.channel.events before
    pub stored : get r w.repository.runs ≡ some run
    pub over : is_active run.status ≡ false
    pub status : get_field "status" payload ≡ str (status_text run.status)

  -- A run whose channel has not ended
  pub record IsOpen (before : ResilientStore primary) (w : World primary sent) : Type 0 where
    pub idle : w.channel.terminal ≡ false
    pub numbered : Numbered 1 w.channel.events
    pub quiet : endings (map line_of w.channel.events) ≡ []
    pub published : w.transport ≡ publish_each primary sent w.channel.events before

  abbrev pub ended_by : RunEvent → World primary sent → World primary sent
  ended_by event w = record w {
    channel = record w.channel { events = w.channel.events ++ event ∷ []; terminal = true };
    transport = publish_event primary sent event w.transport;
  }

  pub end_channel-open :
      (now : ℕ) (status : String) (code : Option String) (w : World primary sent)
      → w.channel.terminal ≡ false
      → end_channel primary sent now status code w
        ≡ ended_by (terminal_event now status code w.channel) w
  unfolding publish_terminal
  end_channel-open now status code w idle = rw idle refl

  -- A channel that has not ended ends with the status of its run.
  pub end_channel-Settled :
      (r now : ℕ) (status : String) (code : Option String) (before : ResilientStore primary)
      (w : World primary sent) (run : ConversationRun)
      → IsOpen before w
      → get r w.repository.runs ≡ some run
      → is_active run.status ≡ false
      → status ≡ status_text run.status
      → Settled r before (end_channel primary sent now status code w)
  unfolding publish_terminal
  end_channel-Settled r now status code before w run o stored over told =
      let event = terminal_event now status code w.channel in
      subst (Settled r before) (sym (end_channel-open now status code w o.idle)) (record {
        run = run;
        front = map line_of w.channel.events;
        payload = event.payload;
        terminal = refl;
        numbered = Numbered-end 1 w.channel.events event o.numbered refl;
        order = map-append line_of w.channel.events (event ∷ []);
        once = o.quiet;
        published =
            ap (publish_event primary sent event) o.published
            ∙ sym (publish_each-append primary sent w.channel.events (event ∷ []) before);
        stored = stored;
        over = over;
        status = ap str told;
      })

  after_fail-Settled :
      (r now : ℕ) (code : String) (before : ResilientStore primary)
      (answer : Result ConversationRun × Repository) (w : World primary sent)
      → IsOpen before w
      → Ends r error answer
      → ((after_fail primary sent now code answer w).0 ≡ none)
        × Settled r before (after_fail primary sent now code answer w).1
  after_fail-Settled r now code before (State.ok failed, s) w o f = (
    refl,
    end_channel-Settled r now "error" (some code) before
        (record w { channel = record w.channel { run = failed }; repository = s }) f.run
        (record { idle = o.idle; numbered = o.numbered; quiet = o.quiet; published = o.published })
        f.stored (rw (f.ended) refl) (rw (f.ended) refl),
  )
  after_fail-Settled r now code before (State.err e, s) w o f = absurd (ground (arith, f.returned))

  worker_failed-Settled :
      (r now : ℕ) (before : ResilientStore primary) (w : World primary sent)
      → IsOpen before w
      → IsValid w.repository
      → Active w.repository r
      → w.channel.run.run_id ≡ r
      → ((worker_failed primary sent now w).0 ≡ none)
        × Settled r before (worker_failed primary sent now w).1
  unfolding worker_failed
  worker_failed-Settled r now before w o v active own =
      simp (o.idle, own)
        (after_fail-Settled r now "worker_failed" before _ w o
          (fail_run-Ends w.repository v now r "worker_failed" _ active))

  module _ (r now : ℕ) (run : ConversationRun) (transport : ResilientStore primary)
      (s : Repository) where
    abbrev begun : World primary sent
    begun = record { channel = new_channel run; transport = transport; repository = s }

    -- Nothing escapes, and the run is settled.
    abbrev Reports : Option ServiceError × World primary sent → Type 0
    Reports (outcome, w) = (outcome ≡ none) × Settled r transport w

    Told-Settled :
        (events : List RunEvent) (s' : Repository)
        → Numbered 1 events
        → Told r (map line_of events) none s'
        → Settled r transport (record (deliver_each primary sent events begun) { repository = s' })
    Told-Settled events s' numbered t =
        subst (λ (u : World primary sent). Settled r transport (record u { repository = s' }))
          (sym (
            deliver_each-open primary sent events begun
              (subst Orderly (sym t.order) (last-Orderly t.front (run_end, t.payload) t.once))
              refl))
          (record {
            run = t.run;
            front = t.front;
            payload = t.payload;
            terminal = ap has_end t.order ∙ last-has_end t.front (run_end, t.payload) refl;
            numbered = numbered;
            order = t.order;
            once = t.once;
            published = refl;
            stored = t.stored;
            over = t.over;
            status = t.status;
          })

    broken-Settled :
        (events : List RunEvent)
        → IsValid s
        → Active s r
        → run.run_id ≡ r
        → Numbered 1 events
        → endings (map line_of events) ≡ []
        → Reports (
            worker_failed primary sent now
              (record (deliver_each primary sent events begun) { repository = s }))
    broken-Settled events v active own numbered quiet =
        subst
          (λ (u : World primary sent).
            Reports (worker_failed primary sent now (record u { repository = s })))
          (sym (
            deliver_each-open primary sent events begun (endings-Orderly (map line_of events) quiet)
              refl))
          (worker_failed-Settled r now transport (delivered primary sent events begun)
            (record {
              idle = endings-has_end (map line_of events) quiet;
              numbered = numbered;
              quiet = quiet;
              published = refl;
            })
            v active own)

    streamed-Settled :
        (events : List RunEvent) (raised : Option ServiceError) (s' : Repository)
        → IsValid s
        → Active s r
        → run.run_id ≡ r
        → Numbered 1 events
        → Stops r (map line_of events) raised s s'
        → Reports (
            after_stream primary sent now raised
              (record (deliver_each primary sent events begun) { repository = s' }))
    streamed-Settled events none s' v active own numbered (inl t) =
        (refl, Told-Settled events s' numbered t)
    streamed-Settled events none s' v active own numbered (inr b) =
        absurd (ground (arith, b.escaped))
    streamed-Settled events (some e) s' v active own numbered (inl t) =
        absurd (ground (arith, t.returned))
    streamed-Settled events (some e) s' v active own numbered (inr b) =
        subst
          (λ q. Reports (
            worker_failed primary sent now
              (record (deliver_each primary sent events begun) { repository = q })))
          (sym b.unchanged) (broken-Settled events v active own numbered b.untold)

    module _ (parse_uuid : Value → Option ℕ) (uuid4 : ℕ → ℕ) where
      -- The execution of a newly admitted run, in a valid repository where the run is active and
      -- whatever the agent does, lets no exception escape and settles the run.
      pub execute-Settled :
          (clock : ℕ → ℕ) (prepared : ThreadResearchStream) (agent : AgentRun)
          → IsValid s
          → Active s r
          → run.run_id ≡ r
          → prepared.admission.run.run_id ≡ r
          → prepared.replay ≡ none
          → ((execute primary sent parse_uuid uuid4 clock now prepared agent begun).0 ≡ none)
            × Settled r transport
                (execute primary sent parse_uuid uuid4 clock now prepared agent begun).1
      unfolding execute
      execute-Settled clock prepared agent v active own same fresh =
          let (numbered, stops) =
            stream-Stops parse_uuid uuid4 clock now prepared agent s v fresh in
          let answer = stream parse_uuid uuid4 clock now prepared agent s in
          streamed-Settled answer.events answer.raised answer.repository v active own numbered (
            subst (λ q. Stops q (map line_of answer.events) answer.raised s answer.repository) same
              stops)
