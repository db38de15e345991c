-- ===== src/Research/Execution/Delivery.antt =====
-- How an execution of app/services/run_manager.py records and publishes the events of its stream.
use mini_alpha.Common.{
  ℕ, ◌≡◌, ◌⊎◌, inl, inr, refl, ap, ◌∙◌, Bool, true, false, List, [], ◌∷◌, ◌++◌, any, map, arith,
  Bool-cases, append_assoc, append-nil,
}
use mini_alpha.Events.Models.{RunEvent, is_run_end}
use mini_alpha.Events.Resilient.{Transport, ResilientStore}
use mini_alpha.Research.Channel.{record_event, with_event}
use mini_alpha.Research.Execution.{World, publish_event, deliver, deliver_each}
use mini_alpha.Research.Thread.{Line}
use mini_alpha.Research.Thread.Ends.{endings}
use mini_alpha.Research.Thread.Stream.{line_of}

-- No line follows a `run_end`.
abbrev pub Orderly : List Line → Type 0
Orderly [] = Unit
Orderly (line ∷ lines) = (is_run_end line.0 ≡ true → lines ≡ []) × Orderly lines

abbrev pub has_end : List Line → Bool
has_end lines = any (λ line. is_run_end line.0) lines

pub endings-Orderly : (lines : List Line) → endings lines ≡ [] → Orderly lines
endings-Orderly [] h = tt
endings-Orderly (line ∷ lines) h = elim (Bool-cases (is_run_end line.0)) [
  | inl e ↦ absurd (ground (arith, h, e))
  | inr e ↦ ((λ t. absurd (ground (arith, t, e))), endings-Orderly lines (rw e at h))
]

pub endings-has_end : (lines : List Line) → endings lines ≡ [] → has_end lines ≡ false
endings-has_end [] h = refl
endings-has_end (line ∷ lines) h = ground (arith, endings-has_end lines)

pub last-Orderly :
    (front : List Line) (line : Line) → endings front ≡ [] → Orderly (front ++ line ∷ [])
last-Orderly [] line h = ((λ e. refl), tt)
last-Orderly (x ∷ front) line h = elim (Bool-cases (is_run_end x.0)) [
  | inl e ↦ absurd (ground (arith, h, e))
  | inr e ↦ ((λ t. absurd (ground (arith, t, e))), last-Orderly front line (rw e at h))
]

pub last-has_end :
    (front : List Line) (line : Line)
    → is_run_end line.0 ≡ true
    → has_end (front ++ line ∷ []) ≡ true
last-has_end [] line e = rw e refl
last-has_end (x ∷ front) line e = ground (arith, last-has_end front line e)

module _ (primary : Transport) (sent : RunEvent → ℕ) where
  abbrev pub publish_each : List RunEvent → ResilientStore primary → ResilientStore primary
  publish_each [] transport = transport
  publish_each (event ∷ events) transport =
      publish_each events (publish_event primary sent event transport)

  pub publish_each-append :
      (xs ys : List RunEvent) (transport : ResilientStore primary)
      → publish_each (xs ++ ys) transport ≡ publish_each ys (publish_each xs transport)
  publish_each-append [] ys transport = refl
  publish_each-append (x ∷ xs) ys transport = publish_each-append xs ys _

  -- An open channel after it has taken events, all published
  abbrev pub delivered : List RunEvent → World primary sent → World primary sent
  delivered events w = record w {
    channel = record w.channel {
      events = w.channel.events ++ events;
      terminal = has_end (map line_of events);
    };
    transport = publish_each events w.transport;
  }

  abbrev taken : RunEvent → World primary sent → World primary sent
  taken event w = record w {
    channel = with_event event w.channel;
    transport = publish_event primary sent event w.transport;
  }

  deliver-open :
      (event : RunEvent) (w : World primary sent)
      → w.channel.terminal ≡ false
      → deliver primary sent event w ≡ taken event w
  unfolding record_event
  deliver-open event w idle = rw idle refl

  first_taken :
      (event : RunEvent) (w : World primary sent) (events : List RunEvent)
      → Orderly (map line_of (event ∷ events))
      → (is_run_end event.event ≡ false
          → deliver_each primary sent events (taken event w) ≡ delivered events (taken event w))
      → (is_run_end event.event ≡ true) ⊎ (is_run_end event.event ≡ false)
      → deliver_each primary sent events (taken event w) ≡ delivered (event ∷ events) w
  unfolding deliver_each
  first_taken event w [] order rest (inl e) = rw e refl
  first_taken event w (x ∷ xs) order rest (inl e) = absurd (ground (arith, order.0 e))
  first_taken event w events order rest (inr e) =
      rest e ∙ rw (e, append_assoc w.channel.events (event ∷ []) events) refl

  -- A stream that sends nothing after a `run_end` has all its events taken and published.
  pub deliver_each-open :
      (events : List RunEvent) (w : World primary sent)
      → Orderly (map line_of events)
      → w.channel.terminal ≡ false
      → deliver_each primary sent events w ≡ delivered events w
  unfolding deliver_each
  deliver_each-open [] w order idle = rw (append-nil w.channel.events) (rw⁻¹ idle refl)
  deliver_each-open (event ∷ events) w order idle =
      ap (deliver_each primary sent events) (deliver-open event w idle)
      ∙ first_taken event w events order (λ h. deliver_each-open events (taken event w) order.1 h)
          (Bool-cases (is_run_end event.event))
