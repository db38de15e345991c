-- ===== src/Events/Models.antt =====
-- app/events/models.py: the public event envelope and the producer that numbers one run's events.
use mini_alpha.Common.{ℕ, ◌+◌, Bool, true, false}
use mini_alpha.Common.Value.{Fields}

pub data EventName : Type 0 where
  metadata progress message_chunk tool_call tool_result artifact error run_end : EventName

abbrev pub is_run_end : EventName → Bool
is_run_end run_end = true
is_run_end _ = false

pub record RunEvent : Type 0 where
  pub event_id : ℕ
  pub event : EventName
  pub run_id : ℕ
  pub thread_id : ℕ
  pub timestamp : ℕ
  pub payload : Fields

pub record RunEventProducer : Type 0 where
  pub run_id : ℕ
  pub thread_id : ℕ
  pub sequence : ℕ

abbrev pub new_producer : ℕ → ℕ → RunEventProducer
new_producer run_id thread_id = record { run_id = run_id; thread_id = thread_id; sequence = 0 }

-- The event, and the producer after it; `now` is the clock's answer.
unfoldable pub emit : ℕ → EventName → Fields → RunEventProducer → RunEvent × RunEventProducer
emit now event payload p =
    let sequence = p.sequence + 1 in
    (
      record {
        event_id = sequence;
        event = event;
        run_id = p.run_id;
        thread_id = p.thread_id;
        timestamp = now;
        payload = payload;
      },
      record p { sequence = sequence },
    )
