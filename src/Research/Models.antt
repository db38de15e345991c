-- ===== src/Research/Models.antt =====
-- app/services/research_agent.py: what the research agent hands its callers. The agent itself, a
-- LangGraph graph, is a parameter: one run of it is the items that it streams and how it stops.
use mini_alpha.Common.{ℕ, String, Option, List}
use mini_alpha.Common.Value.{Fields}
use mini_alpha.Events.Models
use mini_alpha.Events.Models.{EventName}

-- `Literal["ok", "error"]`
pub data CallStatus : Type 0 where
  ok error : CallStatus

pub record ExecutedToolCall : Type 0 where
  pub name : String
  pub arguments : Fields
  pub status : Option CallStatus
  pub summary : Option String

pub record ExecutedToolResult : Type 0 where
  pub name : String
  pub content : String
  pub artifact : Option Fields

pub record ModelUsage : Type 0 where
  pub input_tokens : ℕ
  pub output_tokens : ℕ
  pub total_tokens : ℕ

pub data CacheStatus : Type 0 where
  miss exact_hit semantic_hit : CacheStatus

pub record ResearchCacheInfo : Type 0 where
  pub status : CacheStatus
  pub origin_usage : Option ModelUsage

pub record ResearchResult : Type 0 where
  pub answer : String
  pub tool_calls : List ExecutedToolCall
  pub tool_results : List ExecutedToolResult
  pub artifacts : List Fields
  pub checkpoint_id : Option String
  pub usage : ModelUsage
  pub cache : Option ResearchCacheInfo

pub data AgentEventName : Type 0 where
  progress message_chunk tool_call tool_result artifact : AgentEventName

-- The run event that an agent event is published as
abbrev pub event_name : AgentEventName → EventName
event_name progress = Models.progress
event_name message_chunk = Models.message_chunk
event_name tool_call = Models.tool_call
event_name tool_result = Models.tool_result
event_name artifact = Models.artifact

-- `AgentStreamEvent` and `AgentStreamComplete`
pub data AgentStreamItem : Type 0 where
  stream_event : AgentEventName → Fields → AgentStreamItem
  stream_complete : ResearchResult → AgentStreamItem

-- How the agent stops: at the end of its items, by a `ResearchExecutionError` with a code, or by
-- any other exception.
pub data Ending : Type 0 where
  exhausted : Ending
  research_error : String → Ending
  crashed : Ending

-- One run of `stream_thread`
pub record AgentRun : Type 0 where
  pub items : List AgentStreamItem
  pub ending : Ending
