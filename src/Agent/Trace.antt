-- ===== src/Agent/Trace.antt =====
-- backend/app/modules/agent/decision_trace.py and memory.py: what one run keeps beside its results.
-- `Host` is what a run takes from its surroundings: the clock, by the number of readings before,
-- and Python's formatting of texts and of seconds.
use research_assistant.Base.{
  ℕ, String, Option, List, [], ◌∷◌, ◌++◌, map, length, Dict, get, put, values, string_eq,
}
use research_assistant.Agent.Json.{Json}
use research_assistant.Agent.Tools.{ToolResult}

pub record Host : Type 0 where
  pub clock : ℕ → String
  pub repr : String → String
  pub seconds : ℕ → String

pub record Event : Type 0 where
  pub at : String
  pub event : String
  pub fields : Dict String Json

-- `AgentMemory`
pub record Memory : Type 0 where
  pub query : String
  pub scratchpad : Dict String ToolResult

-- The world of the tools, the memory and the trace.
pub record Run (W : Type 0) : Type 0 where
  pub world : W
  pub memory : Memory
  pub events : List Event

unfoldable pub remember : String → ToolResult → Memory → Memory
remember step_id result memory = record memory { scratchpad = put step_id result memory.scratchpad }

unfoldable pub recall : String → Memory → Option ToolResult
recall step_id memory = get step_id memory.scratchpad

unfoldable pub observations : Memory → List String
observations memory = map (λ result. result.output) (values memory.scratchpad)

module _ (host : Host) {W : Type 0} where
  unfoldable pub log : String → Dict String Json → Run W → Run W
  log event fields run = record run {
    events =
        run.events
        ++ record { at = host.clock (length run.events); event = event; fields = fields } ∷ [];
  }
