-- ===== src/Rag/Tool.antt =====
-- `RagTool.execute` and `build_rag_tool` of backend/app/modules/agent/tools/rag_tool.py: the tool of the
-- agent over the retrieval service. The tool's world holds the tables that retrieval reads.
pub mod Scope
use research_assistant.Base.{
  ℕ, zero, suc, String, Bool, true, false, Option, none, some, List, [], ◌∷◌, not, ◌||◌, ◌==◌,
  string_eq, if◌then◌else◌, ℤ, pos, negsuc,
}
use research_assistant.Base.Text.{strip}
use research_assistant.Core.Errors.{Result, ok, err, Exn, other, ◌>>=◌}
use research_assistant.Core.Float.{Float, FloatOps}
use research_assistant.Agent.Json.{
  Json, null, bool, int, float, str, arr, obj, Items, nil, cons, Fields, end, field, get_field,
}
use research_assistant.Agent.Tools.{
  ToolContext, ToolResult, ToolSpec, ToolExecutor, Outcome, returned, raised, ok_result,
}
use research_assistant.Rag.Tables.{Document, DocumentChunk}
use research_assistant.Rag.Retrieval.{RetrievalService, RetrievalResult, retrieve}
use research_assistant.Rag.Passages.{format_hits, payload_of}

-- What Python does with a value: `str`, `int`, the truth of a float, a number in an f-string, and the
-- name and the text of an exception.
pub record Python : Type 0 where
  pub str_of : Json → String
  pub int_of : Json → Result ℤ
  pub is_zero : Float → Bool
  pub decimal : ℕ → String
  pub name_of : Exn → String
  pub text_of : Exn → String

-- The tables.
pub record Tables : Type 0 where
  pub documents : List Document
  pub chunks : List DocumentChunk

module _ (python : Python) where
  -- The truth of a value.
  unfoldable pub is_true : Json → Bool
  is_true null = false
  is_true (bool b) = b
  is_true (int (pos zero)) = false
  is_true (int (pos (suc n))) = true
  is_true (int (negsuc n)) = true
  is_true (float x) = not (python.is_zero x)
  is_true (str s) = not (s == "")
  is_true (arr nil) = false
  is_true (arr (cons x xs)) = true
  is_true (obj end) = false
  is_true (obj (field k v rest)) = true

  -- `str(args.get("query") or "").strip()`
  unfoldable pub query_of : Fields → String
  unfolding is_true strip get_field
  query_of args = elim (get_field "query" args) [
    | none ↦ ""
    | some (str s) ↦ strip s
    | some v ↦ if is_true v then strip (python.str_of v) else ""
  ]

  -- `int(top_k) if top_k else None`
  unfoldable pub top_k_of : Fields → Result (Option ℤ)
  unfolding is_true get_field
  top_k_of args = elim (get_field "top_k" args) [
    | none ↦ ok none
    | some v ↦ if is_true v then (python.int_of v >>= λ k. ok (some k)) else ok none
  ]

  module _ (F : FloatOps) (service : RetrievalService) where
    -- `execute`
    unfoldable pub execute_rag : Fields → ToolContext → Tables → Result ToolResult
    unfolding query_of top_k_of retrieve format_hits payload_of ok_result
    execute_rag args ctx tables =
        let query = query_of args in
        if query == ""
        then err (other "ValueError" "rag_tool requires a non-empty 'query' argument")
        else (top_k_of args >>= λ top_k.
            (retrieve F service ctx.user_id query top_k tables.documents tables.chunks >>= λ result.
            ok (
              ok_result "" "rag_tool" (format_hits python.decimal result.hits result.citations)
                (payload_of result))))

    -- An exception of the tool is the executor's to handle.
    abbrev pub rag_outcome : Result ToolResult → Outcome
    rag_outcome (ok result) = returned result
    rag_outcome (err e) = raised (python.name_of e) (python.text_of e)

    -- `tool.execute`, as the executor calls it; `elapsed` is the time that it takes.
    unfoldable pub rag_executor : (elapsed : ℕ) → ToolExecutor Tables
    unfolding execute_rag
    rag_executor elapsed args ctx tables = record {
      outcome = rag_outcome (execute_rag args ctx tables);
      elapsed = elapsed;
      world = tables;
    }

    -- `_RAG_TOOL_PARAMETERS`, a schema that only the planner's prompt shows.
    abbrev pub rag_tool_parameters : Fields
    rag_tool_parameters =
        let query : Fields = field "type" (str "string") (
          field "description" (str "The search question to ground in the user's documents.") end) in
        let top_k : Fields = field "type" (str "integer") (
          field "minimum" (int (pos 1)) (
            field "maximum" (int (pos 50)) (
              field "default" (int (pos 8))
                (field "description" (str "Maximum number of passages to return.") end)))) in
        field "type" (str "object") (
          field "properties" (obj (field "query" (obj query) (field "top_k" (obj top_k) end)))
            (field "required" (arr (cons (str "query") nil)) end))

    -- `build_rag_tool`
    unfoldable pub build_rag_tool : (elapsed : ℕ) → ToolSpec Tables
    unfolding rag_executor
    build_rag_tool elapsed = record {
      name = "rag_tool";
      description =
          "Search the user's ingested documents and return the most relevant passages (hybrid dense + lexical retrieval). Use for questions grounded in uploaded research documents.";
      parameters = rag_tool_parameters;
      executor = rag_executor elapsed;
      visible_to = none;
      cost_class = "standard";
      latency_class = "high";
      retries = pos 0;
      timeout = 0;
    }
