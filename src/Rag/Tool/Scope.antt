-- ===== src/Rag/Tool/Scope.antt =====
-- What the agent's retrieval tool may show, whatever the planner asks it for.
use research_assistant.Base.{
  ℕ, ◌≡◌, refl, String, Bool, true, false, Option, none, arith, ◌==◌, string_eq, ℤ,
}
use research_assistant.Core.Errors.{ok, bind_ok, ◌>>=◌}
use research_assistant.Core.Float.{FloatOps}
use research_assistant.Agent.Json.{Fields}
use research_assistant.Agent.Tools.{ToolContext, ToolResult, ok_result, returned}
use research_assistant.Rag.Retrieval.{RetrievalService, RetrievalResult, retrieve, limit_of}
use research_assistant.Rag.Retrieval.Answers.{IsAnswer, retrieve-IsAnswer}
use research_assistant.Rag.Passages.{format_hits, payload_of}
use research_assistant.Rag.Tool.{Python, Tables, query_of, top_k_of, execute_rag, rag_executor}

-- The result shows an answer of retrieval for the user.
pub record IsShown (python : Python) (F : FloatOps) (service : RetrievalService) (user_id : String)
    (tables : Tables) (shown : ToolResult) : Type 0 where
  pub top_k : Option ℤ
  pub answer : RetrievalResult
  pub is_answer : IsAnswer user_id tables.documents tables.chunks (limit_of F service top_k) answer
  pub result_of :
      shown
      ≡ ok_result "" "rag_tool"
          (format_hits python.decimal answer.hits answer.citations)
          (payload_of answer)

-- The agent's retrieval shows the caller's own passages only: whatever arguments the planner's step has,
-- if the tool returns a result, then its text and its payload are those of an answer of retrieval for the
-- user of the context, provided that no reranker is wired. The tool changes nothing.
pub rag_executor-IsShown :
    (python : Python) (F : FloatOps) (service : RetrievalService) (elapsed : ℕ)
    → (args : Fields) (ctx : ToolContext) (tables : Tables) (shown : ToolResult)
    → service.rerank ≡ none
    → (rag_executor python F service elapsed args ctx tables).outcome ≡ returned shown
    → IsShown python F service ctx.user_id tables shown
      × ((rag_executor python F service elapsed args ctx tables).world ≡ tables)
unfolding rag_executor execute_rag
rag_executor-IsShown python F service elapsed args ctx tables shown plain done =
    (go (query_of python args == "") refl, refl)
  where
    go :
        (b : Bool)
        → (query_of python args == "") ≡ b
        → IsShown python F service ctx.user_id tables shown
    go true e = absurd (ground (arith, e, done))
    go false e =
        let executed : execute_rag python F service args ctx tables ≡ ok shown =
          ground (arith, done) in
        let (top_k, _, with_k) =
          bind_ok (top_k_of python args)
            (λ k.
              retrieve F service ctx.user_id (query_of python args) k tables.documents tables.chunks
              >>= λ result. ok (
                  ok_result "" "rag_tool" (format_hits python.decimal result.hits result.citations)
                    (payload_of result)))
            shown (ground (arith, executed, e)) in
        let (answer, found, last) = bind_ok _ _ shown with_k in
        record {
          top_k = top_k;
          answer = answer;
          is_answer =
              retrieve-IsAnswer F service ctx.user_id (query_of python args) top_k tables.documents
                tables.chunks answer plain found;
          result_of = ground (arith, last);
        }
