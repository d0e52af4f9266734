-- ===== src/Examples/Rag/Tool.antt =====
-- The agent's retrieval tool at a small library.
use research_assistant.Base.{
  ◌≡◌, refl, [], ◌∷◌, pos, eqb, get, put, take, All, ◌==◌, string_eq, false, none,
}
use research_assistant.Core.Errors.{Result, ok, err}
use research_assistant.Rag.Documents.{Library, memory_backend, delete}
use research_assistant.Rag.Forgotten.{delete-unseen}
use research_assistant.Rag.Retrieval.{RetrievalResult, retrieve}
use research_assistant.Agent.Json.{str, Fields, end, field}
use research_assistant.Agent.Tools.{ToolContext, ToolResult, ok_result, returned}
use research_assistant.Rag.Passages.{format_hits, payload_of}
use research_assistant.Rag.Tool.{Python, Tables, rag_executor}
use research_assistant.Rag.Tool.Scope.{IsShown, rag_executor-IsShown}
use research_assistant.Examples.Rag.{ops, service, document, chunk, answer, library, program}

abbrev python : Python
python = record {
  str_of = λ v. "";
  int_of = λ v. ok (pos 5);
  is_zero = λ x. eqb x.bits 0;
  decimal = λ n. "1";
  name_of = λ e. "Error";
  text_of = λ e. "";
}

abbrev tables : Tables
tables = record { documents = document ∷ []; chunks = chunk ∷ [] }

abbrev ctx : ToolContext
ctx = record { user_id = "u1"; role = "user"; step_id = "s1" }

abbrev args : Fields
args = field "query" (str " cells ") end

abbrev shown : ToolResult
shown =
    ok_result "" "rag_tool" (format_hits python.decimal answer.hits answer.citations)
      (payload_of answer)

ran : (rag_executor python ops service 1 args ctx tables).outcome ≡ returned shown
unfolding rag_executor get put take
ran = refl

rag_executor-IsShown_example :
    IsShown python ops service "u1" tables shown
    × ((rag_executor python ops service 1 args ctx tables).world ≡ tables)
rag_executor-IsShown_example =
    rag_executor-IsShown python ops service 1 args ctx tables shown refl ran

-- The same question after the document has been deleted.
abbrev after : Library
after = (delete memory_backend "u1" "d1" library).1

abbrev or_answer : Result RetrievalResult → RetrievalResult
or_answer (ok result) = result
or_answer (err e) = answer

abbrev later_answer : RetrievalResult
later_answer = or_answer (retrieve ops service "u1" "cells" none after.documents after.chunks)

asked_again : retrieve ops service "u1" "cells" none after.documents after.chunks ≡ ok later_answer
unfolding program get put take delete
asked_again = refl

deleted : (delete memory_backend "u1" "d1" library).0 ≡ ok tt
unfolding program get put take delete
deleted = refl

delete-unseen_example : All (λ hit. (hit.document_id == "d1") ≡ false) later_answer.hits
delete-unseen_example =
    delete-unseen ops service memory_backend "u1" "d1" library "u1" "cells" none later_answer refl
      deleted asked_again
