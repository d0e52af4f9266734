-- ===== src/Rag/Passages.antt =====
-- What the agent's rag_tool shows of a retrieval (`_hit_data`, `_citation_data`, `_format_hits` and the
-- payload of backend/app/modules/agent/tools/rag_tool.py), and the query rewriters of retrieval.py.
use research_assistant.Base.{
  ℕ, ◌+◌, String, Option, none, some, List, [], ◌∷◌, map, length, Dict, get, put, ◌==◌, string_eq,
  if◌then◌else◌,
}
use research_assistant.Base.Text.{◌<>◌, strip, words, join, slice}
use research_assistant.Agent.Tools.{HitData, CitationData, Payload, passages}
use research_assistant.Agent.Planner.{Provider, response, failure}
use research_assistant.Rag.Citations.{RetrievalHit, Citation}
use research_assistant.Rag.Retrieval.{RetrievalResult}

unfoldable pub hit_data : RetrievalHit → HitData
hit_data hit = record {
  chunk_id = hit.chunk_id;
  document_id = hit.document_id;
  document_name = hit.document_name;
  score = hit.score;
  page = hit.page;
  heading = hit.heading;
}

unfoldable pub citation_data : Citation → CitationData
citation_data citation = record {
  index = citation.index;
  chunk_id = citation.chunk_id;
  document_id = citation.document_id;
  document_name = citation.document_name;
  page = citation.page;
  heading = citation.heading;
  snippet = citation.snippet;
  score = citation.score;
}

unfoldable pub payload_of : RetrievalResult → Payload
unfolding hit_data citation_data
payload_of result =
    passages result.query (some result.rewritten_query) (map hit_data result.hits)
      (map citation_data result.citations)

-- `by_chunk`
unfoldable pub citations_by_chunk : Dict String Citation → List Citation → Dict String Citation
citations_by_chunk by_chunk [] = by_chunk
citations_by_chunk by_chunk (c ∷ citations) =
    citations_by_chunk (put c.chunk_id c by_chunk) citations

-- `decimal` writes a number, as an f-string does.
module _ (decimal : ℕ → String) where
  unfoldable pub source_of : Option Citation → RetrievalHit → String
  source_of none hit = hit.document_name
  source_of (some c) hit = elim c.page [
    | none ↦ c.document_name
    | some page ↦ c.document_name <> " (p. " <> decimal page <> ")"
  ]

  unfoldable pub hit_lines : Dict String Citation → ℕ → List RetrievalHit → List String
  unfolding source_of slice join words
  hit_lines by_chunk position [] = []
  hit_lines by_chunk position (hit ∷ hits) =
      ("["
        <> decimal position
        <> "] "
        <> source_of (get hit.chunk_id by_chunk) hit
        <> ": "
        <> slice 200 (join " " (words hit.content)))
      ∷ hit_lines by_chunk (position + 1) hits

  unfoldable pub format_hits : List RetrievalHit → List Citation → String
  unfolding hit_lines citations_by_chunk join
  format_hits [] citations = "No relevant passages were found in the user's documents."
  format_hits (hit ∷ hits) citations = join "\n" (
      ("Retrieved " <> decimal (length (hit ∷ hits)) <> " passage(s):")
      ∷ hit_lines (citations_by_chunk [] citations) 1 (hit ∷ hits))

-- `PassthroughQueryRewriter.rewrite`
abbrev pub rewrite_nothing : String → String
rewrite_nothing query = query

-- `LLMQueryRewriter.rewrite`
unfoldable pub rewrite_query : Provider → (instruction query : String) → String
unfolding strip
rewrite_query provider instruction query =
    elim (provider (
      record { role = "system"; content = instruction }
      ∷ record { role = "user"; content = query }
      ∷ [])) [
        | failure type_name message ↦ query
        | response content ↦
            let rewritten = strip content in if rewritten == "" then query else rewritten
      ]
