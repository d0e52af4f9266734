-- ===== src/Api/Bodies.antt =====
-- backend/app/modules/rag/schemas.py with the functions of router.py that fill the answers. The column
-- updated_at of a document is not kept.
use research_assistant.Base.{
  ℕ, String, Option, none, some, List, [], ◌∷◌, ◌||◌, Dict, get, ltb, map, ◌==◌, string_eq,
  if◌then◌else◌, ℤ, pos, negsuc,
}
use research_assistant.Base.Text.{len}
use research_assistant.Core.Errors.{Result, ok, err, other, Invalid, ◌>>=◌}
use research_assistant.Core.Float.{Float}
use research_assistant.Rag.Citations.{Citation, RetrievalHit, snippet_chars}
use research_assistant.Rag.Tables.{Document}
use research_assistant.Rag.Documents.{Library as Tables, get_document}
use research_assistant.Rag.Listing.{count_or_zero}
use research_assistant.Rag.Retrieval.{RetrievalResult}
use research_assistant.Api.{invalid}

pub record DocumentOut : Type 0 where
  pub document_id : String
  pub name : String
  pub mime : String
  pub size_bytes : ℕ
  pub status : String
  pub parser : String
  pub source_type : String
  pub error : Option String
  pub created_at : ℕ
  pub completed_at : Option ℕ
  pub chunk_count : ℕ

pub record IngestDocumentResponse : Type 0 where
  pub document : DocumentOut
  pub chunk_count : ℕ

pub record DocumentListResponse : Type 0 where
  pub items : List DocumentOut
  pub total : ℕ
  pub skip : ℕ
  pub limit : ℕ

pub record RetrievalHitOut : Type 0 where
  pub chunk_id : String
  pub document_id : String
  pub document_name : String
  pub content : String
  pub score : Float
  pub page : Option ℕ
  pub heading : Option String

pub record RetrieveResponse : Type 0 where
  pub query : String
  pub rewritten_query : Option String
  pub hits : List RetrievalHitOut
  pub citations : List Citation

-- `DocumentOut.model_validate(document)` with the count; `DocumentStatusType` names three states.
unfoldable pub document_out_of : Document → ℕ → Result DocumentOut
document_out_of d count =
    if d.status == "processing" || d.status == "ready" || d.status == "failed"
    then ok (record {
      document_id = d.document_id;
      name = d.name;
      mime = d.mime;
      size_bytes = d.size_bytes;
      status = d.status;
      parser = d.parser;
      source_type = d.source_type;
      error = d.error;
      created_at = d.created_at;
      completed_at = d.completed_at;
      chunk_count = count;
    })
    else err (other "ValidationError" "Input should be 'processing', 'ready' or 'failed'")

-- `_document_out`
unfoldable pub document_out : (user_id document_id : String) → ℕ → Tables → Result DocumentOut
unfolding get_document document_out_of
document_out user_id document_id count tables =
    get_document user_id document_id tables >>= λ document. document_out_of document count

unfoldable pub items_of : List Document → Dict String ℕ → Result (List DocumentOut)
unfolding document_out_of get
items_of [] counts = ok []
items_of (d ∷ documents) counts =
    let rest = items_of documents counts in
    document_out_of d (count_or_zero d.document_id counts) >>= λ item.
    (rest >>= λ items. ok (item ∷ items))

abbrev pub hit_out : RetrievalHit → RetrievalHitOut
hit_out hit = record {
  chunk_id = hit.chunk_id;
  document_id = hit.document_id;
  document_name = hit.document_name;
  content = hit.content;
  score = hit.score;
  page = hit.page;
  heading = hit.heading;
}

-- `CitationOut`, whose snippet has at most `SNIPPET_CHARS` characters.
unfoldable pub citation_outs : List Citation → Result (List Citation)
unfolding len
citation_outs [] = ok []
citation_outs (citation ∷ citations) =
    let rest = citation_outs citations in
    if ltb snippet_chars (len citation.snippet)
    then err (other "ValidationError" "String should have at most 220 characters")
    else (rest >>= λ outs. ok (citation ∷ outs))

unfoldable pub retrieve_response : RetrievalResult → Result RetrieveResponse
unfolding citation_outs
retrieve_response result = citation_outs result.citations >>= λ citations. ok (record {
  query = result.query;
  rewritten_query = some result.rewritten_query;
  hits = map hit_out result.hits;
  citations = citations;
})

-- `Field(ge=…, le=…)` and `Query(ge=…, le=…)`
unfoldable pub in_range : (loc : String) (least most : ℕ) → ℤ → List Invalid
in_range loc least most (negsuc n) = invalid loc "greater_than_equal" "Input is too small" ∷ []
in_range loc least most (pos n) =
    if ltb n least
    then invalid loc "greater_than_equal" "Input is too small" ∷ []
    else if ltb most n
    then invalid loc "less_than_equal" "Input is too large" ∷ []
    else []

unfoldable pub in_range_or_none : (loc : String) (least most : ℕ) → Option ℤ → List Invalid
unfolding in_range
in_range_or_none loc least most none = []
in_range_or_none loc least most (some n) = in_range loc least most n

unfoldable pub at_least_zero_errors : (loc : String) → ℤ → List Invalid
at_least_zero_errors loc (pos n) = []
at_least_zero_errors loc (negsuc n) = invalid loc "greater_than_equal" "Input is too small" ∷ []

abbrev pub magnitude : ℤ → ℕ
magnitude (pos n) = n
magnitude (negsuc n) = 0
