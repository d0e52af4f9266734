-- ===== src/Api/Passages.antt =====
-- Whose passages the endpoint of retrieval shows.
use research_assistant.Base.{
  ℕ, ◌≡◌, ◌≤◌, ◌++◌, refl, sym, arith, subst, String, Option, none, some, List, [], ◌∷◌, map, All,
  ℤ,
}
use research_assistant.Base.Text.{len}
use research_assistant.Core.Errors.{ok, bind_ok}
use research_assistant.Core.Float.{FloatOps}
use research_assistant.Auth.{User, Store}
use research_assistant.Auth.Tokens.{Crypto, Settings}
use research_assistant.Rag.Citations.{Citation, snippet_chars}
use research_assistant.Rag.Documents.{Library as Tables}
use research_assistant.Rag.Retrieval.{RetrievalService, RetrievalResult, retrieve, limit_of}
use research_assistant.Rag.Retrieval.Answers.{IsAnswer, retrieve-IsAnswer}
use research_assistant.Api.{Credentials, get_current_user, bounded, validated}
use research_assistant.Api.Signed.{
  IsSignedIn, get_current_user-IsSignedIn, configured-ok, validated-ok,
}
use research_assistant.Api.Bodies.{
  RetrieveResponse, hit_out, citation_outs, retrieve_response, in_range_or_none,
}
use research_assistant.Api.Library.{get_retrieval_service, post_retrieve}

citation_outs-ok :
    (citations : List Citation)
    → All (λ c. len c.snippet ≤ snippet_chars) citations
    → citation_outs citations ≡ ok citations
unfolding citation_outs
citation_outs-ok [] short = refl
citation_outs-ok (c ∷ citations) (short, rest) =
    ground (arith, short, citation_outs-ok citations rest)

-- The response shows an answer of retrieval for the user of the token.
pub record IsShownTo (lower : String → String) (crypto : Crypto) (F : FloatOps)
    (auth_service : Option Settings) (service : Option RetrievalService)
    (given : Option Credentials) (now : ℕ) (store : Store) (query : String) (top_k : Option ℤ)
    (tables : Tables) (response : RetrieveResponse) : Type 0 where
  pub user : User
  pub retrieval : RetrievalService
  pub answer : RetrievalResult
  pub signed_in : IsSignedIn lower crypto auth_service given now store user
  pub with_service : service ≡ some retrieval
  pub answered :
      retrieve F retrieval user.user_id query top_k tables.documents tables.chunks ≡ ok answer
  pub is_answer :
      IsAnswer user.user_id tables.documents tables.chunks (limit_of F retrieval top_k) answer
  pub same_hits : response.hits ≡ map hit_out answer.hits
  pub same_citations : response.citations ≡ answer.citations

-- An answer of the endpoint of retrieval shows what retrieval gives for the user of the token, who is
-- signed in and active: passages of that user's own documents only, with their citations, provided that
-- no reranker is wired.
pub post_retrieve-IsShownTo :
    (lower : String → String) (crypto : Crypto) (F : FloatOps) (auth_service : Option Settings)
    → (service : Option RetrievalService) (given : Option Credentials) (now : ℕ) (store : Store)
    → (query : String) (top_k : Option ℤ) (tables : Tables) (response : RetrieveResponse)
    → ((s : RetrievalService) → service ≡ some s → s.rerank ≡ none)
    → post_retrieve lower crypto F auth_service service given now store query top_k tables
      ≡ ok response
    → IsShownTo lower crypto F auth_service service given now store query top_k tables response
unfolding post_retrieve get_retrieval_service retrieve_response
post_retrieve-IsShownTo lower crypto F auth_service service given now store query top_k tables
      response plain done =
    let (user, signed, s1) =
      bind_ok (get_current_user lower crypto auth_service given now store) _ response done in
    let (retrieval, wired, s2) =
      bind_ok (get_retrieval_service lower crypto service) _ response s1 in
    let errors = bounded "query" 1 1000 query ++ in_range_or_none "top_k" 1 50 top_k in
    let (valid, checked, s3) = bind_ok (validated errors query) _ response s2 in
    let (answer, found, s4) =
      bind_ok (retrieve F retrieval user.user_id valid top_k tables.documents tables.chunks) _
        response s3 in
    let there =
      configured-ok "RAG retrieval is not configured; set DATABASE_URL to enable the RAG module"
        service retrieval wired in
    let (_, same) = validated-ok errors query valid checked in
    let given_answer =
      subst
        (λ q. retrieve F retrieval user.user_id q top_k tables.documents tables.chunks ≡ ok answer)
        (sym same) found in
    let is_answer =
      retrieve-IsAnswer F retrieval user.user_id query top_k tables.documents tables.chunks answer
        (plain retrieval there) given_answer in
    record {
      user = user;
      retrieval = retrieval;
      answer = answer;
      signed_in = get_current_user-IsSignedIn lower crypto auth_service given now store user signed;
      with_service = there;
      answered = given_answer;
      is_answer = is_answer;
      same_hits = ground (arith, s4, citation_outs-ok answer.citations is_answer.cited.short);
      same_citations = ground (arith, s4, citation_outs-ok answer.citations is_answer.cited.short);
    }
