-- ===== src/Examples/Api.antt =====
-- Requests to the endpoints.
use research_assistant.Base.{
  ◌≡◌, refl, pos, String, false, none, some, List, [], ◌∷◌, length, map, arith, subst, get, put,
  take, ◌⊎◌,
}
use research_assistant.Core.Errors.{ok, err, Exn}
use research_assistant.Rag.Embeddings.{Models, Hashing, embed, Embedder, sentence_transformer}
use research_assistant.Rag.Embeddings.Dimensions.{HasDimensions, dims_of, embed-HasDimensions}
use research_assistant.Rag.Retrieval.{RetrievalService}
use research_assistant.Rag.Stores.{Vector}
use research_assistant.Api.{Credentials}
use research_assistant.Api.Agents.{post_run}
use research_assistant.Api.Runs.{IsRunFor, post_run-IsRunFor}
use research_assistant.Api.Bodies.{RetrieveResponse, hit_out}
use research_assistant.Api.Library.{post_retrieve}
use research_assistant.Api.Passages.{IsShownTo, post_retrieve-IsShownTo}
use research_assistant.Examples.Agent.{host}
use research_assistant.Examples.Agent.Planner.{codec, planner}
use research_assistant.Examples.Auth.{crypto, settings, store}
use research_assistant.Examples.Rag.{ops, service, library, answer, float}
use research_assistant.Examples.Rag.Ingestion.{embed_texts, length-map_texts}

abbrev same_text : String → String
same_text text = text

abbrev bearer : Credentials
bearer = record { scheme = "bearer"; credentials = "u1" }

post_run-IsRunFor_example :
    ((e : Exn) × (post_run same_text crypto host codec
          (some settings)
          (some planner)
          (some bearer)
          50
          store
          "what"
          0
        ≡ (err e, 0)))
    ⊎ IsRunFor same_text crypto host codec
        (some settings)
        (some planner)
        (some bearer)
        50
        store
        "what"
        0
        (post_run same_text crypto host codec
          (some settings)
          (some planner)
          (some bearer)
          50
          store
          "what"
          0)
post_run-IsRunFor_example =
    post_run-IsRunFor same_text crypto host codec (some settings) (some planner) (some bearer) 50
      store "what" 0

abbrev response : RetrieveResponse
response = record {
  query = "cells";
  rewritten_query = some "cells";
  hits = map hit_out answer.hits;
  citations = answer.citations;
}

retrieved :
    post_retrieve same_text crypto ops
      (some settings)
      (some service)
      (some bearer)
      50
      store
      "cells"
      none
      library
    ≡ ok response
unfolding post_retrieve get put take
retrieved = refl

plain : (s : RetrievalService) → some service ≡ some s → s.rerank ≡ none
plain s same =
    let alike : service ≡ s = ground (arith, same) in
    subst (λ (t : RetrievalService). t.rerank ≡ none) alike refl

post_retrieve-IsShownTo_example :
    IsShownTo same_text crypto ops
      (some settings)
      (some service)
      (some bearer)
      50
      store
      "cells"
      none
      library
      response
post_retrieve-IsShownTo_example =
    post_retrieve-IsShownTo same_text crypto ops (some settings) (some service) (some bearer) 50
      store "cells" none library response plain retrieved

abbrev pub models : Models
models = record {
  encode = λ name texts. ok (embed_texts texts);
  decimal = λ n. "";
  decimal_of = λ n. "";
  repr = same_text;
}

abbrev pub hashing : Hashing
hashing = record {
  words_of = λ text. text ∷ [];
  uniform = λ token i. float 1;
  sum = λ xs. float 1;
  is_zero = λ x. false;
}

pub encodes_each :
    (name : String) (texts : List String) (vectors : List Vector)
    → models.encode name texts ≡ ok vectors
    → length vectors ≡ length texts
encodes_each name texts vectors given = ground (arith, given, length-map_texts texts)

abbrev pub sentences : Embedder
sentences = sentence_transformer "m" (pos 1)

embedded : embed ops hashing models sentences ("a" ∷ "b" ∷ []) ≡ ok (embed_texts ("a" ∷ "b" ∷ []))
unfolding embed
embedded = refl

embed-HasDimensions_example :
    HasDimensions (dims_of sentences) ("a" ∷ "b" ∷ []) (embed_texts ("a" ∷ "b" ∷ []))
embed-HasDimensions_example =
    embed-HasDimensions ops hashing models sentences ("a" ∷ "b" ∷ []) (embed_texts ("a" ∷ "b" ∷ []))
      encodes_each embedded
