-- ===== src/Agent/Service/Citations.antt =====
-- The citations of a run.
use mathlib.Core.List.{Sublistᴰ}
use mathlib.Core.List.Sublistᴰ as SL
use research_assistant.Base.{
  ◌≡◌, refl, sym, ap, ◌∙◌, subst, String, true, false, ◌&&◌, ◌||◌, not, List, [], ◌∷◌, ◌++◌, map,
  arith, mem, Distinct, mem-append, Dict, get, Bool-cases, inl, inr, string_eq, eq_iff, Bool,
  Option, none, some, keep_if, ◌==◌,
}
use research_assistant.Agent.Tools.{ToolResult, ToolCall, Payload, empty, passages, CitationData}
use research_assistant.Agent.Service.{
  collect_new, step_citations, payload_citations, collect_from, collect_citations,
}

abbrev pub chunk_ids : List CitationData → List String
chunk_ids cs = map (λ c. c.chunk_id) cs

-- All citations of the steps, with repetitions.
unfoldable pub all_citations : List ToolCall → Dict String ToolResult → List CitationData
all_citations [] results = []
all_citations (step ∷ steps) results =
    step_citations (get step.step_id results) ++ all_citations steps results

chunk_ids-append : (xs ys : List CitationData) → chunk_ids (xs ++ ys) ≡ chunk_ids xs ++ chunk_ids ys
chunk_ids-append [] ys = refl
chunk_ids-append (x ∷ xs) ys = ap (λ l. x.chunk_id ∷ l) (chunk_ids-append xs ys)

-- What is collected beside `seen` from `cs`: each new id once.
record IsNew (seen : List String) (cs out : List CitationData) : Type 0 where
  members : (j : String) → mem j (chunk_ids out) ≡ (mem j (chunk_ids cs) && not (mem j seen))
  distinct : Distinct (chunk_ids out)

IsNew-collect_new :
    (seen : List String) (cs : List CitationData) → IsNew seen cs (collect_new seen cs).0
unfolding collect_new mem
IsNew-collect_new seen [] = record { members = λ j. refl; distinct = tt }
IsNew-collect_new seen (c ∷ cs) = elim (Bool-cases (mem c.chunk_id seen)) [
  | inl old ↦
      let h = IsNew-collect_new seen cs in
      rw old (record {
        members = λ j. ground (arith, old, h.members j, eq_iff c.chunk_id j);
        distinct = h.distinct;
      })
  | inr new ↦
      let h = IsNew-collect_new (c.chunk_id ∷ seen) cs in
      rw new (record {
        members = λ j. ground (arith, new, h.members j, eq_iff c.chunk_id j);
        distinct = (ground (arith, h.members c.chunk_id, eq_iff c.chunk_id c.chunk_id), h.distinct);
      })
]

mem-seen :
    (j : String) (seen : List String) (cs : List CitationData)
    → mem j (collect_new seen cs).1 ≡ (mem j seen || mem j (chunk_ids cs))
unfolding collect_new mem
mem-seen j seen [] = ground arith
mem-seen j seen (c ∷ cs) = elim (Bool-cases (mem c.chunk_id seen)) [
  | inl old ↦ rw old (ground (arith, old, mem-seen j seen cs, eq_iff c.chunk_id j))
  | inr new ↦ rw new (ground (arith, mem-seen j (c.chunk_id ∷ seen) cs))
]

Distinct-append :
    (xs ys : List String)
    → Distinct xs
    → Distinct ys
    → ((j : String) → mem j xs ≡ true → mem j ys ≡ false)
    → Distinct (xs ++ ys)
unfolding mem
Distinct-append [] ys dx dy apart = dy
Distinct-append (x ∷ xs) ys dx dy apart = (
  ground (arith, dx.0, mem-append x xs ys, apart x, eq_iff x x),
  Distinct-append xs ys dx.1 dy λ j m. apart j (ground arith),
)

IsNew-collect_from :
    (seen : List String) (steps : List ToolCall) (results : Dict String ToolResult)
    → IsNew seen (all_citations steps results) (collect_from seen steps results)
unfolding collect_from mem all_citations
IsNew-collect_from seen [] results = record { members = λ j. refl; distinct = tt }
IsNew-collect_from seen (step ∷ steps) results =
    let cs = step_citations (get step.step_id results) in
    let new = (collect_new seen cs).0 in
    let seen' = (collect_new seen cs).1 in
    let h = IsNew-collect_new seen cs in
    let k = IsNew-collect_from seen' steps results in
    let split = chunk_ids-append new (collect_from seen' steps results) in
    record {
      members = λ j. ground (
        arith,
        ap (mem j) split,
        mem-append j (chunk_ids new) (chunk_ids (collect_from seen' steps results)),
        ap (mem j) (chunk_ids-append cs (all_citations steps results)),
        mem-append j (chunk_ids cs) (chunk_ids (all_citations steps results)),
        h.members j,
        k.members j,
        mem-seen j seen cs,
      );
      distinct = subst Distinct (sym split) (
          Distinct-append _ _ h.distinct k.distinct
            λ j m. ground (arith, h.members j, k.members j, mem-seen j seen cs));
    }

Sublist-collect_new :
    (seen : List String) (cs : List CitationData) → Sublistᴰ (collect_new seen cs).0 cs
unfolding collect_new
Sublist-collect_new seen [] = SL.slnil
Sublist-collect_new seen (c ∷ cs) = elim (Bool-cases (mem c.chunk_id seen)) [
  | inl old ↦ rw old (SL.cons (Sublist-collect_new seen cs))
  | inr new ↦ rw new (SL.cons-cons refl (Sublist-collect_new (c.chunk_id ∷ seen) cs))
]

Sublist-append :
    (a b c d : List CitationData) → Sublistᴰ a b → Sublistᴰ c d → Sublistᴰ (a ++ c) (b ++ d)
Sublist-append _ _ c d SL.slnil k = k
Sublist-append a (x ∷ b) c d (SL.cons h) k = SL.cons (Sublist-append a b c d h k)
Sublist-append (x ∷ a) (y ∷ b) c d (SL.cons-cons e h) k =
    SL.cons-cons e (Sublist-append a b c d h k)

Sublist-collect_from :
    (seen : List String) (steps : List ToolCall) (results : Dict String ToolResult)
    → Sublistᴰ (collect_from seen steps results) (all_citations steps results)
unfolding collect_from all_citations
Sublist-collect_from seen [] results = SL.slnil
Sublist-collect_from seen (step ∷ steps) results =
    let cs = step_citations (get step.step_id results) in
    Sublist-append _ cs _ _ (Sublist-collect_new seen cs)
      (Sublist-collect_from (collect_new seen cs).1 steps results)

abbrev pub with_found : Option ToolResult → List ToolResult → List ToolResult
with_found none rs = rs
with_found (some r) rs = r ∷ rs

-- The results of the steps, in the order of the plan.
unfoldable pub step_results : List ToolCall → Dict String ToolResult → List ToolResult
unfolding get
step_results [] results = []
step_results (step ∷ steps) results =
    with_found (get step.step_id results) (step_results steps results)

abbrev pub is_search : ToolResult → Bool
is_search r = (r.tool == "rag_tool") && (r.status == "ok")

abbrev pub shown_by : Payload → List CitationData
shown_by empty = []
shown_by (passages query rewritten hits citations) = citations
shown_by _ = []

-- What some results cite, with repetitions.
unfoldable pub cited_by : List ToolResult → List CitationData
cited_by [] = []
cited_by (r ∷ rs) = shown_by r.payload ++ cited_by rs

-- What the successful searches of a run cite.
unfoldable pub search_citations : List ToolCall → Dict String ToolResult → List CitationData
unfolding step_results cited_by keep_if
search_citations steps results = cited_by (keep_if is_search (step_results steps results))

payload_citations-shown_by : (p : Payload) → payload_citations p ≡ shown_by p
payload_citations-shown_by p = ground arith

step_citations-cited_by :
    (found : Option ToolResult) (rs : List ToolResult)
    → step_citations found ++ cited_by (keep_if is_search rs)
      ≡ cited_by (keep_if is_search (with_found found rs))
unfolding step_citations cited_by keep_if
step_citations-cited_by none rs = refl
step_citations-cited_by (some r) rs = elim (Bool-cases (is_search r)) [
  | inl yes_search ↦ rw (yes_search, payload_citations-shown_by r.payload) refl
  | inr no_search ↦ rw no_search refl
]

search_citations-all_citations :
    (steps : List ToolCall) (results : Dict String ToolResult)
    → all_citations steps results ≡ search_citations steps results
unfolding all_citations search_citations step_results cited_by keep_if
search_citations-all_citations [] results = refl
search_citations-all_citations (step ∷ steps) results =
    let found = get step.step_id results in
    ap (λ l. step_citations found ++ l) (search_citations-all_citations steps results)
    ∙ step_citations-cited_by found (step_results steps results)

-- The citations of a run are some of those of its successful `rag_tool` results, in their order;
-- every chunk that those cite is cited, and none twice.
pub record IsCollection (all out : List CitationData) : Type 0 where
  pub ordered : Sublistᴰ out all
  pub complete : (j : String) → mem j (chunk_ids out) ≡ mem j (chunk_ids all)
  pub once : Distinct (chunk_ids out)

collect_citations-IsCollection_all :
    (steps : List ToolCall) (results : Dict String ToolResult)
    → IsCollection (all_citations steps results) (collect_citations steps results)
unfolding collect_citations mem
collect_citations-IsCollection_all steps results =
    let h = IsNew-collect_from [] steps results in
    record {
      ordered = Sublist-collect_from [] steps results;
      complete = λ j. ground (arith, h.members j);
      once = h.distinct;
    }

-- `_collect_citations` keeps the order of the plan, cites each chunk that a successful `rag_tool`
-- result of a step cites, no other, and none twice.
pub collect_citations-IsCollection :
    (steps : List ToolCall) (results : Dict String ToolResult)
    → IsCollection (search_citations steps results) (collect_citations steps results)
collect_citations-IsCollection steps results =
    subst (λ all. IsCollection all (collect_citations steps results))
      (search_citations-all_citations steps results)
      (collect_citations-IsCollection_all steps results)
