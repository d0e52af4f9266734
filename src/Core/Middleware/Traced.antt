-- ===== src/Core/Middleware/Traced.antt =====
-- How a request is traced.
use research_assistant.Base.{
  ℕ, ◌-◌, ◌≡◌, refl, arith, subst, String, false, Option, none, some, [], ◌∷◌, ◌++◌, get, get-put,
  ◌==◌, string_eq,
}
use research_assistant.Core.Errors.{Result, ok, err}
use research_assistant.Core.Middleware.{
  Request, Response, State, Handler, Surroundings, set_trace_id, trace_id_of, request_id,
  access_log, log_access, with_header,
}

-- What one request leaves behind, of what the handler inside has given. An answer carries the trace id
-- and has one line in the access log with its status; an exception passes on, and has no line.
abbrev pub IsTraced :
    (trace_id : String)
    → Request
    → (start : ℕ) → Result Response × State
    → Result Response × State
    → Type 0
IsTraced trace_id request start (ok inner, within) outer =
    (response : Response) × (outer.0 ≡ ok response)
    × (get "x-request-id" response.headers ≡ some trace_id)
    × (response.status ≡ inner.status)
    × (response.body ≡ inner.body)
    × (outer.1 ≡ record within {
      access_log =
          within.access_log
          ++ (record {
            method = request.method;
            path = request.path;
            status = inner.status;
            duration = within.clock - start;
            client = request.client;
          }
              ∷ []);
    })
IsTraced trace_id request start (err e, within) outer = outer ≡ (err e, within)

-- The trace id of a request: what its header says, or a drawn id if that is missing or empty.
pub record IsTraceId (surroundings : Surroundings) (request : Request) (state : State)
    (trace_id : String) : Type 0 where
  pub incoming :
      (value : String)
      → get "x-request-id" request.headers ≡ some value
      → (value == "") ≡ false
      → trace_id ≡ value
  pub missing :
      get "x-request-id" request.headers ≡ none → trace_id ≡ surroundings.new_trace_id state.clock
  pub blank :
      get "x-request-id" request.headers ≡ some ""
      → trace_id ≡ surroundings.new_trace_id state.clock

trace_id_of-IsTraceId :
    (surroundings : Surroundings) (request : Request) (state : State)
    → IsTraceId surroundings request state (trace_id_of surroundings request state)
unfolding trace_id_of
trace_id_of-IsTraceId surroundings request state = record {
  incoming = λ value given named. ground (arith, given, named);
  missing = λ absent. rw (trace_id_of, absent) refl;
  blank = λ empty. rw (trace_id_of, empty) refl;
}

-- The state in which the handler inside runs.
abbrev pub entered : (trace_id : String) → State → State
entered trace_id state = record state { trace_id = trace_id }

log_access-IsTraced :
    (trace_id : String) (request : Request) (start : ℕ) (inner : Result Response × State)
    → IsTraced trace_id request start inner
        (with_header "x-request-id" trace_id (log_access start request inner))
unfolding log_access
log_access-IsTraced trace_id request start (ok response, within) = (
  _,
  refl,
  ground (arith, get-put "x-request-id" "x-request-id" trace_id response.headers),
  refl,
  refl,
  refl,
)
log_access-IsTraced trace_id request start (err e, within) = refl

trace_id_of-ne_empty :
    (surroundings : Surroundings) (request : Request) (state : State)
    → ((time : ℕ) → (surroundings.new_trace_id time == "") ≡ false)
    → (trace_id_of surroundings request state == "") ≡ false
unfolding trace_id_of
trace_id_of-ne_empty surroundings request state fresh = go (get "x-request-id" request.headers) refl
  where
    go :
        (given : Option String)
        → get "x-request-id" request.headers ≡ given
        → (trace_id_of surroundings request state == "") ≡ false
    go none e = ground (arith, e, fresh state.clock)
    go (some value) e = ground (arith, e, fresh state.clock)

-- A request is handled with the trace id of its header x-request-id, or with a new one if that is missing
-- or empty. The answer has the status and the body of the handler inside, the same id in its header,
-- and exactly one line more in the access log; an exception that the handler raises passes on with no
-- header and no line. New ids are not empty.
pub request_id-IsTraced :
    (surroundings : Surroundings) (call_next : Handler) (request : Request) (state : State)
    → ((time : ℕ) → (surroundings.new_trace_id time == "") ≡ false)
    → (trace_id : String) × IsTraceId surroundings request state trace_id
      × IsTraced trace_id request state.clock
          (call_next request (entered trace_id state))
          (request_id surroundings (access_log call_next) request state)
unfolding request_id access_log
request_id-IsTraced surroundings call_next request state fresh =
    let trace_id = trace_id_of surroundings request state in
    let same : entered trace_id state ≡ set_trace_id surroundings trace_id state =
      rw (trace_id_of-ne_empty surroundings request state fresh) refl in
    let traced =
      subst
        (λ within.
          IsTraced trace_id request state.clock (call_next request (entered trace_id state)) (
            with_header "x-request-id" trace_id
              (log_access state.clock request (call_next request within))))
        same
        (log_access-IsTraced trace_id request state.clock
          (call_next request (entered trace_id state))) in
    (trace_id, trace_id_of-IsTraceId surroundings request state, traced)
