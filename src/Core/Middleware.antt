-- ===== src/Core/Middleware.antt =====
-- backend/app/core/context.py and middleware.py: the trace id of a request, and the middleware that the
-- program has of its own. A handler answers or raises; `State` is the context variable and the access
-- log. The clock, random ids and the format of a duration are a record, and the handler around which the
-- middleware stands is any.
pub mod Traced
use research_assistant.Base.{
  ℕ, ◌-◌, String, Option, none, some, List, [], ◌∷◌, ◌++◌, Dict, get, put, ◌==◌, string_eq,
  if◌then◌else◌,
}
use research_assistant.Base.Text.{◌<>◌}
use research_assistant.Core.Errors.{Result, ok, err}

-- The names of the headers are in lower case.
pub record Request : Type 0 where
  pub method : String
  pub path : String
  pub headers : Dict String String
  pub client : Option String

pub record Response : Type 0 where
  pub status : ℕ
  pub headers : Dict String String
  pub body : String

-- The line `http_request` of the access log.
pub record AccessLine : Type 0 where
  pub method : String
  pub path : String
  pub status : ℕ
  pub duration : ℕ
  pub client : Option String

-- `_trace_id`, the log, and the clock in microseconds.
pub record State : Type 0 where
  pub trace_id : String
  pub access_log : List AccessLine
  pub clock : ℕ

abbrev pub Handler : Type 0
Handler = Request → State → Result Response × State

-- The id that `uuid4().hex` gives, from the time, and `f"{duration_ms:.3f}"`, from microseconds.
pub record Surroundings : Type 0 where
  pub new_trace_id : ℕ → String
  pub milliseconds : ℕ → String

-- `set_trace_id` with a value
abbrev pub set_trace_id : Surroundings → String → State → State
set_trace_id surroundings value state = record state {
  trace_id = if value == "" then surroundings.new_trace_id state.clock else value;
}

-- `request.headers.get("x-request-id") or new_trace_id()`
unfoldable pub trace_id_of : Surroundings → Request → State → String
unfolding get
trace_id_of surroundings request state = elim (get "x-request-id" request.headers) [
  | none ↦ surroundings.new_trace_id state.clock
  | some value ↦ if value == "" then surroundings.new_trace_id state.clock else value
]

abbrev pub with_header : String → String → Result Response × State → Result Response × State
with_header name value (ok response, state) =
    (ok (record response { headers = put name value response.headers }), state)
with_header name value (err e, state) = (err e, state)

-- `RequestIDMiddleware.dispatch`
unfoldable pub request_id : Surroundings → Handler → Handler
unfolding trace_id_of put
request_id surroundings call_next request state =
    let trace_id = trace_id_of surroundings request state in
    with_header "x-request-id" trace_id
      (call_next request (set_trace_id surroundings trace_id state))

unfoldable pub log_access :
    (start : ℕ) → Request → Result Response × State → Result Response × State
log_access start request (ok response, state) = (
  ok response,
  record state {
    access_log =
        state.access_log
        ++ (record {
          method = request.method;
          path = request.path;
          status = response.status;
          duration = state.clock - start;
          client = request.client;
        }
            ∷ []);
  },
)
log_access start request (err e, state) = (err e, state)

-- `AccessLogMiddleware.dispatch`
unfoldable pub access_log : Handler → Handler
unfolding log_access
access_log call_next request state = log_access state.clock request (call_next request state)

timed : Surroundings → (start : ℕ) → Result Response × State → Result Response × State
unfolding put
timed surroundings start (answer, state) =
    with_header "server-timing" ("total;dur=" <> surroundings.milliseconds (state.clock - start))
      (answer, state)

-- `ResponseTimeMiddleware.dispatch`
unfoldable pub response_time : Surroundings → Handler → Handler
unfolding timed
response_time surroundings call_next request state =
    timed surroundings state.clock (call_next request state)

-- The chain of `create_app`, the outermost first; `cors` and `gzip` are the web framework's.
unfoldable pub served : Surroundings → (cors gzip : Handler → Handler) → (app : Handler) → Handler
unfolding request_id access_log response_time
served surroundings cors gzip app =
    request_id surroundings (access_log (cors (response_time surroundings (gzip app))))
