-- ===== src/Examples/Core.antt =====
-- The composition root and the middleware at small settings.
use research_assistant.Base.{ℕ, ◌≡◌, refl, String, false, none, some, [], ◌∷◌, ◌==◌, string_eq}
use research_assistant.Core.Errors.{ok, Result}
use research_assistant.Core.Float.{Float}
use research_assistant.Core.Config.{Settings, default_settings}
use research_assistant.Core.Container.{Container, Constructors, boot}
use research_assistant.Core.Middleware.{
  Request, State, Handler, Surroundings, request_id, access_log,
}
use research_assistant.Core.Middleware.Traced.{IsTraced, IsTraceId, entered, request_id-IsTraced}

abbrev weight : Float
weight = record { bits = 1 }

abbrev settings : Settings
settings = record (default_settings weight weight) {
  database_url = some "sqlite://";
  embedding_provider = "memory";
  vector_store_backend = "memory";
}

abbrev constructors : Constructors (Unit {0})
constructors = record {
  build_engine = λ url echo. ok tt;
  build_client = λ storage. ok tt;
  upload_service = λ storage s. ok tt;
  load_index = λ store dir dims. ok tt;
  load_splitter = λ splitter. ok tt;
  select_one = λ url world. ok tt;
  named = λ e. "";
}

abbrev same_text : String → String
same_text text = text

abbrev or_else : Result (Container (Unit {0})) → Container (Unit {0}) → Container (Unit {0})
or_else (ok container) other = container
or_else _ other = other

abbrev nothing : Container (Unit {0})
nothing = record { settings = settings; health = []; engine = none; services = none }

abbrev booted : Container (Unit {0})
booted = or_else (boot same_text same_text constructors settings) nothing

abbrev surroundings : Surroundings
surroundings = record { new_trace_id = λ time. "t1"; milliseconds = λ n. "0.000" }

abbrev answer_200 : Handler
answer_200 request state = (ok (record { status = 200; headers = []; body = "" }), state)

abbrev request : Request
request = record {
  method = "GET";
  path = "/";
  headers = ("x-request-id", "r1") ∷ [];
  client = none;
}

abbrev state : State
state = record { trace_id = ""; access_log = []; clock = 0 }

fresh : (time : ℕ) → (surroundings.new_trace_id time == "") ≡ false
fresh time = refl

request_id-IsTraced_example :
    (trace_id : String) × IsTraceId surroundings request state trace_id
    × IsTraced trace_id request 0
        (answer_200 request (entered trace_id state))
        (request_id surroundings (access_log answer_200) request state)
request_id-IsTraced_example = request_id-IsTraced surroundings answer_200 request state fresh
