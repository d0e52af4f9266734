-- ===== src/Core/Application.antt =====
-- `create_app` of backend/app/main.py: what the application is put together from. The middleware and the
-- routers are named; `title` is Python's `str.title`.
use research_assistant.Base.{
  ℕ, String, Bool, Option, none, some, List, [], ◌∷◌, ◌++◌, if◌then◌else◌,
}
use research_assistant.Base.Text.{◌<>◌}
use research_assistant.Core.Errors.{Result, ok, ◌>>=◌}
use research_assistant.Core.Config.{Settings}
use research_assistant.Core.Container.{Container, Constructors, boot}

pub data Middleware : Type 0 where
  gzip : (minimum_size : ℕ) → Middleware
  response_time : Middleware
  cors : (allow_origins : List String) → Middleware
  access_log : Middleware
  request_id : Middleware

pub data Router : Type 0 where
  health auth uploads rag agent root_path : Router

-- `middleware` is in the order of execution, the outermost first; a router has its prefix.
pub record App (W : Type 0) : Type 0 where
  pub container : Container W
  pub title : String
  pub debug : Bool
  pub docs_url : Option String
  pub middleware : List Middleware
  pub routers : List (Router × String)

-- `app.add_middleware` puts the new one in front, `app.include_router` behind the others.
abbrev add_middleware : {W : Type 0} → Middleware → App W → App W
add_middleware m app = record app { middleware = m ∷ app.middleware }

abbrev include_router : {W : Type 0} → Router → (prefix : String) → App W → App W
include_router router prefix app = record app { routers = app.routers ++ ((router, prefix) ∷ []) }

abbrev new_app : {W : Type 0} → (title : String → String) → Settings → Container W → App W
new_app title settings container = record {
  container = container;
  title = title settings.app_name <> " API";
  debug = settings.debug;
  docs_url = if settings.debug then some "/docs" else none;
  middleware = [];
  routers = [];
}

abbrev with_middleware : {W : Type 0} → Settings → App W → App W
with_middleware settings app = add_middleware request_id (
    add_middleware access_log (
      add_middleware (cors settings.cors_origins)
        (add_middleware response_time (add_middleware (gzip 1024) app))))

abbrev with_routers : {W : Type 0} → Settings → App W → App W
with_routers settings app = include_router root_path "" (
    include_router agent settings.api_v1_prefix (
      include_router rag settings.api_v1_prefix (
        include_router uploads settings.api_v1_prefix
          (include_router auth settings.api_v1_prefix (include_router health "" app)))))

unfoldable pub create_app :
    {W : Type 0} → (lower repr title : String → String) → Constructors W → Settings → Result (App W)
unfolding boot
create_app lower repr title constructors settings =
    boot lower repr constructors settings >>= λ container.
    ok (with_routers settings (with_middleware settings (new_app title settings container)))

-- The end of `lifespan`: the engine that is disposed of, if there is one.
abbrev pub disposed : {W : Type 0} → App W → Option String
disposed app = app.container.engine
