-- ===== src/Agent/Registry.antt =====
-- backend/app/modules/agent/tools/registry.py: `_specs`, a dict from names to specs.
use Prim.Native.String.{◌++◌}
use research_assistant.Base.{
  ℕ, ℤ, String, Option, none, some, List, [], ◌∷◌, map, Dict, values, keys, get, put, mem, keep_if,
  ◌==◌, string_eq, if◌then◌else◌,
}
use research_assistant.Core.Errors.{Result, ok, err, raise_insight, configuration, ◌>>=◌}
use research_assistant.Agent.Json.{Fields, end}
use research_assistant.Agent.Tools.{
  ToolSpec, ToolExecutor, visible_to_role, build_placeholder_tools,
}

abbrev pub ToolRegistry : Type 0 → Type 0
ToolRegistry W = Dict String (ToolSpec W)

-- `parameters or {}`
abbrev or_no_fields : Option Fields → Fields
or_no_fields none = end
or_no_fields (some parameters) = parameters

module _ {W : Type 0} where
  -- `repr` is Python's `!r` on a text.
  unfoldable pub register :
      (repr : String → String) → ToolSpec W → ToolRegistry W → Result (ToolRegistry W)
  unfolding raise_insight
  register repr spec specs =
      if spec.name == ""
      then err (raise_insight configuration "Tool name must not be empty")
      else if mem spec.name (keys specs)
      then err (raise_insight configuration ("Tool " ++ repr spec.name ++ " is already registered"))
      else ok (put spec.name spec specs)

  -- `decorator`, whose wrapper registers the function; `_FunctionExecutor` calls it with the same arguments.
  unfoldable pub register_function :
      (repr : String → String) (name description : String) (parameters : Option Fields)
      → (visible_to : Option (List String)) (retries : ℤ) (timeout : ℕ) → ToolExecutor W
      → ToolRegistry W
      → Result (ToolRegistry W)
  unfolding register
  register_function repr name description parameters visible_to retries timeout fn specs =
      register repr
        (record {
          name = name;
          description = description;
          parameters = or_no_fields parameters;
          executor = fn;
          visible_to = visible_to;
          cost_class = "standard";
          latency_class = "standard";
          retries = retries;
          timeout = timeout;
        })
        specs

  unfoldable pub get_spec : String → ToolRegistry W → Option (ToolSpec W)
  get_spec name specs = get name specs

  unfoldable pub list_specs : Option String → ToolRegistry W → List (ToolSpec W)
  list_specs none specs = values specs
  list_specs (some role) specs = keep_if (λ spec. visible_to_role spec role) (values specs)

  unfoldable pub names : Option String → ToolRegistry W → List String
  unfolding list_specs
  names role specs = map (λ spec. spec.name) (list_specs role specs)

  unfoldable pub register_all :
      (repr : String → String) → List (ToolSpec W) → ToolRegistry W → Result (ToolRegistry W)
  unfolding register
  register_all repr [] specs = ok specs
  register_all repr (spec ∷ rest) specs =
      register repr spec specs >>= λ specs'. register_all repr rest specs'

  -- `rag` is the spec that `build_rag_tool` gives.
  unfoldable pub build_default_registry :
      (repr : String → String) (vision_parameters nlp_parameters : Fields)
      → ToolSpec W
      → Result (ToolRegistry W)
  unfolding register_all build_placeholder_tools
  build_default_registry repr vision_parameters nlp_parameters rag =
      register_all repr (rag ∷ build_placeholder_tools vision_parameters nlp_parameters) []
