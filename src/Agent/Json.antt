-- ===== src/Agent/Json.antt =====
-- The values of `json.loads` and of tool arguments. A dict is a list of fields, one for each key.
use research_assistant.Base.{
  String, Bool, Option, none, some, List, [], ◌∷◌, ℤ, ◌==◌, string_eq, if◌then◌else◌,
}
use research_assistant.Core.Float.{Float}

mutual
  pub data Json : Type 0 where
    null : Json
    bool : Bool → Json
    int : ℤ → Json
    float : Float → Json
    str : String → Json
    arr : Items → Json
    obj : Fields → Json

  pub data Items : Type 0 where
    nil : Items
    cons : Json → Items → Items

  pub data Fields : Type 0 where
    end : Fields
    field : String → Json → Fields → Fields

-- `d.get(k)`
unfoldable pub get_field : String → Fields → Option Json
get_field k end = none
get_field k (field j v d) = if j == k then some v else get_field k d

unfoldable pub to_list : Items → List Json
to_list nil = []
to_list (cons x xs) = x ∷ to_list xs

unfoldable pub of_list : List Json → Items
of_list [] = nil
of_list (x ∷ xs) = cons x (of_list xs)

-- `None` or the text
abbrev pub opt_str : Option String → Json
opt_str none = null
opt_str (some s) = str s
