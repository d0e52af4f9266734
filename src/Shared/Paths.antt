-- ===== src/Shared/Paths.antt =====
-- Paths as `pathlib` has them, without symbolic links: `(root / key).resolve()` and `is_relative_to`.
use Prim.Native.Char.{code}
use Prim.Native.String.{◌++◌ as cat}
use research_assistant.Base.{
  ◌≡◌, ◌↔◌, String, Bool, true, false, List, [], ◌∷◌, arith, ◌&&◌, ◌||◌, eqb, ◌==◌, string_eq,
  Equality, eq_iff, if◌then◌else◌,
}

-- The names of a path, the innermost first.
abbrev pub Names : Type 0
Names = List String

unfoldable pub names_equal : Names → Names → Bool
names_equal [] [] = true
names_equal [] (y ∷ ys) = false
names_equal (x ∷ xs) [] = false
names_equal (x ∷ xs) (y ∷ ys) = x == y && names_equal xs ys

pub names_equal_iff : (xs ys : Names) → (names_equal xs ys ≡ true) ↔ (xs ≡ ys)
unfolding names_equal
names_equal_iff [] [] = ground arith
names_equal_iff [] (y ∷ ys) = ground arith
names_equal_iff (x ∷ xs) [] = ground arith
names_equal_iff (x ∷ xs) (y ∷ ys) = ground (arith, eq_iff x y, names_equal_iff xs ys)

instance abbrev pub names_eq : Equality Names
names_eq = record { equals = names_equal; equals_iff = names_equal_iff }

-- `cur` is the name so far.
names_from : (cur : String) → String → Names
names_from cur String.[] = cur ∷ []
names_from cur (String.◌∷◌ c s) =
    let next = cur ∷ names_from "" s in
    let longer = names_from (cat cur (String.◌∷◌ c String.[])) s in
    if eqb (code c) 47 then next else longer

-- `key.split("/")`
unfoldable pub names_of : String → Names
unfolding names_from
names_of key = names_from "" key

abbrev pub parent : Names → Names
parent [] = []
parent (name ∷ names) = names

-- One name of a path, from a directory that is resolved.
abbrev pub enter : Names → String → Names
enter path name =
    if name == "" || name == "." then path else if name == ".." then parent path else name ∷ path

unfoldable pub enter_all : Names → Names → Names
enter_all path [] = path
enter_all path (name ∷ names) = enter_all (enter path name) names

abbrev pub is_absolute : String → Bool
is_absolute String.[] = false
is_absolute (String.◌∷◌ c s) = eqb (code c) 47

-- `(root / key).resolve()`
unfoldable pub resolve : (root : Names) → (key : String) → Names
unfolding enter_all names_of
resolve root key = enter_all (if is_absolute key then [] else root) (names_of key)

-- `path.is_relative_to(root)`
unfoldable pub is_relative_to : (root path : Names) → Bool
is_relative_to root [] = root == []
is_relative_to root (name ∷ path) = root == (name ∷ path) || is_relative_to root path
