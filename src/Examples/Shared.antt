-- ===== src/Examples/Shared.antt =====
-- The storage of objects at a small disk.
use research_assistant.Base.{
  ℕ, ◌≡◌, refl, String, Option, get, put, keep_if, none, List, [], ◌∷◌, false,
}
use research_assistant.Core.Errors.{ok}
use research_assistant.Shared.Paths.{Names, names_equal, is_relative_to}
use research_assistant.Shared.Storage.{ObjectMetadata, Disk, path_of, get_bytes, head}
use research_assistant.Shared.Storage.Objects.{
  Operation, putting, deleting, HasSize, contents, run, events_of, replay, answer_of,
}
use research_assistant.Shared.Storage.Objects.Reads.{run-refines, run-confined}

-- /srv/store, with a file beside it.
abbrev pub root : Names
root = "store" ∷ "srv" ∷ []

abbrev secret : Names
secret = "secret" ∷ "srv" ∷ []

abbrev pub disk : Disk
disk = record {
  files = (secret, record { content = 9 ∷ []; mtime = 0 }) ∷ [];
  dirs = root ∷ ("srv" ∷ []) ∷ [];
}

abbrev pub repr : String → String
repr key = key

abbrev pub hex : ℕ → String
hex n = "0"

abbrev calls : List Operation
calls =
    putting "a/b" (1 ∷ 2 ∷ []) 1
    ∷ putting "c" (3 ∷ []) 2
    ∷ putting "../secret" (4 ∷ []) 3
    ∷ deleting "c"
    ∷ putting "a/./b" (5 ∷ []) 4
    ∷ []

paths : path_of repr hex root "a/b" ≡ ok ("b" ∷ "a" ∷ root)
unfolding path_of names_equal
paths = refl

run-refines_example :
    (get_bytes repr hex root "a/b" none (run repr hex root calls disk)
      ≡ answer_of "a/b" none
          (replay (events_of repr hex root calls disk) (contents disk) ("b" ∷ "a" ∷ root)))
    × ((found : Option ObjectMetadata) × (head repr hex root "a/b" (run repr hex root calls disk)
          ≡ ok found)
        × HasSize
            (replay (events_of repr hex root calls disk) (contents disk) ("b" ∷ "a" ∷ root))
            found)
run-refines_example = run-refines repr hex root calls disk "a/b" ("b" ∷ "a" ∷ root) none paths

outside : is_relative_to root secret ≡ false
unfolding is_relative_to names_equal
outside = refl

run-confined_example : contents (run repr hex root calls disk) secret ≡ contents disk secret
run-confined_example = run-confined repr hex root calls disk secret outside

read_back : get_bytes repr hex root "a/b" none (run repr hex root calls disk) ≡ ok (5 ∷ [])
unfolding run get_bytes names_equal get put keep_if
read_back = refl
