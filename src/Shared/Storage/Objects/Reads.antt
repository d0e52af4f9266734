-- ===== src/Shared/Storage/Objects/Reads.antt =====
-- What the reads of the local storage give after any sequence of its calls, and what no call touches.
use research_assistant.Base.{
  ℕ, ◌≡◌, refl, ap, ◌∙◌, subst, Bool, true, false, String, Option, none, some, List, [], ◌∷◌, arith,
  get, ℤ,
}
use research_assistant.Core.Errors.{Result, ok, err, ◌>>=◌}
use research_assistant.Shared.Paths.{Names, names_eq, is_relative_to, resolve}
use research_assistant.Shared.Storage.{
  Bytes, ObjectMetadata, File, Disk, read_file, metadata_of, path_of, get_bytes, head,
}
use research_assistant.Shared.Storage.Objects.{
  Contents, contents, content_of, Operation, putting, deleting, Event, written, removed, refused,
  replay_event, replay, answer_of, HasSize, relative_trans, relative_equal, put_event, delete_event,
  run_operation, run, event_of, events_of, run-replays, run_operation-replays,
}

read_file-answer :
    (key : String) (limit : Option ℤ) (file : Option File)
    → read_file key limit file ≡ answer_of key limit (content_of file)
unfolding read_file answer_of content_of
read_file-answer key limit none = refl
read_file-answer key limit (some file) = refl

metadata_of-HasSize :
    (hex : ℕ → String) (file : Option File) → HasSize (content_of file) (metadata_of hex file)
unfolding metadata_of content_of
metadata_of-HasSize hex none = refl
metadata_of-HasSize hex (some file) = (_, refl, refl)

-- The event stands at a path below the root, if it changes anything.
abbrev IsInside : Names → Event → Type 0
IsInside root (written target content) = is_relative_to root target ≡ true
IsInside root (removed target) = is_relative_to root target ≡ true
IsInside root refused = Unit

replay_event-outside :
    (root : Names) (event : Event) (before : Contents) (path : Names)
    → IsInside root event
    → is_relative_to root path ≡ false
    → replay_event event before path ≡ before path
unfolding replay_event
replay_event-outside root (written target content) before path inside out =
    ground (arith, relative_equal target path, relative_trans root target path inside)
replay_event-outside root (removed target) before path inside out =
    ground (arith, relative_trans root target path inside)
replay_event-outside root refused before path inside out = refl

put_event-IsInside :
    (root : Names) (found : Result Names) (content : Bytes) (answer : Result (Unit {0}))
    → ((target : Names) → found ≡ ok target → is_relative_to root target ≡ true)
    → IsInside root (put_event found content answer)
unfolding put_event
put_event-IsInside root (ok target) content (ok u) h = h target refl
put_event-IsInside root (ok target) content (err e) h = tt
put_event-IsInside root (err e) content answer h = tt

delete_event-IsInside :
    (root : Names) (found : Result Names)
    → ((target : Names) → found ≡ ok target → is_relative_to root target ≡ true)
    → IsInside root (delete_event found)
unfolding delete_event
delete_event-IsInside root (ok target) h = h target refl
delete_event-IsInside root (err e) h = tt

module _ (repr : String → String) (hex : ℕ → String) (root : Names) where
  path_of-inside :
      (key : String) (target : Names)
      → path_of repr hex root key ≡ ok target
      → is_relative_to root target ≡ true
  unfolding path_of
  path_of-inside key target at = go (is_relative_to root (resolve root key)) refl
    where
      go :
          (inside : Bool)
          → is_relative_to root (resolve root key) ≡ inside
          → is_relative_to root target ≡ true
      go true e = ground (arith, e, at)
      go false e = ground (arith, e, at)

  event_of-IsInside :
      (operation : Operation) (disk : Disk) → IsInside root (event_of repr hex root operation disk)
  unfolding event_of
  event_of-IsInside (putting key content now) disk =
      put_event-IsInside root (path_of repr hex root key) content
        (run_operation repr hex root (putting key content now) disk).0 (path_of-inside key)
  event_of-IsInside (deleting key) disk =
      delete_event-IsInside root (path_of repr hex root key) (path_of-inside key)

  -- No sequence of calls, whatever their keys, writes or removes a file outside of the root.
  pub run-confined :
      (operations : List Operation) (disk : Disk) (path : Names)
      → is_relative_to root path ≡ false
      → contents (run repr hex root operations disk) path ≡ contents disk path
  unfolding run
  run-confined [] disk path out = refl
  run-confined (operation ∷ operations) disk path out =
      let after = (run_operation repr hex root operation disk).1 in
      run-confined operations after path out
      ∙ run_operation-replays repr hex root operation disk path
      ∙ replay_event-outside root (event_of repr hex root operation disk) (contents disk) path
          (event_of-IsInside operation disk) out

  -- After any sequence of calls on any disk, a read with a key that the guard takes gives what a map
  -- from paths to contents holds that replays the accepted calls: a put writes one path, a delete
  -- removes the path with all below it, and a call with an error changes nothing. `get_bytes` gives
  -- the content, cut to the limit, or FileNotFoundError, and `head` its size, or None.
  pub run-refines :
      (operations : List Operation) (disk : Disk) (key : String) (target : Names) (limit : Option ℤ)
      → path_of repr hex root key ≡ ok target
      → (get_bytes repr hex root key limit (run repr hex root operations disk)
          ≡ answer_of key limit
              (replay (events_of repr hex root operations disk) (contents disk) target))
        × ((found : Option ObjectMetadata) × (head repr hex root key
                (run repr hex root operations disk)
              ≡ ok found)
            × HasSize
                (replay (events_of repr hex root operations disk) (contents disk) target)
                found)
  unfolding get_bytes head contents
  run-refines operations disk key target limit at =
      let after = run repr hex root operations disk in
      let file = get target after.files in
      let replays = run-replays repr hex root operations disk target in
      (
        ap (λ found. found >>= λ t. read_file key limit (get t after.files)) at
            ∙ read_file-answer key limit file
            ∙ ap (answer_of key limit) replays,
        (
          metadata_of hex file,
          ap (λ found. found >>= λ t. ok (metadata_of hex (get t after.files))) at,
          subst (λ c. HasSize c (metadata_of hex file)) replays (metadata_of-HasSize hex file),
        ),
      )
