-- ===== src/Shared/Storage/Objects.antt =====
-- The local storage of objects of backend/app/shared/storage.py against a map from paths to contents.
pub mod Reads
use research_assistant.Base.{
  ℕ, ◌≡◌, refl, ap, ◌∙◌, sym, Bool, true, false, String, Option, none, some, List, [], ◌∷◌, ◌++◌,
  arith, length, Dict, get, put, get-put, ◌==◌, Equality, string_eq, if◌then◌else◌, ◌||◌, not, ℤ,
  beq_refl, subst,
}
use research_assistant.Core.Errors.{Result, ok, err, other}
use research_assistant.Shared.Paths.{Names, names_eq, names_equal, is_relative_to, parent}
use research_assistant.Shared.Storage.{
  Bytes, ObjectMetadata, File, Disk, remove_files, make_dirs, write_bytes, read_bytes, path_of,
  put_bytes, get_bytes, head, delete_object, put_at, write_in, delete_at,
}

get-remove_files :
    (p : Names → Bool) (path : Names) (files : Dict Names File)
    → get path (remove_files p files) ≡ (if p path then none else get path files)
unfolding get remove_files
get-remove_files p path [] = ground arith
get-remove_files p path ((name, file) ∷ files) =
    ground (arith, names_eq.equals_iff name path, get-remove_files p path files)

-- What the disk holds, as a map.
abbrev pub Contents : Type 0
Contents = Names → Option Bytes

unfoldable pub content_of : Option File → Option Bytes
content_of none = none
content_of (some file) = some file.content

unfoldable pub contents : Disk → Contents
unfolding content_of
contents disk path = content_of (get path disk.files)

-- One call of the storage, and what a call does to the map.
pub data Operation : Type 0 where
  putting : (key : String) → Bytes → (now : ℕ) → Operation
  deleting : (key : String) → Operation

pub data Event : Type 0 where
  written : Names → Bytes → Event
  removed : Names → Event
  refused : Event

unfoldable pub replay_event : Event → Contents → Contents
replay_event (written target content) before path =
    if target == path then some content else before path
replay_event (removed target) before path = if is_relative_to target path then none else before path
replay_event refused before path = before path

unfoldable pub replay : List Event → Contents → Contents
unfolding replay_event
replay [] before = before
replay (event ∷ events) before = replay events (replay_event event before)

-- What `get_bytes` and `head` give for a key of a content.
unfoldable pub answer_of : String → Option ℤ → Option Bytes → Result Bytes
unfolding read_bytes
answer_of key limit none = err (other "FileNotFoundError" key)
answer_of key limit (some content) = read_bytes limit content

abbrev pub HasSize : Option Bytes → Option ObjectMetadata → Type 0
HasSize none found = found ≡ none
HasSize (some content) found =
    (size : ObjectMetadata) × (found ≡ some size) × (size.size_bytes ≡ length content)

pub relative_trans :
    (root target path : Names)
    → is_relative_to root target ≡ true
    → is_relative_to target path ≡ true
    → is_relative_to root path ≡ true
unfolding is_relative_to
relative_trans root target [] h k =
    subst (λ p. is_relative_to root p ≡ true) ((names_eq.equals_iff target []).0 k) h
relative_trans root target (name ∷ path) h k =
    go (names_equal target (name ∷ path)) refl (relative_trans root target path h)
  where
    go :
        (same : Bool)
        → names_equal target (name ∷ path) ≡ same
        → (is_relative_to target path ≡ true → is_relative_to root path ≡ true)
        → is_relative_to root (name ∷ path) ≡ true
    go true e rest =
        subst (λ p. is_relative_to root p ≡ true) ((names_eq.equals_iff target (name ∷ path)).0 e) h
    go false e rest = ground (arith, e, rest)

unfoldable pub put_event : Result Names → Bytes → Result (Unit {0}) → Event
put_event (ok target) content (ok u) = written target content
put_event found content answer = refused

unfoldable pub delete_event : Result Names → Event
delete_event (ok target) = removed target
delete_event (err e) = refused

write_bytes-replays :
    (target : Names) (content : Bytes) (now : ℕ) (disk : Disk) (path : Names)
    → contents (write_bytes target content now disk).1 path
      ≡ replay_event
          (put_event (ok target) content (write_bytes target content now disk).0)
          (contents disk)
          path
unfolding write_bytes contents content_of put_event replay_event
write_bytes-replays target content now disk path =
    ground (arith, get-put target path (record { content = content; mtime = now }) disk.files)

write_in-replays :
    (dirs : Result (List Names)) (target : Names) (content : Bytes) (now : ℕ) (disk : Disk)
    (path : Names)
    → contents (write_in dirs target content now disk).1 path
      ≡ replay_event
          (put_event (ok target) content (write_in dirs target content now disk).0)
          (contents disk)
          path
unfolding write_in put_event replay_event contents
write_in-replays (err e) target content now disk path = refl
write_in-replays (ok dirs) target content now disk path =
    write_bytes-replays target content now (record disk { dirs = dirs }) path

put_at-replays :
    (found : Result Names) (content : Bytes) (now : ℕ) (disk : Disk) (path : Names)
    → contents (put_at found content now disk).1 path
      ≡ replay_event
          (put_event found content (put_at found content now disk).0)
          (contents disk)
          path
unfolding put_at put_event replay_event contents
put_at-replays (err e) content now disk path = refl
put_at-replays (ok target) content now disk path =
    write_in-replays (make_dirs (parent target) disk) target content now disk path

pub relative_equal :
    (target path : Names) → names_equal target path ≡ true → is_relative_to target path ≡ true
unfolding is_relative_to
relative_equal target [] h = h
relative_equal target (name ∷ path) h = ground arith

delete_at-replays :
    (found : Result Names) (disk : Disk) (path : Names)
    → contents (delete_at found disk).1 path
      ≡ replay_event (delete_event found) (contents disk) path
unfolding delete_at delete_event replay_event contents content_of
delete_at-replays (err e) disk path = refl
delete_at-replays (ok target) disk path = ground (
  arith,
  get-remove_files (is_relative_to target) path
      (remove_files (λ p. names_equal target p) disk.files),
  get-remove_files (λ p. names_equal target p) path disk.files,
  relative_equal target path,
)

replay_event-cong :
    (event : Event) (f g : Contents) (path : Names)
    → f path ≡ g path
    → replay_event event f path ≡ replay_event event g path
unfolding replay_event
replay_event-cong (written target content) f g path h = ground (arith, h)
replay_event-cong (removed target) f g path h = ground (arith, h)
replay_event-cong refused f g path h = h

replay-cong :
    (events : List Event) (f g : Contents) (path : Names)
    → f path ≡ g path
    → replay events f path ≡ replay events g path
unfolding replay
replay-cong [] f g path h = h
replay-cong (event ∷ events) f g path h =
    replay-cong events (replay_event event f) (replay_event event g) path
      (replay_event-cong event f g path h)

module _ (repr : String → String) (hex : ℕ → String) (root : Names) where
  unfoldable pub run_operation : Operation → Disk → Result (Unit {0}) × Disk
  unfolding put_bytes delete_object
  run_operation (putting key content now) disk = put_bytes repr hex root key content now disk
  run_operation (deleting key) disk = delete_object repr hex root key disk

  unfoldable pub run : List Operation → Disk → Disk
  unfolding run_operation
  run [] disk = disk
  run (operation ∷ operations) disk = run operations (run_operation operation disk).1

  unfoldable pub event_of : Operation → Disk → Event
  unfolding path_of run_operation put_event delete_event
  event_of (putting key content now) disk =
      put_event (path_of repr hex root key) content (run_operation (putting key content now) disk).0
  event_of (deleting key) disk = delete_event (path_of repr hex root key)

  unfoldable pub events_of : List Operation → Disk → List Event
  unfolding event_of run_operation
  events_of [] disk = []
  events_of (operation ∷ operations) disk =
      event_of operation disk ∷ events_of operations (run_operation operation disk).1

  pub run_operation-replays :
      (operation : Operation) (disk : Disk) (path : Names)
      → contents (run_operation operation disk).1 path
        ≡ replay_event (event_of operation disk) (contents disk) path
  unfolding run_operation event_of put_bytes delete_object
  run_operation-replays (putting key content now) disk path =
      put_at-replays (path_of repr hex root key) content now disk path
  run_operation-replays (deleting key) disk path =
      delete_at-replays (path_of repr hex root key) disk path

  pub run-replays :
      (operations : List Operation) (disk : Disk) (path : Names)
      → contents (run operations disk) path
        ≡ replay (events_of operations disk) (contents disk) path
  unfolding run events_of replay
  run-replays [] disk path = refl
  run-replays (operation ∷ operations) disk path =
      run-replays operations (run_operation operation disk).1 path
      ∙ replay-cong (events_of operations (run_operation operation disk).1)
          (contents (run_operation operation disk).1)
          (replay_event (event_of operation disk) (contents disk)) path
          (run_operation-replays operation disk path)
