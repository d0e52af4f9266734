-- ===== src/Shared/Storage.antt =====
-- `LocalObjectStorage` of backend/app/shared/storage.py over a disk of files and directories. The disk
-- has no symbolic links, and its device does not fail.
pub mod Objects
pub mod S3
use research_assistant.Base.{
  ℕ, zero, suc, ◌-◌, ◌+◌, String, Bool, true, false, Option, none, some, List, [], ◌∷◌, keep_if,
  length, take, not, ◌&&◌, mem, Dict, get, put, keys, ◌==◌, string_eq, if◌then◌else◌, ℤ, pos,
  negsuc,
}
use research_assistant.Base.Text.{◌<>◌}
use research_assistant.Core.Errors.{Result, ok, err, other, ◌>>=◌}
use research_assistant.Shared.Paths.{Names, names_eq, parent, resolve, is_relative_to}

abbrev pub Bytes : Type 0
Bytes = List ℕ

pub record ObjectMetadata : Type 0 where
  pub size_bytes : ℕ
  pub etag : Option String
  pub content_type : Option String

-- A file, with the time of its last write in nanoseconds.
pub record File : Type 0 where
  pub content : Bytes
  pub mtime : ℕ

pub record Disk : Type 0 where
  pub files : Dict Names File
  pub dirs : List Names

abbrev pub local_url_scheme : String
local_url_scheme = "local://"

-- Removing a key of a dict, or all keys below a path.
unfoldable pub remove_files : (Names → Bool) → Dict Names File → Dict Names File
remove_files p [] = []
remove_files p ((path, file) ∷ files) =
    let rest = remove_files p files in if p path then rest else (path, file) ∷ rest

-- `path.mkdir(parents=True, exist_ok=True)`: the directories behind it, or an exception if a file is
-- in the way.
unfoldable pub make_dirs : Names → Disk → Result (List Names)
make_dirs [] disk = ok disk.dirs
make_dirs (name ∷ path) disk = elim (get (name ∷ path) disk.files) [
  | some file ↦ err (other "FileExistsError" "File exists")
  | none ↦ elim (make_dirs path disk) [
    | err e ↦ err (other "NotADirectoryError" "Not a directory")
    | ok dirs ↦ ok (if mem (name ∷ path) dirs then dirs else (name ∷ path) ∷ dirs)
  ]
]

-- `handle.read(limit)`: -1 stands for no limit, and no other negative number is taken.
unfoldable pub read_bytes : Option ℤ → Bytes → Result Bytes
unfolding take
read_bytes none content = ok content
read_bytes (some (pos n)) content = ok (take n content)
read_bytes (some (negsuc zero)) content = ok content
read_bytes (some (negsuc (suc n))) content =
    err (other "ValueError" "read length must be non-negative or -1")

-- `write_bytes`, in a disk whose directories are those given.
unfoldable pub write_bytes : Names → Bytes → ℕ → Disk → Result (Unit {0}) × Disk
unfolding mem
write_bytes target content now disk =
    if mem target disk.dirs then (err (other "IsADirectoryError" "Is a directory"), disk) else (
      ok tt,
      record disk { files = put target (record { content = content; mtime = now }) disk.files },
    )

-- `put_bytes` behind `mkdir`, and behind `_path`
unfoldable pub write_in : Result (List Names) → Names → Bytes → ℕ → Disk → Result (Unit {0}) × Disk
unfolding write_bytes
write_in (err e) target content now disk = (err e, disk)
write_in (ok dirs) target content now disk =
    write_bytes target content now (record disk { dirs = dirs })

unfoldable pub put_at : Result Names → Bytes → ℕ → Disk → Result (Unit {0}) × Disk
unfolding make_dirs write_in
put_at (err e) content now disk = (err e, disk)
put_at (ok target) content now disk =
    write_in (make_dirs (parent target) disk) target content now disk

-- `delete` behind `_path`: a file, or a directory with all that is below it
unfoldable pub delete_at : Result Names → Disk → Result (Unit {0}) × Disk
unfolding remove_files is_relative_to
delete_at (err e) disk = (err e, disk)
delete_at (ok target) disk =
    let unlinked = remove_files (λ path. target == path) disk.files in
    (
      ok tt,
      record {
        files = remove_files (is_relative_to target) unlinked;
        dirs = keep_if (λ path. not (is_relative_to target path)) disk.dirs;
      },
    )

-- `get_bytes` and `head` of the file at the path, if there is one. `hex` is Python's format for integers.
unfoldable pub read_file : (key : String) (limit : Option ℤ) → Option File → Result Bytes
unfolding read_bytes
read_file key limit none = err (other "FileNotFoundError" key)
read_file key limit (some file) = read_bytes limit file.content

unfoldable pub metadata_of : (hex : ℕ → String) → Option File → Option ObjectMetadata
metadata_of hex none = none
metadata_of hex (some file) =
    some (record {
      size_bytes = length file.content;
      etag = some (hex file.mtime);
      content_type = none;
    })

-- `root` is resolved; `repr` and `hex` are Python's.
module _ (repr : String → String) (hex : ℕ → String) (root : Names) where
  -- `_path`
  unfoldable pub path_of : String → Result Names
  unfolding resolve is_relative_to
  path_of key =
      let target = resolve root key in
      if is_relative_to root target
      then ok target
      else err (other "ValueError" ("storage key escapes root: " <> repr key))

  -- `presign_put` and `presign_get`
  unfoldable pub presign : String → Result String
  unfolding path_of
  presign key = path_of key >>= λ target. ok (local_url_scheme <> key)

  unfoldable pub put_bytes :
      (key : String) (content : Bytes) (now : ℕ) → Disk → Result (Unit {0}) × Disk
  unfolding path_of put_at
  put_bytes key content now disk = put_at (path_of key) content now disk

  unfoldable pub get_bytes : (key : String) (limit : Option ℤ) → Disk → Result Bytes
  unfolding path_of read_file
  get_bytes key limit disk = path_of key >>= λ target. read_file key limit (get target disk.files)

  unfoldable pub head : (key : String) → Disk → Result (Option ObjectMetadata)
  unfolding path_of metadata_of
  head key disk = path_of key >>= λ target. ok (metadata_of hex (get target disk.files))

  unfoldable pub delete_object : (key : String) → Disk → Result (Unit {0}) × Disk
  unfolding path_of delete_at
  delete_object key disk = delete_at (path_of key) disk
