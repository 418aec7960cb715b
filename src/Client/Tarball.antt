-- ===== src/Client/Tarball.antt =====
-- `PrepareImageTarball`, `fileExists`, `calculateMD5` and `tarGz` of internal/client/upload.go.
use runbooks.Prelude.{
  ℕ, String, ◌<>◌, ◌==◌, Bool, true, false, if◌then◌else◌, Option, none, some, List, [], ◌∷◌, ◌++◌,
}
use runbooks.Prelude.Text.{trim_slash}
use runbooks.Prelude.FilePath.{clean, join_path}
use runbooks.Prelude.Rel.{rel}
use runbooks.Prelude.Hex.{hex_encode}
use runbooks.Program.{Go, ok, err}
use runbooks.Program.Fallible.{◌>>=◌, wrap}

pub record Tarball : Type 0 where
  pub temp_dir : String
  pub path : String
  pub md5_checksum : String

-- `os.FileMode`: a socket is what `tar.FileInfoHeader` refuses.
pub data FileMode : Type 0 where
  regular directory socket other : FileMode

-- A call of the function that `filepath.Walk` is given.
pub record Visit : Type 0 where
  pub path : String
  pub mode : FileMode
  pub error : Option String

-- An entry of the archive: a directory has no contents.
pub record Entry : Type 0 where
  pub name : String
  pub contents : Option String

-- `os.Stat`
pub data Stat : Type 0 where
  stat_dir : Stat
  stat_file : Stat
  stat_missing : Stat
  stat_error : String → Stat

-- The machine that the client runs on, and the archive formats and the hash of Go's library.
pub record Machine : Type 0 where
  pub stat : String → Stat
  pub mkdir_temp : Go String
  pub walk : String → List Visit
  pub open_file : String → Go String
  -- the file that `tarGz` writes, or the error of writing it
  pub pack : String → List Entry → Go String
  pub md5 : String → List ℕ

-- `filepath.Join(name)`
abbrev joined_name : String → String
joined_name s = if s == "" then "" else clean s

module _ (host : Machine) where
  -- `fileExists`
  unfoldable pub file_exists : String → Go Bool
  file_exists name = elim (host.stat name) [
    | stat_dir ↦ ok false
    | stat_file ↦ ok true
    | stat_missing ↦ ok false
    | stat_error e ↦ err e
  ]

  abbrev entry_of : String → String → FileMode → Go (List Entry)
  entry_of path name regular =
      wrap "failed to open file during compression" (host.open_file path) >>= λ contents.
      ok (record { name = name; contents = some contents } ∷ [])
  entry_of path name directory = ok (record { name = name; contents = none } ∷ [])
  entry_of path name socket = err "failed to read file headers: archive/tar: sockets not supported"
  entry_of path name other = ok []

  abbrev relative_entry : String → FileMode → Option String → Go (List Entry)
  relative_entry path mode none = err "failed to determine relative path"
  relative_entry path mode (some name) = entry_of path (joined_name (trim_slash name)) mode

  abbrev visit_file : String → String → FileMode → Go (List Entry)
  visit_file src path mode = if path == src then ok [] else relative_entry path mode (rel src path)

  abbrev visit_unless : String → Visit → Option String → Go (List Entry)
  visit_unless src v (some e) = err ("failed to walk the tempdir path: " <> e)
  visit_unless src v none = visit_file src v.path v.mode

  -- The function that `tarGz` passes to `filepath.Walk`: the entries that it writes.
  unfoldable pub visit : String → Visit → Go (List Entry)
  visit src v = visit_unless src v v.error

  unfoldable pub tar_entries : String → List Visit → Go (List Entry)
  unfolding visit
  tar_entries src [] = ok []
  tar_entries src (v ∷ rest) =
      visit src v >>= λ first. tar_entries src rest >>= λ more. ok (first ++ more)

  -- `tarGz`: the contents of the archive.
  unfoldable pub tar_gz : String → String → Go String
  unfolding tar_entries
  tar_gz src dst = tar_entries src (host.walk src) >>= host.pack dst

  -- `calculateMD5`, of a file's contents
  abbrev pub calculate_md5 : String → String
  calculate_md5 contents = hex_encode (host.md5 contents)

  abbrev require_dockerfile : String → Bool → Go (Unit {0})
  require_dockerfile path exists =
      if exists then ok tt else err ("path does not contain Dockerfile: " <> path)

  -- `PrepareImageTarball`
  unfoldable pub prepare_image_tarball : String → Go Tarball
  unfolding file_exists tar_gz
  prepare_image_tarball build_path =
      wrap "checking if Dockerfile exists" (file_exists (join_path build_path "Dockerfile"))
      >>= require_dockerfile build_path
      >>= λ _. wrap "failed to create temp dir" host.mkdir_temp >>= λ dir.
          let path = join_path dir "/archive.tar.gz" in
          wrap "failed to create a tar.gz of the directory" (tar_gz build_path path) >>= λ contents.
          ok (record { temp_dir = dir; path = path; md5_checksum = calculate_md5 contents })
