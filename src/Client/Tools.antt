-- ===== src/Client/Tools.antt =====
-- `getContainerTools` and `getContainerToolsRelease` of internal/client/sync.go.
use runbooks.Prelude.{
  String, ◌<>◌, ◌==◌, if◌then◌else◌, Bool, false, Option, none, some, List, [], ◌∷◌,
}
use runbooks.Prelude.Dict.{lookup}
use runbooks.Prelude.FilePath.{clean, join_path}
use runbooks.Program.{Go, ok, err, panic}
use runbooks.Controller.Env.{trim_space}
use runbooks.Sci.Kind.Disk.{Disk, Outcome, refused, broken, done, System, put}

-- A release's archive: the files that it yields, and the error that it ends in, if not at its end.
pub record Release : Type 0 where
  pub entries : List (String × String)
  pub ends_in : Option String

-- The machine: its system, what else it may refuse, and the releases that it downloads.
pub record Machine : Type 0 where
  pub system : System
  pub stat_error : Option String
  pub read_error : Option String
  -- `os.RemoveAll`: whether the removal reaches a path, and its error
  pub removes : String → Bool
  pub remove_error : Option String
  pub download : String → Go Release

pub record Written : Type 0 where
  pub disk : Disk
  pub error : Option String

abbrev pub failed : String → Option String → Disk → Written
failed what none disk = record { disk = disk; error = none }
failed what (some e) disk = record { disk = disk; error = some (what <> ": " <> e) }

-- The files that a removal leaves.
unfoldable pub remove_paths : (String → Bool) → Disk → Disk
remove_paths removes [] = []
remove_paths removes ((path, contents) ∷ rest) =
    let kept = remove_paths removes rest in if removes path then kept else (path, contents) ∷ kept

abbrev pub version_path : String → String
version_path dir = join_path dir "version.txt"

module _ (host : Machine) (version : String) where
  -- The version file is there and names the version.
  abbrev pub names_version : Option String → Bool
  names_version none = false
  names_version (some contents) = trim_space contents == version

  abbrev pub is_installed : String → Disk → Bool
  is_installed dir disk = names_version (lookup (clean (version_path dir)) disk)

  abbrev pub unless_failed : Written → (Disk → Written) → Option String → Written
  unless_failed w next none = next w.disk
  unless_failed w next (some e) = w

  abbrev pub then_next : Written → (Disk → Written) → Written
  then_next w next = unless_failed w next w.error

  abbrev pub entry_written : String → String → Outcome → Option String → Disk → Written
  entry_written dest contents (refused e) closing disk = record {
    disk = disk;
    error = some ("creating file: " <> e);
  }
  entry_written dest contents (broken part e) closing disk = record {
    disk = put dest part disk;
    error = some ("writing file from tar: " <> e);
  }
  entry_written dest contents done closing disk =
      failed "closing file" closing (put dest contents disk)

  -- One file of the archive: `os.OpenFile`, `io.Copy` and `Close`.
  unfoldable pub write_entry : String → String × String → Disk → Written
  write_entry dir (name, contents) disk =
      let dest = join_path dir name in
      entry_written dest contents (host.system.writing dest) (host.system.closing dest) disk

  unfoldable pub write_entries : String → List (String × String) → Option String → Disk → Written
  unfolding write_entry
  write_entries dir [] ends_in disk = failed "reading tar" ends_in disk
  write_entries dir (entry ∷ rest) ends_in disk =
      then_next (write_entry dir entry disk) (λ next. write_entries dir rest ends_in next)

  abbrev pub write_release : String → Go Release → Disk → Written
  write_release dir (ok release) disk = write_entries dir release.entries release.ends_in disk
  write_release dir (err e) disk = record { disk = disk; error = some e }
  write_release dir (panic e) disk = record { disk = disk; error = some e }

  abbrev prefixed : String → Option String → Option String
  prefixed what none = none
  prefixed what (some e) = some (what <> ": " <> e)

  abbrev pub wrapped : String → Written → Written
  wrapped what w = record { disk = w.disk; error = prefixed what w.error }

  -- `os.MkdirAll` of an architecture's directory, and its release.
  unfoldable pub install_arch : String → String → Disk → Written
  unfolding write_entries
  install_arch dir arch disk =
      then_next (failed "recreating directory" (host.system.mkdir_all (join_path dir arch)) disk)
        (λ next.
          wrapped "getting container-tools"
            (write_release (join_path dir arch) (host.download arch) next))

  abbrev pub version_written : String → Outcome → Disk → Written
  version_written dir (refused e) disk = record {
    disk = disk;
    error = some ("writing version file: " <> e);
  }
  version_written dir (broken part e) disk = record {
    disk = put (version_path dir) part disk;
    error = some ("writing version file: " <> e);
  }
  version_written dir done disk = record {
    disk = put (version_path dir) version disk;
    error = none;
  }

  -- `os.WriteFile` of the version
  unfoldable pub write_version : String → Disk → Written
  write_version dir disk = version_written dir (host.system.writing (version_path dir)) disk

  unfoldable pub install_second : String → Disk → Written
  unfolding install_arch write_version
  install_second dir disk = then_next (install_arch dir "arm64" disk) (write_version dir)

  unfoldable pub install_both : String → Disk → Written
  unfolding install_second
  install_both dir disk = then_next (install_arch dir "amd64" disk) (install_second dir)

  -- What follows the test of the version.
  unfoldable pub install : String → Disk → Written
  unfolding install_both remove_paths
  install dir disk =
      then_next
        (failed "removing existing files" host.remove_error (remove_paths host.removes disk))
        (install_both dir)

  abbrev pub read_version : String → Option String → Option String → Disk → Written
  read_version dir (some contents) (some e) disk = record {
    disk = disk;
    error = some ("reading version file: " <> e);
  }
  read_version dir (some contents) none disk =
      if trim_space contents == version
      then record { disk = disk; error = none }
      else install dir disk
  read_version dir none e disk = install dir disk

  abbrev pub after_stat : String → Option String → Disk → Written
  after_stat dir (some e) disk = record {
    disk = disk;
    error = some ("checking if version file exists: " <> e);
  }
  after_stat dir none disk =
      read_version dir (lookup (clean (version_path dir)) disk) host.read_error disk

  -- `getContainerTools`
  unfoldable pub get_container_tools : String → Disk → Written
  unfolding install
  get_container_tools dir disk = after_stat dir host.stat_error disk
