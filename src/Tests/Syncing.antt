-- ===== src/Tests/Syncing.antt =====
-- The theorems on the sync of a notebook's files, on concrete changes and releases.
use runbooks.Prelude.{String, ◌≡◌, refl, if◌then◌else◌, none, true, false, List, [], ◌∷◌}
use runbooks.Prelude.Dict.{Dict, lookup}
use runbooks.Prelude.FilePath.{clean, join_path, dir}
use runbooks.Program.{ok}
use runbooks.Controller.Env.{trim_space}
use runbooks.Nbwatch.{Notice, DirEntry, watched}
use runbooks.Sci.Kind.Disk.{Disk, done}
use runbooks.Client.Reported.{reports}
use runbooks.Client.Mirror.{Change, wrote, deleted, changed_path, notice}
use runbooks.Client.Tools.{Machine, Release, is_installed, get_container_tools}
use runbooks.Client.Installed.{has_none, get_container_tools-installed}

abbrev changes : List Change
changes =
    wrote "/content/src/main.py" "1"
    ∷ wrote "/content/data/x.csv" "0"
    ∷ deleted "/content/old.py"
    ∷ wrote "/content/src/main.py" "2"
    ∷ []

abbrev before_pod : Dict String
before_pod = ("/content/old.py", "0") ∷ []

abbrev entries : List DirEntry
entries =
    record { name = "src"; is_dir = true }
    ∷ record { name = "data"; is_dir = true }
    ∷ record { name = ".git"; is_dir = true }
    ∷ []

abbrev watcher : Change → List Notice
watcher c = if reports entries (changed_path c) then notice c ∷ [] else []

-- What lies in a directory that is left out, or deeper, is not followed.
not_followed :
    (reports entries "/content/data/x.csv" ≡ false)
    × (reports entries "/content/.git/config" ≡ false)
    × (reports entries "/content/src/deep/x.py" ≡ false)
unfolding reports watched dir clean join_path
not_followed = (refl, refl, refl)

abbrev release : Release
release = record { entries = ("nbwatch", "binary") ∷ []; ends_in = none }

abbrev host : Machine
host = record {
  system = record { mkdir_all = λ path. none; writing = λ path. done; closing = λ path. none };
  stat_error = none;
  read_error = none;
  removes = λ path. true;
  remove_error = none;
  download = λ arch. ok release;
}

abbrev old_tools : Disk
old_tools = ("/cache/version.txt", "0.1.0") ∷ []

get_container_tools-installed_example :
    is_installed host "0.2.0" "/cache" (get_container_tools host "0.2.0" "/cache" old_tools).disk
    ≡ has_none (get_container_tools host "0.2.0" "/cache" old_tools).error
unfolding clean join_path trim_space lookup
get_container_tools-installed_example =
    get_container_tools-installed host "0.2.0" "/cache" old_tools (refl, tt) (refl, tt) tt refl refl
