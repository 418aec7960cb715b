-- ===== src/Nbwatch.antt =====
-- `watchLoop` of containertools/cmd/nbwatch/main.go: the events of a file system watcher, as they are
-- sent to the client.
use Prim.Native.Char.{code}
use runbooks.Prelude.{
  ℕ, ◌+◌, ◌%◌, ◌^◌, String, ◌≡◌, refl, eqb, if◌then◌else◌, Bool, false, ◌||◌, ◌&&◌, not, ◌==◌, List,
  [], ◌∷◌,
}
use runbooks.Prelude.FilePath.{split, join_path}

-- `Event`, `NBWatchEvent` of internal/client/sync.go
pub record Event : Type 0 where
  pub index : ℕ
  pub path : String
  pub op : String

-- What the watcher's two channels yield.
pub data Notice : Type 0 where
  changed : String → String → Notice
  watch_error : String → Notice

last_part : String → List String → String
last_part found [] = found
last_part found (s ∷ rest) = last_part (if s == "" then found else s) rest

-- `filepath.Base`
unfoldable pub base : String → String
unfolding last_part
base path =
    if path == ""
    then "."
    else if last_part "" (split b'/' path) == ""
    then "/"
    else last_part "" (split b'/' path)

abbrev pub is_hidden : String → Bool
is_hidden String.[] = false
is_hidden (String.◌∷◌ c s) = eqb (code c) b'.'

-- The loop, until a channel is closed; `i` is the bit pattern of an int64.
unfoldable pub watch_loop : ℕ → List Notice → List Event
unfolding base
watch_loop i [] = []
watch_loop i (watch_error e ∷ rest) = watch_loop i rest
watch_loop i (changed path op ∷ rest) =
    let j = (i + 1) % 2 ^ 64 in
    let more = watch_loop j rest in
    if is_hidden (base path) then more else record { index = j; path = path; op = op } ∷ more

-- An entry of `/content`, and whether it is a directory.
pub record DirEntry : Type 0 where
  pub name : String
  pub is_dir : Bool

abbrev pub watched_name : String → Bool
watched_name name =
    not (name == "data" || name == "model" || name == "artifacts") && not (is_hidden name)

-- `run`: the directories that are watched, beside `/content` itself.
unfoldable pub watched : List DirEntry → List String
watched [] = []
watched (e ∷ rest) =
    let more = watched rest in
    if e.is_dir && watched_name e.name then join_path "/content" e.name ∷ more else more

-- All directories that `run` adds to the watcher.
abbrev pub watches : List DirEntry → List String
watches entries = "/content" ∷ watched entries

base_of_path : base "/content/src/.main.py~" ≡ ".main.py~"
unfolding base split
base_of_path = refl
