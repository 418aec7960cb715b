-- ===== src/Client/Mirror.antt =====
-- The local directory follows the notebook's: nbwatch and the file sync of internal/client/sync.go
-- together, where each event is handled before the next change.
use runbooks.Prelude.{
  ℕ, ◌+◌, ◌%◌, ◌^◌, String, ◌≡◌, ◌==◌, if◌then◌else◌, false, Option, none, some, List, [], ◌∷◌, map,
}
use runbooks.Prelude.Dict.{Dict, lookup, insert, erase}
use runbooks.Program.{Go, ok, err}
use runbooks.Nbwatch.{Event, Notice, changed, watch_error, watch_loop, DirEntry}
use runbooks.Client.Reported.{reports}
use runbooks.Client.Sync.{Line, local_path, sync_files}

-- What happens in the notebook's container.
pub data Change : Type 0 where
  wrote : String → String → Change
  deleted : String → Change

abbrev pub changed_path : Change → String
changed_path (wrote path contents) = path
changed_path (deleted path) = path

abbrev pub in_pod : Change → Dict String → Dict String
in_pod (wrote path contents) pod = insert path contents pod
in_pod (deleted path) pod = erase path pod

abbrev pub notice : Change → Notice
notice (wrote path contents) = changed path "WRITE"
notice (deleted path) = changed path "REMOVE"

abbrev copy_of : Option String → Go String
copy_of none = err "no such file"
copy_of (some contents) = ok contents

-- The event's line, when the client handles it: it copies what the container has, and can remove.
abbrev line_for : Dict String → Event → Line
line_for pod e = some (record { event = e; copy = copy_of (lookup e.path pod); remove = none })

abbrev pub Both : Type 0
Both = Dict String × Dict String

-- fsnotify as it is documented: a directory is watched for the files in it, and not recursively. A
-- change elsewhere is not seen.
abbrev pub NonRecursive : List DirEntry → (Change → List Notice) → Type 0
NonRecursive entries notify =
    (c : Change) → notify c ≡ (if reports entries (changed_path c) then notice c ∷ [] else [])

-- One change, what the watcher yields, and the client's answer to it.
unfoldable pub follow_one : String → List Notice → ℕ → Change → Both → Both
follow_one dir notices i c (pod, local) =
    (in_pod c pod, (sync_files dir (map (line_for (in_pod c pod)) (watch_loop i notices)) local).0)

-- The index after the watcher's events.
abbrev advance : ℕ → List Notice → ℕ
advance i [] = i
advance i (watch_error e ∷ rest) = advance i rest
advance i (changed path op ∷ rest) = advance ((i + 1) % 2 ^ 64) rest

unfoldable pub follow : String → (Change → List Notice) → ℕ → List Change → Both → Both
unfolding follow_one
follow dir notify i [] both = both
follow dir notify i (c ∷ rest) both =
    follow dir notify (advance i (notify c)) rest (follow_one dir (notify c) i c both)

-- The change is of the file `p`, whose local path is `l`, or of a file that has another local path.
abbrev pub KeepsApart : String → String → String → Option String → Type 0
KeepsApart p l q none = (q == p) ≡ false
KeepsApart p l q (some m) = (m == l) ≡ (q == p)

abbrev pub AllApart : String → String → String → List Change → Type 0
AllApart dir p l [] = Unit
AllApart dir p l (c ∷ rest) =
    KeepsApart p l (changed_path c) (local_path dir (changed_path c)) × AllApart dir p l rest

abbrev Agree : String → String → Both → Type 0
Agree p l (pod, local) = lookup l local ≡ lookup p pod
