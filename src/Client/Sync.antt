-- ===== src/Client/Sync.antt =====
-- `SyncFilesFromNotebook` and `getContainerTools` of internal/client/sync.go.
use runbooks.Prelude.{
  String, ◌==◌, if◌then◌else◌, Bool, true, false, ◌||◌, Option, none, some, List, [], ◌∷◌, ◌++◌,
}
use runbooks.Prelude.Dict.{Dict, insert, erase}
use runbooks.Prelude.FilePath.{join_path}
use runbooks.Prelude.Rel.{rel}
use runbooks.Program.{Go, ok, err, panic}
use runbooks.Nbwatch.{Event}

-- An event, with what `cp.FromPod` copies and what `os.Remove` answers when the loop comes to it.
pub record SyncEvent : Type 0 where
  pub event : Event
  pub copy : Go String
  pub remove : Option String

-- A call of `progressF`.
pub record ProgressCall : Type 0 where
  pub file : String
  pub complete : Bool
  pub error : Option String

-- A line of the output of nbwatch: nothing where it is no JSON.
abbrev pub Line : Type 0
Line = Option SyncEvent

abbrev pub Synced : Type 0
Synced = Dict String × List ProgressCall

abbrev begun : String → ProgressCall
begun file = record { file = file; complete = false; error = none }

abbrev finished : String → ProgressCall
finished file = record { file = file; complete = true; error = none }

abbrev broken : String → String → ProgressCall
broken file e = record { file = file; complete = false; error = some e }

abbrev pub copied : String → String → Go String → Dict String → Synced
copied file local (ok contents) files =
    (insert local contents files, begun file ∷ finished file ∷ [])
copied file local (err e) files = (files, begun file ∷ broken file e ∷ [])
copied file local (panic e) files = (files, begun file ∷ broken file e ∷ [])

abbrev pub removed : String → String → Option String → Dict String → Synced
removed file local none files = (erase local files, begun file ∷ finished file ∷ [])
removed file local (some e) files = (files, begun file ∷ broken file e ∷ [])

abbrev pub is_write : String → Bool
is_write op = op == "WRITE" || op == "CREATE"

abbrev pub is_removal : String → Bool
is_removal op = op == "REMOVE" || op == "RENAME"

abbrev pub handle : SyncEvent → String → Dict String → Synced
handle e local files =
    if is_write e.event.op
    then copied e.event.path local e.copy files
    else if is_removal e.event.op
    then removed e.event.path local e.remove files
    else (files, [])

-- The local path of an event's file; nothing where `filepath.Rel` has an error.
abbrev pub under : String → Option String → Option String
under dir none = none
under dir (some s) = some (join_path dir s)

unfoldable pub local_path : String → String → Option String
local_path dir path = under dir (rel "/content" path)

abbrev pub handle_at : SyncEvent → Option String → Dict String → Synced
handle_at e none files = (files, [])
handle_at e (some local) files = handle e local files

abbrev pub sync_line : String → Line → Dict String → Synced
sync_line dir none files = (files, [])
sync_line dir (some e) files = handle_at e (local_path dir e.event.path) files

-- The loop over the lines.
unfoldable pub sync_files : String → List Line → Dict String → Synced
unfolding local_path
sync_files dir [] files = (files, [])
sync_files dir (line ∷ rest) files =
    let (after, calls) = sync_line dir line files in
    let (last, more) = sync_files dir rest after in (last, calls ++ more)
