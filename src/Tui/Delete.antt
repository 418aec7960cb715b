-- ===== src/Tui/Delete.antt =====
-- `DeleteModel` of internal/tui/delete.go, and `deleteCmd` of common.go.
use runbooks.Prelude.{
  ℕ, ◌+◌, String, ◌==◌, eqb, if◌then◌else◌, Bool, true, snoc, Option, none, some, List, [], ◌∷◌,
}
use runbooks.Program.{Go, ok, panic}
use runbooks.Program.Fallible.{◌>>=◌, wrap}

pub record DeleteModel : Type 0 where
  pub to_delete : List String
  pub deleted : List String
  pub final_error : Option String
  -- `tea.Quit` was returned
  pub quit : Bool

-- The messages that the model reacts to; the objects of a list are given by their names.
pub data DeleteMsg : Type 0 where
  deletion_list : List String → DeleteMsg
  deleted_msg : String → Option String → DeleteMsg
  key : String → DeleteMsg

abbrev pub count : {A : Type 0} → List A → ℕ
count [] = 0
count (x ∷ xs) = 1 + count xs

-- The test after a deletion.
abbrev pub quit_if_done : DeleteModel → DeleteModel
quit_if_done m = record m {
  quit = if eqb (count m.deleted) (count m.to_delete) then true else m.quit;
}

abbrev pub record_deletion : String → Option String → DeleteModel → DeleteModel
record_deletion name none m = record m { deleted = snoc m.deleted name }
record_deletion name (some e) m = record m { final_error = some e }

-- `Update`, with the names for which it returns a command to delete, in sequence.
unfoldable pub update : DeleteMsg → DeleteModel → DeleteModel × List String
update (deletion_list items) m = (record m { to_delete = items }, items)
update (deleted_msg name e) m = (quit_if_done (record_deletion name e m), [])
update (key s) m = (record m { quit = if s == "q" then true else m.quit }, [])

-- `deleteCmd`: the message for the error of the API server, if it answers with one.
unfoldable pub delete_cmd : String → Option String → DeleteMsg
delete_cmd name answer = deleted_msg name answer

-- The messages of the commands, one after the other as `tea.Sequence` runs them.
unfoldable pub run_deletions : List (String × Option String) → DeleteModel → DeleteModel
unfolding update delete_cmd
run_deletions [] m = m
run_deletions ((name, answer) ∷ rest) m = run_deletions rest (update (delete_cmd name answer) m).0

-- `getDeletionTargetsCmd`: the named object, or a panic where the scope has no name; `found` is the
-- answer of `Get`, `listed` the one of `List`.
unfoldable pub get_deletion_targets : String → Go String → Go (List String) → Go DeleteMsg
get_deletion_targets name found listed =
    if name == ""
    then (wrap "list" listed >>= λ items. panic "NOT IMPLEMENTED")
    else wrap "get" found >>= λ item. ok (deletion_list (item ∷ []))
