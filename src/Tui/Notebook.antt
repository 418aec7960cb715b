-- ===== src/Tui/Notebook.antt =====
-- `NotebookModel` of internal/tui/notebook.go, without the pods whose logs it shows.
use runbooks.Prelude.{
  ℕ, String, ◌<>◌, ◌==◌, if◌then◌else◌, Bool, true, false, Option, none, some, List, [], ◌∷◌, ◌++◌,
  map,
}
use runbooks.Kube.{Key}
use runbooks.Program.{Go, ok, err, panic}
use runbooks.Program.Fallible.{◌>>=◌}
use runbooks.Api.{notebook, Notebook}
use runbooks.Client.Objects.{AnyObject, known}
use runbooks.Client.Notebook.{notebook_for_object, pod_for_notebook}
use runbooks.Tui.Commands.{Progress, in_progress, Namespace, set_object_namespace}
use runbooks.Tui.Process.{
  Msg, manifest_selected, tarball_uploaded, object_ready, key, failed, Cmd, Batch, manifests_update,
  UploadModel, upload_update, start_upload, start_waiting, ReadinessModel, readiness_update,
}

pub data NotebookMsg : Type 0 where
  part : Msg → NotebookMsg
  suspended_msg : Option String → NotebookMsg
  deleted_msg : Option String → NotebookMsg
  file_sync : String → Bool → Option String → NotebookMsg
  port_forward_ready : NotebookMsg
  local_url : String → NotebookMsg

pub data NotebookCmd : Type 0 where
  part_cmd : List Cmd → NotebookCmd
  suspend_cmd : Option Notebook → NotebookCmd
  delete_notebook_cmd : Option Notebook → NotebookCmd
  cleanup_and_quit_cmd : NotebookCmd
  sync_files_cmd : Notebook → NotebookCmd
  port_forward_cmd : Key → ℕ → ℕ → NotebookCmd
  open_in_browser_cmd : NotebookCmd

pub record NotebookModel : Type 0 where
  pub namespace : Namespace
  pub notebook : Option Notebook
  pub reading : Progress
  pub upload : UploadModel
  pub readiness : ReadinessModel
  pub syncing_files : Progress
  pub current_syncing_file : String
  pub last_sync_failure : Option String
  pub local_url : String
  pub quitting : Bool
  pub goodbye : String
  pub final_error : Option String

abbrev pub NotebookStep : Type 0
NotebookStep = NotebookModel × List NotebookCmd

-- `New`: the preferred kinds.
abbrev pub notebook_kinds : List String
notebook_kinds = "Notebook" ∷ "Model" ∷ "Dataset" ∷ []

abbrev pub part_cmds : Batch → List NotebookCmd
part_cmds batch = map part_cmd batch

-- An error that there is replaces the final error.
abbrev pub or_error : Option String → String → Option String → Option String
or_error none prefix old = old
or_error (some e) prefix old = some (prefix <> e)

-- The type assertion `.(*apiv1.Notebook)`
abbrev pub as_notebook : AnyObject → Go Notebook
as_notebook (known notebook n) = ok n
as_notebook o = panic "interface conversion"

abbrev pub with_goodbye : Option String → String → NotebookModel → NotebookModel
with_goodbye none goodbye m = record m { goodbye = goodbye }
with_goodbye (some e) goodbye m = record m { final_error = some e }

-- Go on only where there is no final error.
abbrev pub esc_key : Option String → NotebookModel → NotebookModel
esc_key none m = record m { quitting = false }
esc_key (some e) m = m

abbrev pub quitting_key : String → NotebookModel → List NotebookCmd → NotebookStep
quitting_key s m cmds =
    if s == "esc"
    then (esc_key m.final_error m, cmds)
    else if s == "s"
    then (m, cmds ++ (suspend_cmd m.notebook ∷ []))
    else if s == "d"
    then (m, cmds ++ (delete_notebook_cmd m.notebook ∷ []))
    else (m, cmds)

abbrev pub on_key : Bool → String → NotebookModel → List NotebookCmd → NotebookStep
on_key true s m cmds = quitting_key s m cmds
on_key false s m cmds = (if s == "q" then record m { quitting = true } else m, cmds)

-- The fields of a nil notebook are set after an error, which is a panic.
abbrev pub with_notebook :
    (AnyObject → Option String) → Go Notebook → NotebookModel → List NotebookCmd → Go NotebookStep
with_notebook client (ok n) m cmds =
    let nb = record n { spec = record (n.spec) { suspend = some false } } in
    ok (
      record m {
        notebook = some nb;
        final_error = or_error (client (known notebook nb)) "resource client: " m.final_error;
        upload = record (m.upload) { object = some (known notebook nb) };
      },
      cmds ++ part_cmds start_upload,
    )
with_notebook client (err e) m cmds = panic "invalid memory address or nil pointer dereference"
with_notebook client (panic e) m cmds = panic e

abbrev pub on_uploaded : Go Notebook → NotebookModel → List NotebookCmd → Go NotebookStep
on_uploaded found m cmds = found >>= λ n. ok (
  record m {
    notebook = some n;
    readiness = record (m.readiness) { object = some (known notebook n) };
  },
  cmds ++ part_cmds (start_waiting (known notebook n)),
)

abbrev pub on_ready : Go Notebook → NotebookModel → List NotebookCmd → Go NotebookStep
on_ready found m cmds = found >>= λ n. ok (
  record m { notebook = some n; syncing_files = in_progress },
  cmds ++ (sync_files_cmd n ∷ port_forward_cmd (pod_for_notebook n) 8888 8888 ∷ []),
)

-- `client` is the error of `m.Client.Resource`, if it has one.
module _ (client : AnyObject → Option String) where
  -- The switch of `Update` on the messages that the parts also handle.
  unfoldable pub own_msg : Msg → NotebookModel → List NotebookCmd → Go NotebookStep
  unfolding pod_for_notebook
  own_msg (manifest_selected none) m cmds =
      panic "invalid memory address or nil pointer dereference"
  own_msg (manifest_selected (some o)) m cmds =
      with_notebook client (notebook_for_object (set_object_namespace m.namespace o)) m cmds
  own_msg (key s) m cmds = ok (on_key m.quitting s m cmds)
  own_msg (tarball_uploaded o) m cmds = on_uploaded (as_notebook o) m cmds
  own_msg (object_ready o) m cmds = on_ready (as_notebook o) m cmds
  own_msg (failed e) m cmds = ok (record m { final_error = some e; quitting = true }, cmds)
  own_msg _ m cmds = ok (m, cmds)

  abbrev pub with_notebook_parts :
      Msg → NotebookModel → Progress × Batch → UploadModel × Batch → Go NotebookStep
  with_notebook_parts msg m (reading, found) (upload, uploads) =
      own_msg msg
        (record m {
          reading = reading;
          upload = upload;
          readiness = readiness_update msg m.readiness;
        })
        (part_cmds found ++ part_cmds uploads)

  -- `Update`
  unfoldable pub notebook_update : NotebookMsg → NotebookModel → Go NotebookStep
  unfolding manifests_update upload_update readiness_update own_msg
  notebook_update (part msg) m = upload_update msg m.upload >>= λ u.
      with_notebook_parts msg m (manifests_update notebook_kinds msg m.reading) u
  notebook_update (suspended_msg e) m =
      ok (with_goodbye e "Notebook suspended." m, cleanup_and_quit_cmd ∷ [])
  notebook_update (deleted_msg e) m =
      ok (with_goodbye e "Notebook deleted." m, cleanup_and_quit_cmd ∷ [])
  notebook_update (file_sync file complete e) m =
      ok (
        record m { current_syncing_file = if complete then "" else file; last_sync_failure = e },
        [],
      )
  notebook_update port_forward_ready m = ok (m, open_in_browser_cmd ∷ [])
  notebook_update (local_url url) m = ok (record m { local_url = url }, [])
