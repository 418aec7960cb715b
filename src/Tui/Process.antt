-- ===== src/Tui/Process.antt =====
-- The parts of a screen of internal/tui that upload an object and wait for it: the update loops of
-- manifests.go, upload.go and readiness.go, with the commands that they return.
use runbooks.Prelude.{ℕ, ◌+◌, String, Option, none, some, List, [], ◌∷◌}
use runbooks.Program.{Go, ok, panic}
use runbooks.Client.Objects.{AnyObject}
use runbooks.Client.Tarball.{Tarball}
use runbooks.Tui.Commands.{Progress, in_progress, completed}
use runbooks.Tui.Manifests.{Selection, selected, selected_nil, none_found, select_manifest}

pub data Msg : Type 0 where
  manifests_init : Msg
  read_manifest : AnyObject → Msg
  manifests_found : List AnyObject → Msg
  manifest_selected : Option AnyObject → Msg
  upload_init : Msg
  file_tarred : Msg
  tarball_complete : Tarball → Msg
  applied_with_upload : AnyObject → Msg
  created_with_upload : AnyObject → Msg
  upload_progress : Msg
  tarball_uploaded : AnyObject → Msg
  readiness_init : Msg
  object_update : AnyObject → Msg
  object_ready : AnyObject → Msg
  key : String → Msg
  failed : String → Msg

pub data Cmd : Type 0 where
  send : Msg → Cmd
  find_manifests_cmd : Cmd
  prepare_tarball_cmd : Cmd
  apply_cmd : AnyObject → Tarball → Cmd
  create_cmd : AnyObject → Tarball → Cmd
  upload_cmd : AnyObject → Option Tarball → Cmd
  wait_ready_cmd : AnyObject → Cmd

-- The commands of a `tea.Batch`, each a `tea.Sequence`.
abbrev pub Batch : Type 0
Batch = List (List Cmd)

abbrev pub one : Cmd → Batch
one c = (c ∷ []) ∷ []

abbrev pub selection_msg : Selection → Msg
selection_msg (selected o) = manifest_selected (some o)
selection_msg selected_nil = manifest_selected none
selection_msg none_found = failed "No substratus Server kinds found in *.yaml"

-- `manifestsModel.Update`, of the field `reading`.
unfoldable pub manifests_update : List String → Msg → Progress → Progress × Batch
manifests_update kinds manifests_init reading = (in_progress, [])
manifests_update kinds (read_manifest o) reading =
    (completed, one (send (manifest_selected (some o))))
manifests_update kinds (manifests_found manifests) reading =
    (completed, one (send (selection_msg (select_manifest kinds manifests))))
manifests_update kinds _ reading = (reading, [])

pub data UploadMode : Type 0 where
  create_mode apply_mode : UploadMode

pub record UploadModel : Type 0 where
  pub mode : UploadMode
  pub object : Option AnyObject
  pub applying : Progress
  pub creating : Progress
  pub tarring : Progress
  pub uploading : Progress
  pub tarred_file_count : ℕ
  pub tarball : Option Tarball

-- The object is copied, which is a panic where it is nil.
abbrev pub on_tarball :
    UploadMode → Tarball → Option AnyObject → UploadModel → Go (UploadModel × Batch)
on_tarball mode tb none u = panic "invalid memory address or nil pointer dereference"
on_tarball apply_mode tb (some o) u = ok (record u { applying = in_progress }, one (apply_cmd o tb))
on_tarball create_mode tb (some o) u =
    ok (record u { creating = in_progress }, one (create_cmd o tb))

-- `uploadModel.Update`
unfoldable pub upload_update : Msg → UploadModel → Go (UploadModel × Batch)
upload_update upload_init u = ok (record u { tarring = in_progress }, [])
upload_update file_tarred u = ok (record u { tarred_file_count = u.tarred_file_count + 1 }, [])
upload_update (tarball_complete tb) u =
    on_tarball u.mode tb u.object (record u { tarring = completed; tarball = some tb })
upload_update (applied_with_upload o) u = ok (
  record u { object = some o; applying = completed; uploading = in_progress },
  one (upload_cmd o u.tarball),
)
upload_update (created_with_upload o) u = ok (
  record u { object = some o; creating = completed; uploading = in_progress },
  one (upload_cmd o u.tarball),
)
upload_update (tarball_uploaded o) u = ok (record u { uploading = completed; object = some o }, [])
upload_update _ u = ok (u, [])

-- `uploadModel.Init` and `readinessModel.Init`
abbrev pub start_upload : Batch
start_upload = (send upload_init ∷ prepare_tarball_cmd ∷ []) ∷ []

abbrev pub start_waiting : AnyObject → Batch
start_waiting o = (send readiness_init ∷ wait_ready_cmd o ∷ []) ∷ []

pub record ReadinessModel : Type 0 where
  pub object : Option AnyObject
  pub waiting : Progress

-- `readinessModel.Update`, which returns no command.
unfoldable pub readiness_update : Msg → ReadinessModel → ReadinessModel
readiness_update readiness_init r = record r { waiting = in_progress }
readiness_update (object_update o) r = record r { object = some o }
readiness_update (object_ready o) r = record { object = some o; waiting = completed }
readiness_update _ r = r
