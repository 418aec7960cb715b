-- ===== src/Tui/Run.antt =====
-- `RunModel` of internal/tui/run.go, without the pods whose logs it shows.
use runbooks.Prelude.{
  String, ◌<>◌, ◌==◌, if◌then◌else◌, Bool, true, false, Option, none, some, List, [], ◌∷◌, ◌++◌,
}
use runbooks.Program.{Go, ok, panic}
use runbooks.Program.Fallible.{◌>>=◌}
use runbooks.Client.Objects.{AnyObject}
use runbooks.Tui.Commands.{
  Progress, not_started, in_progress, completed, Namespace, set_object_namespace,
}
use runbooks.Tui.Process.{
  Msg, manifests_init, manifest_selected, tarball_uploaded, key, failed, send, find_manifests_cmd,
  Batch, manifests_update, UploadModel, upload_update, start_upload, start_waiting, ReadinessModel,
  readiness_update,
}

pub record RunModel : Type 0 where
  pub namespace : Namespace
  pub object : Option AnyObject
  pub reading : Progress
  pub upload : UploadModel
  pub readiness : ReadinessModel
  pub final_error : Option String
  pub quit : Bool

-- `New`: the preferred kinds.
abbrev pub kinds : List String
kinds = "Model" ∷ "Dataset" ∷ []

abbrev pub is_completed : Progress → Bool
is_completed not_started = false
is_completed in_progress = false
is_completed completed = true

abbrev pub with_resource : AnyObject → Option String → RunModel → Batch → RunModel × Batch
with_resource o (some e) m cmds =
    (record m { object = some o; final_error = some ("resource client: " <> e) }, cmds)
with_resource o none m cmds = (
  record m { object = some o; upload = record (m.upload) { object = some o } },
  cmds ++ start_upload,
)

-- `client` is the error of `m.Client.Resource`, if it has one.
module _ (client : AnyObject → Option String) where
  -- The switch of `Update`.
  unfoldable pub own_update : Msg → RunModel → Batch → Go (RunModel × Batch)
  own_update (manifest_selected none) m cmds =
      panic "invalid memory address or nil pointer dereference"
  own_update (manifest_selected (some o)) m cmds =
      let named = set_object_namespace m.namespace o in
      ok (with_resource named (client named) m cmds)
  own_update (key s) m cmds = ok (record m { quit = if s == "q" then true else m.quit }, cmds)
  own_update (tarball_uploaded o) m cmds = ok (
    record m { object = some o; readiness = record (m.readiness) { object = some o } },
    cmds ++ start_waiting o,
  )
  own_update (failed e) m cmds = ok (record m { final_error = some e }, cmds)
  own_update _ m cmds = ok (m, cmds)

  -- Once the object is ready the program ends, and no further command is returned.
  abbrev pub unless_ready : Bool → Msg → RunModel → Batch → Go (RunModel × Batch)
  unless_ready true msg m cmds = ok (record m { quit = true }, [])
  unless_ready false msg m cmds = own_update msg m cmds

  abbrev pub with_parts :
      Msg → RunModel → Progress × Batch → UploadModel × Batch → Go (RunModel × Batch)
  with_parts msg m (reading, found) (upload, uploads) =
      let readiness = readiness_update msg m.readiness in
      unless_ready (is_completed readiness.waiting) msg
        (record m { reading = reading; upload = upload; readiness = readiness }) (found ++ uploads)

  -- `Update`
  unfoldable pub update : Msg → RunModel → Go (RunModel × Batch)
  unfolding manifests_update upload_update readiness_update own_update
  update msg m =
      upload_update msg m.upload >>= λ u. with_parts msg m (manifests_update kinds msg m.reading) u

-- `Init`
abbrev pub start : Batch
start = (send manifests_init ∷ find_manifests_cmd ∷ []) ∷ []
