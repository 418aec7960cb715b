-- ===== src/Tui/Sound.antt =====
-- What a message leaves behind on the screen of internal/tui/run.go: the commands that it starts are
-- allowed by what has been seen, and so is what it shows.
use runbooks.Prelude.{String, ◌≡◌, refl, Bool, true, false, Option, none, some, ◌++◌}
use runbooks.Program.IfOk.{IfOk, >>=-IfOk}
use runbooks.Client.Objects.{AnyObject}
use runbooks.Client.Tarball.{Tarball}
use runbooks.Tui.Commands.{Progress, not_started, in_progress, completed, set_object_namespace}
use runbooks.Tui.Manifests.{Selection, selected, selected_nil, none_found, select_manifest}
use runbooks.Tui.Process.{
  Msg, manifests_init, read_manifest, manifests_found, manifest_selected, upload_init, file_tarred,
  tarball_complete, applied_with_upload, created_with_upload, upload_progress, tarball_uploaded,
  readiness_init, object_update, object_ready, key, failed, Batch, selection_msg, manifests_update,
  UploadMode, create_mode, apply_mode, UploadModel, on_tarball, upload_update, ReadinessModel,
  readiness_update,
}
use runbooks.Tui.Run.{RunModel, kinds, with_resource, own_update, unless_ready, with_parts, update}
use runbooks.Tui.Seen.{Seen, mark, Plain, BatchAllowed, BatchAllowed-append}

-- An object is shown as ready only once it was seen to be.
abbrev pub Truthful : Seen → ReadinessModel → Type 0
Truthful s r = r.waiting ≡ completed → s.ready ≡ true

abbrev pub Sound : Seen → RunModel × Batch → Type 0
Sound s (m, cmds) = Truthful s m.readiness × BatchAllowed s cmds

not_completed : in_progress ≡ completed → ⊥
not_completed all = cc

pub not_begun : not_started ≡ completed → ⊥
not_begun all = cc

selection_msg-Plain : (s : Selection) → Plain (selection_msg s)
selection_msg-Plain (selected o) = tt
selection_msg-Plain selected_nil = tt
selection_msg-Plain none_found = tt

manifests_update-Allowed :
    (s : Seen) (msg : Msg) (reading : Progress)
    → BatchAllowed (mark msg s) (manifests_update kinds msg reading).1
unfolding manifests_update
manifests_update-Allowed s manifests_init reading = tt
manifests_update-Allowed s (read_manifest o) reading = ((tt, tt), tt)
manifests_update-Allowed s (manifests_found ms) reading =
    ((selection_msg-Plain (select_manifest kinds ms), tt), tt)
manifests_update-Allowed s (manifest_selected o) reading = tt
manifests_update-Allowed s upload_init reading = tt
manifests_update-Allowed s file_tarred reading = tt
manifests_update-Allowed s (tarball_complete tb) reading = tt
manifests_update-Allowed s (applied_with_upload o) reading = tt
manifests_update-Allowed s (created_with_upload o) reading = tt
manifests_update-Allowed s upload_progress reading = tt
manifests_update-Allowed s (tarball_uploaded o) reading = tt
manifests_update-Allowed s readiness_init reading = tt
manifests_update-Allowed s (object_update o) reading = tt
manifests_update-Allowed s (object_ready o) reading = tt
manifests_update-Allowed s (key k) reading = tt
manifests_update-Allowed s (failed e) reading = tt

on_tarball-Allowed :
    (s : Seen) (mode : UploadMode) (tb : Tarball) (o : Option AnyObject) (u : UploadModel)
    → s.packed ≡ true
    → IfOk (λ (step : UploadModel × Batch). BatchAllowed s step.1) (on_tarball mode tb o u)
on_tarball-Allowed s mode tb none u packed = tt
on_tarball-Allowed s apply_mode tb (some o) u packed = ((packed, tt), tt)
on_tarball-Allowed s create_mode tb (some o) u packed = ((packed, tt), tt)

upload_update-Allowed :
    (s : Seen) (msg : Msg) (u : UploadModel)
    → IfOk (λ (step : UploadModel × Batch). BatchAllowed (mark msg s) step.1) (upload_update msg u)
unfolding upload_update
upload_update-Allowed s manifests_init u = tt
upload_update-Allowed s (read_manifest o) u = tt
upload_update-Allowed s (manifests_found ms) u = tt
upload_update-Allowed s (manifest_selected o) u = tt
upload_update-Allowed s upload_init u = tt
upload_update-Allowed s file_tarred u = tt
upload_update-Allowed s (tarball_complete tb) u =
    on_tarball-Allowed (mark (tarball_complete tb) s) u.mode tb u.object
      (record u { tarring = completed; tarball = some tb }) refl
upload_update-Allowed s (applied_with_upload o) u = ((refl, tt), tt)
upload_update-Allowed s (created_with_upload o) u = ((refl, tt), tt)
upload_update-Allowed s upload_progress u = tt
upload_update-Allowed s (tarball_uploaded o) u = tt
upload_update-Allowed s readiness_init u = tt
upload_update-Allowed s (object_update o) u = tt
upload_update-Allowed s (object_ready o) u = tt
upload_update-Allowed s (key k) u = tt
upload_update-Allowed s (failed e) u = tt

readiness_update-Truthful :
    (s : Seen) (msg : Msg) (r : ReadinessModel)
    → Truthful s r
    → Truthful (mark msg s) (readiness_update msg r)
unfolding readiness_update
readiness_update-Truthful s manifests_init r truthful = truthful
readiness_update-Truthful s (read_manifest o) r truthful = truthful
readiness_update-Truthful s (manifests_found ms) r truthful = truthful
readiness_update-Truthful s (manifest_selected o) r truthful = truthful
readiness_update-Truthful s upload_init r truthful = truthful
readiness_update-Truthful s file_tarred r truthful = truthful
readiness_update-Truthful s (tarball_complete tb) r truthful = truthful
readiness_update-Truthful s (applied_with_upload o) r truthful = truthful
readiness_update-Truthful s (created_with_upload o) r truthful = truthful
readiness_update-Truthful s upload_progress r truthful = truthful
readiness_update-Truthful s (tarball_uploaded o) r truthful = truthful
readiness_update-Truthful s readiness_init r truthful = λ all. absurd (not_completed all)
readiness_update-Truthful s (object_update o) r truthful = truthful
readiness_update-Truthful s (object_ready o) r truthful = λ _. refl
readiness_update-Truthful s (key k) r truthful = truthful
readiness_update-Truthful s (failed e) r truthful = truthful

module _ (client : AnyObject → Option String) where
  with_resource-Sound :
      (s : Seen) (o : AnyObject) (e : Option String) (m : RunModel) (cmds : Batch)
      → Sound s (m, cmds)
      → Sound s (with_resource o e m cmds)
  with_resource-Sound s o (some e) m cmds (truthful, allowed) = (truthful, allowed)
  with_resource-Sound s o none m cmds (truthful, allowed) =
      (truthful, BatchAllowed-append s cmds _ allowed ((tt, (tt, tt)), tt))

  own_update-Sound :
      (s : Seen) (msg : Msg) (m : RunModel) (cmds : Batch)
      → Sound (mark msg s) (m, cmds)
      → IfOk (Sound (mark msg s)) (own_update client msg m cmds)
  unfolding own_update
  own_update-Sound s manifests_init m cmds sound = sound
  own_update-Sound s (read_manifest o) m cmds sound = sound
  own_update-Sound s (manifests_found ms) m cmds sound = sound
  own_update-Sound s (manifest_selected none) m cmds sound = tt
  own_update-Sound s (manifest_selected (some o)) m cmds sound =
      with_resource-Sound s (set_object_namespace m.namespace o)
        (client (set_object_namespace m.namespace o)) m cmds sound
  own_update-Sound s upload_init m cmds sound = sound
  own_update-Sound s file_tarred m cmds sound = sound
  own_update-Sound s (tarball_complete tb) m cmds sound = sound
  own_update-Sound s (applied_with_upload o) m cmds sound = sound
  own_update-Sound s (created_with_upload o) m cmds sound = sound
  own_update-Sound s upload_progress m cmds sound = sound
  own_update-Sound s (tarball_uploaded o) m cmds (truthful, allowed) = (
    truthful,
    BatchAllowed-append (mark (tarball_uploaded o) s) cmds _ allowed ((tt, (refl, tt)), tt),
  )
  own_update-Sound s readiness_init m cmds sound = sound
  own_update-Sound s (object_update o) m cmds sound = sound
  own_update-Sound s (object_ready o) m cmds sound = sound
  own_update-Sound s (key k) m cmds sound = sound
  own_update-Sound s (failed e) m cmds sound = sound

  unless_ready-Sound :
      (shown : Bool) (s : Seen) (msg : Msg) (m : RunModel) (cmds : Batch)
      → Sound (mark msg s) (m, cmds)
      → IfOk (Sound (mark msg s)) (unless_ready client shown msg m cmds)
  unless_ready-Sound true s msg m cmds (truthful, allowed) = (truthful, tt)
  unless_ready-Sound false s msg m cmds sound = own_update-Sound s msg m cmds sound

  with_parts-Sound :
      (s : Seen) (msg : Msg) (m : RunModel) (found : Progress × Batch) (up : UploadModel × Batch)
      → Truthful s m.readiness
      → BatchAllowed (mark msg s) found.1
      → BatchAllowed (mark msg s) up.1
      → IfOk (Sound (mark msg s)) (with_parts client msg m found up)
  with_parts-Sound s msg m (reading, found) (upload, uploads) truthful first second =
      unless_ready-Sound _ s msg _ (found ++ uploads) (
        readiness_update-Truthful s msg m.readiness truthful,
        BatchAllowed-append (mark msg s) found uploads first second,
      )

  pub update-Sound :
      (s : Seen) (msg : Msg) (m : RunModel)
      → Truthful s m.readiness
      → IfOk (Sound (mark msg s)) (update client msg m)
  unfolding update
  update-Sound s msg m truthful =
      >>=-IfOk (λ (step : UploadModel × Batch). BatchAllowed (mark msg s) step.1)
        (Sound (mark msg s)) (upload_update msg m.upload) _ (upload_update-Allowed s msg m.upload)
        (λ u uploads.
          with_parts-Sound s msg m _ u truthful (manifests_update-Allowed s msg m.reading) uploads)
