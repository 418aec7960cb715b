-- ===== src/Controller/Build/Reconcile.antt =====
-- `BuildReconciler.Reconcile`.
use runbooks.Prelude.{ltb, String, ◌<>◌, ◌==◌, if◌then◌else◌, true, false, Option, none, some}
use runbooks.Prelude.Dict.{lookup}
use runbooks.Kube.{Key, Job}
use runbooks.Program.{
  Fetch, found, missing, fetch_error, Creation, created, exists, create_error, Deletion, deleted,
  gone, delete_error, written, write_error, get, update, get_job, create_job, delete_job, Program,
  ret, crash, ◌>>=◌, ◌>>◌, perform, fail, stop, or_stop,
}
use runbooks.Library.{Library}
use runbooks.Api.{
  Build, BuildGit, BuildUpload, Kind, Object, metadata, get_build, get_image, set_image,
}
use runbooks.Api.Reason
use runbooks.Cloud.{Cloud, common_of, object_built_image_url}
use runbooks.Controller.Status.{key_of}
use runbooks.Controller.ServiceAccounts.{container_builder, reconcile_service_account}
use runbooks.Controller.Shared.{save_status, set_condition, report}
use runbooks.Controller.Build.Jobs.{git_build_job, storage_build_job}
use runbooks.Controller.Build.Upload.{reconcile_upload_file}

-- `job.Annotations["image"]`
abbrev pub or_empty : Option String → String
or_empty none = ""
or_empty (some s) = s

unfoldable pub image_annotation : Job → String
unfolding lookup
image_annotation j = or_empty (lookup "image" j.metadata.annotations)

unfoldable pub create_missing : Job → Creation Job → Program Job
create_missing j (created stored) = ret stored
create_missing j exists = ret j
create_missing j (create_error e) = fail ("creating builder Job: " <> e)

-- The Job as it is in the cluster, where it is created if it is not there.
unfoldable pub ensure_job : Job → Fetch Job → Program Job
unfolding ◌>>=◌ create_missing
ensure_job j (found stored) = ret stored
ensure_job j missing = do answer ← perform (create_job j); create_missing j answer
ensure_job j (fetch_error e) = fail ("getting builder Job: " <> e)

unfoldable pub create_again : Creation Job → Program Job
create_again (created stored) = ret stored
create_again exists = fail "creating builder Job: already exists"
create_again (create_error e) = fail ("creating builder Job: " <> e)

unfoldable pub create_after : Job → Deletion → Program Job
unfolding ◌>>=◌ create_again
create_after j deleted = do answer ← perform (create_job j); create_again answer
create_after j gone = do answer ← perform (create_job j); create_again answer
create_after j (delete_error e) = fail ("deleting out of date builder Job: " <> e)

unfoldable pub recreate : Job → Program Job
unfolding ◌>>=◌ create_after
recreate j = do answer ← perform (delete_job j); create_after j answer

-- A Job for another image is deleted, and the server is asked to create the Job as it was read.
unfoldable pub renew_job : Job → String → Program Job
unfolding recreate
renew_job j image = if image_annotation j == image then ret j else recreate j

module _ (L : Library) (cloud : Cloud) (k : Kind) where
  unfoldable pub wait_for_job : Object k → Job → Program (Unit {0})
  unfolding ◌>>=◌
  wait_for_job o j = do
    stored ← save_status "updating status" k (
        report L k false Reason.built false Reason.job_not_complete
          ("Waiting for builder Job to complete: " <> j.metadata.name) o)
    stop

  -- The object as the server answers the update of its image.
  unfoldable pub image_updated : Job → Object k → Program (Unit {0})
  unfolding ◌>>=◌
  image_updated j o = do
    stored ← save_status "updating status" k (
        set_condition L k Reason.built true Reason.job_complete
          ("Builder Job completed: " <> j.metadata.name) o)
    ret tt

  unfoldable pub publish_image : Object k → Job → String → Program (Unit {0})
  unfolding ◌>>=◌ image_updated
  publish_image o j image = do
    answer ← perform (update k (set_image k image o))
    elim answer [
      | written stored ↦ image_updated j stored
      | write_error e ↦ fail ("updating container image: " <> e)
    ]

  unfoldable pub finish : Object k → String → Job → Program (Unit {0})
  unfolding wait_for_job publish_image
  finish o image j = if ltb j.succeeded 1 then wait_for_job o j else publish_image o j image

  -- From the Job that was constructed to the end.
  unfoldable pub run_job : Object k → Job → Program (Unit {0})
  unfolding ◌>>=◌ ensure_job
  run_job o built = if built.metadata.name == "" then stop else (do
    answer ← perform (get_job (key_of built.metadata))
    j ← ensure_job built answer
    image ← or_stop (object_built_image_url (common_of cloud) k o)
    current ← renew_job j image
    finish o image current)

  unfoldable pub upload_build : Object k → BuildUpload → Program (Unit {0})
  unfolding ◌>>=◌
  upload_build o spec = do
    uploaded ← reconcile_upload_file L cloud k o spec
    built ← or_stop (storage_build_job L cloud k uploaded)
    run_job uploaded built

  unfoldable pub git_build : Object k → BuildGit → Program (Unit {0})
  unfolding ◌>>=◌
  git_build o git = do built ← or_stop (git_build_job L cloud k o git); run_job o built

  -- With neither an upload nor git the Job is a nil pointer, whose name is then read.
  unfoldable pub start_from : Object k → Option BuildUpload → Option BuildGit → Program (Unit {0})
  unfolding upload_build git_build
  start_from o (some spec) git = upload_build o spec
  start_from o none (some git) = git_build o git
  start_from o none none = crash "invalid memory address or nil pointer dereference"

  unfoldable pub start_build : Object k → Build → Program (Unit {0})
  unfolding start_from
  start_build o b = start_from o b.upload b.git

  unfoldable pub with_account : Object k → Build → Program (Unit {0})
  unfolding ◌>>=◌
  with_account o b =
      reconcile_service_account cloud container_builder (metadata k o).namespace >> start_build o b

  unfoldable pub unless_built : Object k → Build → String → Program (Unit {0})
  unfolding with_account
  unless_built o b image = if get_image k o == image then stop else with_account o b

  unfoldable pub with_build : Object k → Option Build → Program (Unit {0})
  unfolding ◌>>=◌ unless_built
  with_build o none = stop
  with_build o (some b) = do
    image ← or_stop (object_built_image_url (common_of cloud) k o)
    unless_built o b image

  unfoldable pub reconcile_fetched : Fetch (Object k) → Program (Unit {0})
  unfolding with_build
  reconcile_fetched (found o) = with_build o (get_build k o)
  reconcile_fetched missing = stop
  reconcile_fetched (fetch_error e) = fail e

  unfoldable pub reconcile_build : Key → Program (Unit {0})
  unfolding ◌>>=◌ reconcile_fetched
  reconcile_build key = do answer ← perform (get k key); reconcile_fetched answer
