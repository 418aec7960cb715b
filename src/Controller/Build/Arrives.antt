-- ===== src/Controller/Build/Arrives.antt =====
-- The build controller in a cluster where the builder Job for the image has succeeded.
use mathlib.Core.Path.{subst}
use runbooks.Prelude.{
  sym, String, ◌≡◌, refl, ◌==◌, ◌∙◌, true, false, ltb, Option, none, some, [], ◌∷◌,
}
use runbooks.Kube.{Key, Job}
use runbooks.Program.{
  ok, found, written, get, get_job, update, update_status, History, Env, Outcome, finished, halted,
  panicked, run,
}
use runbooks.Program.Reaches.{
  Reaches, ends, step, then-Reaches, else-Reaches, run-Reaches, >>=-Reaches, or_stop-Reaches,
}
use runbooks.Library.{Library}
use runbooks.Api.{
  Build, BuildGit, BuildUpload, UploadStatus, Kind, model, dataset, server, notebook, Object,
  get_build, get_image, set_image,
}
use runbooks.Cloud.{Cloud, BucketUrl, common_of, object_built_image_url, object_artifact_url}
use runbooks.Controller.Status.{key_of}
use runbooks.Controller.Willing.{Willing, save_status-Reaches, account-Reaches}
use runbooks.Controller.Build.Jobs.{git_build_job, storage_build_job}
use runbooks.Controller.Build.Upload.{mark_found}
use runbooks.Controller.Build.Uploads.{Holds, found_image_url, upload-Reaches}
use runbooks.Controller.Build.Reconcile.{
  image_annotation, ensure_job, renew_job, image_updated, publish_image, finish, run_job,
  upload_build, git_build, start_from, start_build, with_account, unless_built, with_build,
  reconcile_fetched, reconcile_build,
}

-- Every Job that is read is for the image, and has succeeded.
abbrev pub Builds : Env → String → Type 0
Builds e image =
    (h : History) (key : Key)
    → (j : Job) × (e h (get_job key) ≡ found j)
      × ((image_annotation j == image) ≡ true)
      × (ltb j.succeeded 1 ≡ false)

-- The run finished, and its last two calls set the object's image and save its status.
abbrev pub Imaged : (k : Kind) → String → {A : Type 0} → History → Outcome A → Type 0
Imaged k image h (finished a) =
    (o p : Object k) × (g : History) × (h
      ≡ (update_status k p, written p) ∷ (update k o, written o) ∷ g)
    × (get_image k o ≡ image)
Imaged k image h (halted x) = ⊥
Imaged k image h (panicked s) = ⊥

get_image-set_image :
    (k : Kind) (image : String) (o : Object k) → get_image k (set_image k image o) ≡ image
get_image-set_image model image o = refl
get_image-set_image dataset image o = refl
get_image-set_image server image o = refl
get_image-set_image notebook image o = refl

module _ (L : Library) (cloud : Cloud) (k : Kind) {e : Env} (willing : Willing e) (image : String)
    (builds : Builds e image) where
  publish_image-Reaches :
      {h : History} (o : Object k) (j : Job)
      → Reaches e (Imaged k image) h (publish_image L cloud k o j image)
  unfolding publish_image image_updated
  publish_image-Reaches o j = step (written (set_image k image o)) (willing.updates _ k _) (
      >>=-Reaches
        (save_status-Reaches willing k _ _ (ends (_, _, _, refl, get_image-set_image k image o))))

  run_job-Reaches :
      {h : History} (o : Object k) (j : Job)
      → (j.metadata.name == "") ≡ false
      → object_built_image_url (common_of cloud) k o ≡ ok image
      → Reaches e (Imaged k image) h (run_job L cloud k o j)
  unfolding run_job ensure_job renew_job finish
  run_job-Reaches {h = h} o j named url =
      let (live, read, current, succeeded) = builds h (key_of j.metadata) in
      else-Reaches _ _ (j.metadata.name == "") named (
        step (found live) read (
          >>=-Reaches (
            or_stop-Reaches _ image url (
              >>=-Reaches (
                then-Reaches _ _ (image_annotation live == image) current (
                  ends (
                    else-Reaches _ _ (ltb live.succeeded 1) succeeded
                      (publish_image-Reaches o live))))))))

  git_build-Reaches :
      {h : History} (o : Object k) (git : BuildGit) (j : Job)
      → git_build_job L cloud k o git ≡ ok j
      → (j.metadata.name == "") ≡ false
      → object_built_image_url (common_of cloud) k o ≡ ok image
      → Reaches e (Imaged k image) h (git_build L cloud k o git)
  unfolding git_build
  git_build-Reaches o git j made named url =
      >>=-Reaches (or_stop-Reaches _ j made (run_job-Reaches o j named url))

  upload_build-Reaches :
      {h : History} (o : Object k) (spec : BuildUpload) (u : BucketUrl)
      → object_artifact_url L (common_of cloud) k o ≡ ok u
      → Holds e spec.md5_checksum
      → ((status : UploadStatus) (message : String)
          → (j : Job) × (storage_build_job L cloud k (mark_found L cloud k status message o) ≡ ok j)
            × ((j.metadata.name == "") ≡ false))
      → object_built_image_url (common_of cloud) k o ≡ ok image
      → Reaches e (Imaged k image) h (upload_build L cloud k o spec)
  unfolding upload_build
  upload_build-Reaches o spec u artifacts stored makes url = >>=-Reaches (
      upload-Reaches L cloud k willing spec o
        (λ g status message.
          let p = mark_found L cloud k status message o in
          let (j, made, named) = makes status message in
          >>=-Reaches (
            or_stop-Reaches _ j made (
              run_job-Reaches p j named
                (found_image_url L cloud k (common_of cloud) status message o ∙ url))))
        u artifacts stored)

  with_build-Reaches :
      {h : History} (o : Object k) (b : Build)
      → object_built_image_url (common_of cloud) k o ≡ ok image
      → (get_image k o == image) ≡ false
      → ((g : History) → Reaches e (Imaged k image) g (start_build L cloud k o b))
      → Reaches e (Imaged k image) h (with_build L cloud k o (some b))
  unfolding with_build unless_built with_account
  with_build-Reaches o b url unset starts = >>=-Reaches (
      or_stop-Reaches _ image url (
        else-Reaches _ _ (get_image k o == image) unset
          (>>=-Reaches (account-Reaches willing starts cloud _ _))))

-- An object built from git gets its image in one run, if it does not have it yet, every write
-- succeeds, its Job can be made, and every Job that is read is for the image and has succeeded: the run
-- finishes, and its last two calls set the image and save the status.
pub git_build_arrives :
    (L : Library) (cloud : Cloud) (k : Kind) (e : Env) (key : Key) (o : Object k) (git : BuildGit)
    (image : String) (j : Job)
    → Willing e
    → Builds e image
    → e [] (get k key) ≡ found o
    → get_build k o ≡ some (record { git = some git; upload = none })
    → object_built_image_url (common_of cloud) k o ≡ ok image
    → (get_image k o == image) ≡ false
    → git_build_job L cloud k o git ≡ ok j
    → (j.metadata.name == "") ≡ false
    → Imaged k image
        (run e [] (reconcile_build L cloud k key)).0
        (run e [] (reconcile_build L cloud k key)).1
unfolding reconcile_build reconcile_fetched start_build start_from
git_build_arrives L cloud k e key o git image j willing builds read build url unset made named =
    run-Reaches (
      step {c = get k key} (found o) read (
        subst
          (λ b. Reaches e (Imaged k image) ((get k key, found o) ∷ []) (with_build L cloud k o b))
          (sym build)
          (with_build-Reaches L cloud k willing image builds o
            (record { git = some git; upload = none }) url unset
            (λ g. git_build-Reaches L cloud k willing image builds o git j made named url))))

-- An object built from an upload gets its image in one run, if it does not have it yet, every write
-- succeeds, the storage answers with the checksum of the upload, its Job can be made, and every Job that
-- is read is for the image and has succeeded: the run finishes, and its last two calls set the image and
-- save the status.
pub upload_build_arrives :
    (L : Library) (cloud : Cloud) (k : Kind) (e : Env) (key : Key) (o : Object k)
    (spec : BuildUpload) (git : Option BuildGit) (image : String) (u : BucketUrl)
    → Willing e
    → Builds e image
    → Holds e spec.md5_checksum
    → e [] (get k key) ≡ found o
    → get_build k o ≡ some (record { git = git; upload = some spec })
    → object_built_image_url (common_of cloud) k o ≡ ok image
    → (get_image k o == image) ≡ false
    → object_artifact_url L (common_of cloud) k o ≡ ok u
    → ((status : UploadStatus) (message : String)
        → (j : Job) × (storage_build_job L cloud k (mark_found L cloud k status message o) ≡ ok j)
          × ((j.metadata.name == "") ≡ false))
    → Imaged k image
        (run e [] (reconcile_build L cloud k key)).0
        (run e [] (reconcile_build L cloud k key)).1
unfolding reconcile_build reconcile_fetched start_build start_from
upload_build_arrives L cloud k e key o spec git image u willing builds stored read build url unset
      artifacts makes =
    run-Reaches (
      step {c = get k key} (found o) read (
        subst
          (λ b. Reaches e (Imaged k image) ((get k key, found o) ∷ []) (with_build L cloud k o b))
          (sym build)
          (with_build-Reaches L cloud k willing image builds o
            (record { git = git; upload = some spec }) url unset
            (λ g.
              upload_build-Reaches L cloud k willing image builds o spec u artifacts stored makes
                url))))
