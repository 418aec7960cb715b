-- ===== src/Controller/Build/Image.antt =====
-- The Job that the API server showed before an image is published.
use runbooks.Prelude.{
  ◌<◌, String, ◌≡◌, refl, sym, ap, ◌∙◌, ◌==◌, Option, none, some, [], arith, ltb,
}
use runbooks.Kube.{Key, Job}
use runbooks.Program.{
  Go, ok, Fetch, found, missing, fetch_error, written, write_error, or_stop, ◌>>=◌, History, Env,
  Outcome, finished, halted, panicked, run,
}
use runbooks.Program.Always.{
  Always, ask, stops, dies, Each, run-Always, >>=-Always, Always-mono, Then, or_stop-Always,
  if-Always,
}
use runbooks.Program.Only.{Only, >>=-Only, Only-Always, saves_status}
use runbooks.Program.Latest.{latest_job}
use runbooks.Controller.Sorts.{save_status-Only, reconcile_service_account-Only}
use runbooks.Library.{Library}
use runbooks.Api.{Build, BuildUpload, BuildGit, Kind, Object, get_build, get_image}
use runbooks.Cloud.{Cloud, common_of, object_built_image_url}
use runbooks.Controller.Shared.{own}
use runbooks.Controller.Build.Jobs.{git_build_job, storage_build_job}
use runbooks.Controller.Build.Reconcile.{
  renew_job, finish, run_job, wait_for_job, image_updated, publish_image, start_from, start_build,
  with_build, reconcile_fetched, reconcile_build,
}
use runbooks.Controller.Build.Calls.{reconcile_upload_file-Only}
use runbooks.Controller.Build.Seen.{
  Published, Ends, url-set_image, get_image-set_image, Seen, SeenEnd, prepares-Published,
  saves_status-Published, hands_over-Published, ensure_job-Seen, renew_job-Seen,
}

module _ (cloud : Cloud) (L : Library) (k : Kind) where
  wait_for_job-Only : (o : Object k) (j : Job) → Only saves_status (wait_for_job L cloud k o j)
  unfolding wait_for_job
  wait_for_job-Only o j = >>=-Only (save_status-Only _ k _ refl) (λ stored. Only.stops)

  image_updated-Only : (j : Job) (o : Object k) → Only saves_status (image_updated L cloud k j o)
  unfolding image_updated
  image_updated-Only j o = >>=-Only (save_status-Only _ k _ refl) (λ stored. Only.done)

  publish_image-Published :
      {h : History} (o : Object k) (j : Job) (image : String)
      → latest_job h ≡ some j
      → 0 < j.succeeded
      → object_built_image_url (common_of cloud) k o ≡ ok image
      → Always (Published cloud) Ends h (publish_image L cloud k o j image)
  unfolding publish_image
  publish_image-Published o j image seen success named =
      ask
        (
          j,
          seen,
          success,
          url-set_image cloud k o image ∙ named ∙ ap ok (sym (get_image-set_image k o image)),
        )
        (elim [
          | written stored ↦
              Only-Always (saves_status-Published cloud) (λ g e. tt) (image_updated-Only j stored)
          | write_error e ↦ stops tt
        ])

  finish-Published :
      {h : History} (o : Object k) (image : String) (j : Job)
      → Seen h j
      → object_built_image_url (common_of cloud) k o ≡ ok image
      → Always (Published cloud) Ends h (finish L cloud k o image j)
  unfolding finish
  finish-Published o image j seen named =
      if-Always (ltb j.succeeded 1)
        (λ none_yet. Only-Always (saves_status-Published cloud) (λ g e. tt) (wait_for_job-Only o j))
        (λ some_done. publish_image-Published o j image (ground (arith, seen)) (ground arith) named)

  finish_seen :
      (o : Object k) (image : String)
      → object_built_image_url (common_of cloud) k o ≡ ok image
      → (g : History) (e : Outcome Job) → SeenEnd g e
      → Then (Published cloud) Ends (finish L cloud k o image) g e
  finish_seen o image named g (finished j) seen = finish-Published o image j seen named
  finish_seen o image named g (halted e) seen = tt
  finish_seen o image named g (panicked s) seen = tt

  -- From the Job that is in the cluster.
  renew_then_finish :
      {h : History} (o : Object k) (j : Job)
      → Seen h j
      → Always (Published cloud) Ends h (
          or_stop (object_built_image_url (common_of cloud) k o) >>= λ image.
          renew_job j image >>= finish L cloud k o image)
  renew_then_finish o j seen = >>=-Always (
      or_stop-Always (object_built_image_url (common_of cloud) k o)
        (λ image named.
          >>=-Always (Always-mono (finish_seen o image named) (renew_job-Seen cloud j image seen)))
        tt (λ s. tt))

  ensured :
      (o : Object k) (g : History) (e : Outcome Job)
      → SeenEnd g e
      → Then
          (Published cloud)
          Ends
          (λ j. or_stop (object_built_image_url (common_of cloud) k o) >>= λ image.
            renew_job j image >>= finish L cloud k o image)
          g
          e
  ensured o g (finished j) seen = renew_then_finish o j seen
  ensured o g (halted e) seen = tt
  ensured o g (panicked s) seen = tt

  run_job-Published :
      {h : History} (o : Object k) (built : Job)
      → built.succeeded ≡ 0
      → Always (Published cloud) Ends h (run_job L cloud k o built)
  unfolding run_job
  run_job-Published o built fresh =
      if-Always (built.metadata.name == "") (λ empty. stops tt)
        (λ named.
          ask tt (λ a. >>=-Always (Always-mono (ensured o) (ensure_job-Seen cloud built a fresh))))

  run_go :
      {h : History} (o : Object k) (g : Go Job)
      → ((j : Job) → g ≡ ok j → j.succeeded ≡ 0)
      → Always (Published cloud) Ends h (or_stop g >>= run_job L cloud k o)
  run_go o g fresh =
      >>=-Always (or_stop-Always g (λ j built. run_job-Published o j (fresh j built)) tt (λ s. tt))

  git_build_job-fresh :
      (o : Object k) (git : BuildGit) (j : Job)
      → git_build_job L cloud k o git ≡ ok j
      → j.succeeded ≡ 0
  unfolding git_build_job own
  git_build_job-fresh o git j built = ground arith

  storage_build_job-fresh :
      (o : Object k) (j : Job) → storage_build_job L cloud k o ≡ ok j → j.succeeded ≡ 0
  unfolding storage_build_job own
  storage_build_job-fresh o j built = ground arith

  start_from-Published :
      {h : History} (o : Object k) (upload : Option BuildUpload) (git : Option BuildGit)
      → Always (Published cloud) Ends h (start_from L cloud k o upload git)
  unfolding start_from
  start_from-Published o (some spec) git = >>=-Always (
      Only-Always (hands_over-Published cloud) uploaded
        (reconcile_upload_file-Only L cloud k o spec))
    where
      uploaded :
          (g : History) (e : Outcome (Object k))
          → Then
              (Published cloud)
              Ends
              (λ p. or_stop (storage_build_job L cloud k p) >>= run_job L cloud k p)
              g
              e
      uploaded g (finished p) = run_go p (storage_build_job L cloud k p) (storage_build_job-fresh p)
      uploaded g (halted x) = tt
      uploaded g (panicked s) = tt
  start_from-Published o none (some git) =
      run_go o (git_build_job L cloud k o git) (git_build_job-fresh o git)
  start_from-Published o none none = dies tt

  with_build-Published :
      {h : History} (o : Object k) (b : Option Build)
      → Always (Published cloud) Ends h (with_build L cloud k o b)
  unfolding with_build start_build
  with_build-Published o none = stops tt
  with_build-Published o (some b) = >>=-Always (
      or_stop-Always (object_built_image_url (common_of cloud) k o)
        (λ image named.
          if-Always (get_image k o == image) (λ same. stops tt)
            (λ other. >>=-Always (
              Only-Always (prepares-Published cloud) accounted
                (reconcile_service_account-Only cloud _ _))))
        tt (λ s. tt))
    where
      accounted :
          (g : History) (e : Outcome (Unit {0}))
          → Then (Published cloud) Ends (λ u. start_from L cloud k o b.upload b.git) g e
      accounted g (finished u) = start_from-Published o b.upload b.git
      accounted g (halted x) = tt
      accounted g (panicked s) = tt

  reconcile_fetched-Published :
      {h : History} (a : Fetch (Object k))
      → Always (Published cloud) Ends h (reconcile_fetched L cloud k a)
  unfolding reconcile_fetched
  reconcile_fetched-Published (found o) = with_build-Published o (get_build k o)
  reconcile_fetched-Published missing = stops tt
  reconcile_fetched-Published (fetch_error e) = stops tt

  -- Whatever the API server and the storage answer, an object's image is set only to the one that its
  -- build names, and only after the server has shown a builder Job that succeeded at least once.
  pub image_after_success :
      (e : Env) (key : Key) → Each (Published cloud) (run e [] (reconcile_build L cloud k key)).0
  unfolding reconcile_build
  image_after_success e key = (run-Always e (ask tt (λ a. reconcile_fetched-Published a)) tt).0
