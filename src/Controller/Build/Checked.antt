-- ===== src/Controller/Build/Checked.antt =====
-- The checksum that the storage answers with before an upload is built.
use mathlib.Core.Path.{subst}
use runbooks.Prelude.{ℕ, String, ◌≡◌, refl, sym, ap, ◌∙◌, ◌≢◌, ◌==◌, true, Option, some, [], ◌∷◌}
use text.Mathlib.TextEquality.{eq_iff}
use runbooks.Kube.{Key}
use runbooks.Program.{
  Go, ok, err, panic, found, get, ◌>>=◌, or_stop, History, Env, Outcome, finished, halted, panicked,
  run,
}
use runbooks.Program.Always.{
  Always, done, ask, stops, dies, Each, run-answered, >>=-Always, Always-mono, Then, or_stop-Always,
  if-Always,
}
use runbooks.Program.Only.{Only-Always}
use runbooks.Program.Latest.{latest_checksum}
use runbooks.Library.{Library}
use runbooks.Api.{BuildUpload, BuildGit, Kind, Object, get_build, get_image, get_status_upload}
use runbooks.Cloud.{Cloud, common_of, object_built_image_url, object_artifact_url}
use runbooks.Controller.Shared.{save_status}
use runbooks.Controller.Sorts.{save_status-Always, reconcile_service_account-Only}
use runbooks.Controller.Build.Jobs.{storage_build_job}
use runbooks.Controller.Build.Upload.{
  storage_object_md5, request_upload, await_upload, go_on, begin, verify, reconcile_upload_file,
}
use runbooks.Controller.Build.Calls.{generate_signed_url-Only}
use runbooks.Controller.Build.Reconcile.{
  run_job, start_from, start_build, with_build, reconcile_fetched, reconcile_build,
}
use runbooks.Controller.Build.Still.{
  Checked, Any, prepares-Checked, hands_over-Checked, StillEnd, run_job-Checked,
}

module _ (L : Library) (cloud : Cloud) (k : Kind) (spec : BuildUpload) where
  abbrev sum : String
  sum = spec.md5_checksum

  -- What the storage said is what is at hand.
  abbrev SumEnd : History → Outcome (Go String) → Type 0
  SumEnd h (finished (ok s)) = latest_checksum h ≡ some s
  SumEnd h (finished (err e)) = Unit
  SumEnd h (finished (panic s)) = Unit
  SumEnd h (halted e) = Unit
  SumEnd h (panicked s) = Unit

  storage_object_md5-Sum :
      {h : History} (o : Object k) → Always (Checked sum) SumEnd h (storage_object_md5 L cloud k o)
  unfolding storage_object_md5
  storage_object_md5-Sum o = >>=-Always (
      or_stop-Always (object_artifact_url L (common_of cloud) k o)
        (λ u e. ask tt (elim [ ok s ↦ done refl | err x ↦ done tt | panic s ↦ dies tt ])) tt
        (λ s. tt))

  -- A file of the wanted checksum is there, and the status says so.
  found_file :
      {h : History} (s : String) (what : String) (o : Object k)
      → latest_checksum h ≡ some s
      → (s == sum) ≡ true
      → Always (Checked sum) (StillEnd sum) h (save_status what k o)
  found_file s what o said same =
      save_status-Always k what o tt (λ stored. said ∙ ap some ((eq_iff s sum).0 same)) (λ g e. tt)

  signed :
      (o : Object k) (g : History) (e : Outcome (String × ℕ))
      → Then (Checked sum) (StillEnd sum) (await_upload L cloud k o spec) g e
  unfolding await_upload
  signed o g (finished (url, expiration)) =
      >>=-Always (save_status-Always k _ _ tt (λ stored. stops tt) (λ h e. tt))
  signed o g (halted x) = tt
  signed o g (panicked x) = tt

  request_upload-Still :
      {h : History} (o : Object k)
      → Always (Checked sum) (StillEnd sum) h (request_upload L cloud k o spec)
  unfolding request_upload
  request_upload-Still o =
      >>=-Always (
        Only-Always (hands_over-Checked sum) (signed o) (generate_signed_url-Only L cloud k o spec))

  begin-Still :
      {h : History} (o : Object k) (s : Go String)
      → sum ≢ ""
      → SumEnd h (finished s)
      → Always (Checked sum) (StillEnd sum) h (begin L cloud k o spec s)
  unfolding begin
  begin-Still o (ok s) wanted said =
      if-Always (s == sum) (λ same. found_file s _ _ said same) (λ other. request_upload-Still o)
  begin-Still o (err e) wanted said =
      if-Always ("" == sum) (λ same. absurd (wanted (sym ((eq_iff "" sum).0 same))))
        (λ other. request_upload-Still o)
  begin-Still o (panic x) wanted said =
      if-Always ("" == sum) (λ same. absurd (wanted (sym ((eq_iff "" sum).0 same))))
        (λ other. request_upload-Still o)

  verify-Still :
      {h : History} (o : Object k) (s : Go String)
      → SumEnd h (finished s)
      → Always (Checked sum) (StillEnd sum) h (verify L cloud k o spec s)
  unfolding verify
  verify-Still o (ok s) said =
      if-Always (s == sum) (λ same. found_file s _ _ said same) (λ other. stops tt)
  verify-Still o (err e) said = stops tt
  verify-Still o (panic x) said = dies tt

  known :
      (o : Object k)
      → sum ≢ ""
      → (g : History) (e : Outcome (Go String)) → SumEnd g e
      → Then (Checked sum) (StillEnd sum) (go_on L cloud k o spec) g e
  unfolding go_on
  known o wanted g (finished s) said =
      if-Always (spec.request_id == (get_status_upload k o).request_id)
        (λ answered. verify-Still o s said) (λ fresh. begin-Still o s wanted said)
  known o wanted g (halted x) said = tt
  known o wanted g (panicked x) said = tt

  reconcile_upload_file-Still :
      {h : History} (o : Object k)
      → sum ≢ ""
      → Always (Checked sum) (StillEnd sum) h (reconcile_upload_file L cloud k o spec)
  unfolding reconcile_upload_file
  reconcile_upload_file-Still o wanted =
      >>=-Always (Always-mono (known o wanted) (storage_object_md5-Sum o))

  uploaded :
      (g : History) (e : Outcome (Object k))
      → StillEnd sum g e
      → Then
          (Checked sum)
          Any
          (λ p. or_stop (storage_build_job L cloud k p) >>= run_job L cloud k p)
          g
          e
  uploaded g (finished p) there = >>=-Always (
      or_stop-Always (storage_build_job L cloud k p)
        (λ j built. run_job-Checked sum L cloud k p j there) tt (λ s. tt))
  uploaded g (halted x) there = tt
  uploaded g (panicked x) there = tt

  accounted :
      (o : Object k) (git : Option BuildGit)
      → sum ≢ ""
      → (g : History) (e : Outcome (Unit {0}))
      → Then (Checked sum) Any (λ u. start_from L cloud k o (some spec) git) g e
  unfolding start_from
  accounted o git wanted g (finished u) =
      >>=-Always (Always-mono uploaded (reconcile_upload_file-Still o wanted))
  accounted o git wanted g (halted x) = tt
  accounted o git wanted g (panicked x) = tt

  with_build-Checked :
      {h : History} (o : Object k) (git : Option BuildGit)
      → sum ≢ ""
      → Always
          (Checked sum)
          Any
          h
          (with_build L cloud k o (some (record { upload = some spec; git = git })))
  unfolding with_build start_build
  with_build-Checked o git wanted = >>=-Always (
      or_stop-Always (object_built_image_url (common_of cloud) k o)
        (λ image named.
          if-Always (get_image k o == image) (λ same. stops tt)
            (λ other. >>=-Always (
              Only-Always (prepares-Checked sum) (accounted o git wanted)
                (reconcile_service_account-Only cloud _ _))))
        tt (λ s. tt))

-- In every run for an object whose build is an upload with a checksum: a builder Job is created, anew
-- or again, only when the storage has last answered with that very checksum.
pub build_after_upload :
    (L : Library) (cloud : Cloud) (k : Kind) (e : Env) (key : Key) (o : Object k)
    (spec : BuildUpload) (git : Option BuildGit)
    → e [] (get k key) ≡ found o
    → get_build k o ≡ some (record { upload = some spec; git = git })
    → spec.md5_checksum ≢ ""
    → Each (Checked spec.md5_checksum) (run e [] (reconcile_build L cloud k key)).0
unfolding reconcile_build reconcile_fetched
build_after_upload L cloud k e key o spec git read build wanted =
    run-answered e (reconcile_fetched L cloud k) read tt (
      subst
        (λ b.
          Always (Checked spec.md5_checksum) Any ((get k key, found o) ∷ [])
            (with_build L cloud k o b))
        (sym build) (with_build-Checked L cloud k spec o git wanted))
