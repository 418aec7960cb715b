-- ===== src/Controller/Build/Still.antt =====
-- The Job of an upload, from the file being there on.
use runbooks.Prelude.{String, ◌≡◌, ◌==◌, true, some, ◌∷◌}
use runbooks.Kube.{Key, Job}
use runbooks.Program.{
  Fetch, found, missing, fetch_error, Creation, created, exists, create_error, Deletion, deleted,
  gone, delete_error, get_job, create_job, delete_job, Call, ◌>>=◌, or_stop, History, Outcome,
  finished, halted, panicked,
}
use runbooks.Program.Always.{
  Always, done, ask, stops, >>=-Always, Always-mono, Then, or_stop-Always, if-Always,
}
use runbooks.Program.Only.{Only-Always, prepares, hands_over, publishes}
use runbooks.Program.Latest.{latest_checksum}
use runbooks.Library.{Library}
use runbooks.Api.{Kind, Object}
use runbooks.Cloud.{Cloud, common_of, object_built_image_url}
use runbooks.Controller.Build.Calls.{finish-Only}
use runbooks.Controller.Build.Reconcile.{
  create_missing, ensure_job, create_again, create_after, renew_job, image_annotation, finish,
  run_job,
}

-- A builder Job is created only when the checksum that the storage last gave is the wanted one.
abbrev pub Checked : String → History → Call → Type 0
Checked sum h (create_job j) = latest_checksum h ≡ some sum
Checked sum h _ = Unit

abbrev pub Any : {A : Type 0} → History → Outcome A → Type 0
Any h o = Unit {0}

module _ (sum : String) where
  pub prepares-Checked : (h : History) (c : Call) → prepares c ≡ true → Checked sum h c
  prepares-Checked h (create_job j) p = cc
  prepares-Checked h _ p = tt

  pub hands_over-Checked : (h : History) (c : Call) → hands_over c ≡ true → Checked sum h c
  hands_over-Checked h (create_job j) p = cc
  hands_over-Checked h _ p = tt

  pub publishes-Checked : (h : History) (c : Call) → publishes c ≡ true → Checked sum h c
  publishes-Checked h (create_job j) p = cc
  publishes-Checked h _ p = tt

  -- The file is there, at the end of a step too.
  abbrev pub StillEnd : {A : Type 0} → History → Outcome A → Type 0
  StillEnd h (finished a) = latest_checksum h ≡ some sum
  StillEnd h (halted e) = Unit
  StillEnd h (panicked s) = Unit

  pub create_missing-Still :
      {h : History} (j : Job) (a : Creation Job)
      → latest_checksum h ≡ some sum
      → Always (Checked sum) StillEnd ((create_job j, a) ∷ h) (create_missing j a)
  unfolding create_missing
  create_missing-Still j (created stored) there = done there
  create_missing-Still j exists there = done there
  create_missing-Still j (create_error e) there = stops tt

  pub ensure_job-Still :
      {h : History} {key : Key} (j : Job) (a : Fetch Job)
      → latest_checksum h ≡ some sum
      → Always (Checked sum) StillEnd ((get_job key, a) ∷ h) (ensure_job j a)
  unfolding ensure_job
  ensure_job-Still j (found stored) there = done there
  ensure_job-Still j missing there = ask there (λ a. create_missing-Still j a there)
  ensure_job-Still j (fetch_error e) there = stops tt

  pub create_again-Still :
      {h : History} (j : Job) (a : Creation Job)
      → latest_checksum h ≡ some sum
      → Always (Checked sum) StillEnd ((create_job j, a) ∷ h) (create_again a)
  unfolding create_again
  create_again-Still j (created stored) there = done there
  create_again-Still j exists there = stops tt
  create_again-Still j (create_error e) there = stops tt

  pub create_after-Still :
      {h : History} (j : Job) (a : Deletion)
      → latest_checksum h ≡ some sum
      → Always (Checked sum) StillEnd ((delete_job j, a) ∷ h) (create_after j a)
  unfolding create_after
  create_after-Still j deleted there = ask there (λ a. create_again-Still j a there)
  create_after-Still j gone there = ask there (λ a. create_again-Still j a there)
  create_after-Still j (delete_error e) there = stops tt

  pub renew_job-Still :
      {h : History} (j : Job) (image : String)
      → latest_checksum h ≡ some sum
      → Always (Checked sum) StillEnd h (renew_job j image)
  unfolding renew_job
  renew_job-Still j image there =
      if-Always (image_annotation j == image) (λ same. done there)
        (λ other. ask tt (λ a. create_after-Still j a there))

  module _ (L : Library) (cloud : Cloud) (k : Kind) where
    finished_job :
        (o : Object k) (image : String) (g : History) (e : Outcome Job)
        → StillEnd g e
        → Then (Checked sum) Any (finish L cloud k o image) g e
    finished_job o image g (finished j) there =
        Only-Always publishes-Checked (λ h e. tt) (finish-Only L cloud k o image j)
    finished_job o image g (halted e) there = tt
    finished_job o image g (panicked s) there = tt

    ensured :
        (o : Object k) (g : History) (e : Outcome Job)
        → StillEnd g e
        → Then
            (Checked sum)
            Any
            (λ j. or_stop (object_built_image_url (common_of cloud) k o) >>= λ image.
              renew_job j image >>= finish L cloud k o image)
            g
            e
    ensured o g (finished j) there = >>=-Always (
        or_stop-Always (object_built_image_url (common_of cloud) k o)
          (λ image named.
            >>=-Always (Always-mono (finished_job o image) (renew_job-Still j image there)))
          tt (λ s. tt))
    ensured o g (halted e) there = tt
    ensured o g (panicked s) there = tt

    pub run_job-Checked :
        {h : History} (o : Object k) (built : Job)
        → latest_checksum h ≡ some sum
        → Always (Checked sum) Any h (run_job L cloud k o built)
    unfolding run_job
    run_job-Checked o built there =
        if-Always (built.metadata.name == "") (λ empty. stops tt)
          (λ named.
            ask tt (λ a. >>=-Always (Always-mono (ensured o) (ensure_job-Still built a there))))
