-- ===== src/Controller/Build/Seen.antt =====
-- The Job that a build goes by, and what the API server showed of it.
use runbooks.Prelude.{◌<◌, String, ◌≡◌, refl, ◌⊎◌, inl, inr, ◌==◌, true, some, ◌∷◌}
use runbooks.Kube.{Key, Job}
use runbooks.Program.{
  ok, Fetch, found, missing, fetch_error, Creation, created, exists, create_error, Deletion,
  deleted, gone, delete_error, get_job, create_job, update, Call, History, Outcome, finished,
}
use runbooks.Program.Always.{Always, done, ask, stops, if-Always}
use runbooks.Program.Only.{prepares, saves_status, hands_over}
use runbooks.Program.Latest.{latest_job}
use runbooks.Api.{Kind, model, dataset, server, notebook, Object, get_image, set_image}
use runbooks.Cloud.{Cloud, common_of, object_built_image_url}
use runbooks.Controller.Build.Reconcile.{
  create_missing, ensure_job, create_again, create_after, renew_job, image_annotation,
}

-- The image that the object is updated to is the one that its build names, and the Job last seen has
-- succeeded.
abbrev pub Published : Cloud → History → Call → Type 0
Published cloud h (update k o) =
    (j : Job) × (latest_job h ≡ some j)
    × (0 < j.succeeded)
    × (object_built_image_url (common_of cloud) k o ≡ ok (get_image k o))
Published cloud h _ = Unit

-- Any end will do.
abbrev pub Ends : {A : Type 0} → History → Outcome A → Type 0
Ends h o = Unit {0}

pub url-set_image :
    (cloud : Cloud) (k : Kind) (o : Object k) (image : String)
    → object_built_image_url (common_of cloud) k (set_image k image o)
      ≡ object_built_image_url (common_of cloud) k o
url-set_image cloud model o image = unfold object_built_image_url in refl
url-set_image cloud dataset o image = unfold object_built_image_url in refl
url-set_image cloud server o image = unfold object_built_image_url in refl
url-set_image cloud notebook o image = unfold object_built_image_url in refl

pub get_image-set_image :
    (k : Kind) (o : Object k) (image : String) → get_image k (set_image k image o) ≡ image
get_image-set_image model o image = refl
get_image-set_image dataset o image = refl
get_image-set_image server o image = refl
get_image-set_image notebook o image = refl

-- A Job is at hand that has not succeeded, or that the server showed last.
abbrev pub Seen : History → Job → Type 0
Seen h j = (j.succeeded ≡ 0) ⊎ (latest_job h ≡ some j)

abbrev pub SeenEnd : History → Outcome Job → Type 0
SeenEnd h (finished j) = Seen h j
SeenEnd h _ = Unit

module _ (cloud : Cloud) where
  pub prepares-Published : (h : History) (c : Call) → prepares c ≡ true → Published cloud h c
  prepares-Published h (update k o) p = cc
  prepares-Published h _ p = tt

  pub saves_status-Published :
      (h : History) (c : Call) → saves_status c ≡ true → Published cloud h c
  saves_status-Published h (update k o) p = cc
  saves_status-Published h _ p = tt

  pub hands_over-Published : (h : History) (c : Call) → hands_over c ≡ true → Published cloud h c
  hands_over-Published h (update k o) p = cc
  hands_over-Published h _ p = tt

  pub create_missing-Seen :
      {h : History} (j : Job) (a : Creation Job)
      → j.succeeded ≡ 0
      → Always (Published cloud) SeenEnd ((create_job j, a) ∷ h) (create_missing j a)
  unfolding create_missing
  create_missing-Seen j (created stored) fresh = done (inr refl)
  create_missing-Seen j exists fresh = done (inl fresh)
  create_missing-Seen j (create_error e) fresh = stops tt

  pub ensure_job-Seen :
      {h : History} {key : Key} (j : Job) (a : Fetch Job)
      → j.succeeded ≡ 0
      → Always (Published cloud) SeenEnd ((get_job key, a) ∷ h) (ensure_job j a)
  unfolding ensure_job
  ensure_job-Seen j (found stored) fresh = done (inr refl)
  ensure_job-Seen j missing fresh = ask tt (λ a. create_missing-Seen j a fresh)
  ensure_job-Seen j (fetch_error e) fresh = stops tt

  pub create_again-Seen :
      {h : History} (j : Job) (a : Creation Job)
      → Always (Published cloud) SeenEnd ((create_job j, a) ∷ h) (create_again a)
  unfolding create_again
  create_again-Seen j (created stored) = done (inr refl)
  create_again-Seen j exists = stops tt
  create_again-Seen j (create_error e) = stops tt

  pub create_after-Seen :
      {h : History} (j : Job) (a : Deletion) → Always (Published cloud) SeenEnd h (create_after j a)
  unfolding create_after
  create_after-Seen j deleted = ask tt (create_again-Seen j)
  create_after-Seen j gone = ask tt (create_again-Seen j)
  create_after-Seen j (delete_error e) = stops tt

  pub renew_job-Seen :
      {h : History} (j : Job) (image : String)
      → Seen h j
      → Always (Published cloud) SeenEnd h (renew_job j image)
  unfolding renew_job
  renew_job-Seen j image seen =
      if-Always (image_annotation j == image) (λ same. done seen)
        (λ other. ask tt (λ a. create_after-Seen j a))
