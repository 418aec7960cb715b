-- ===== src/Tests/Builds.antt =====
-- The theorems on the build controller, on a cluster.
use runbooks.Prelude.{String, refl, ◌≢◌, ◌==◌, Bool, none, some, true, false, [], ◌∷◌, arith}
use text.Mathlib.TextEquality.{eq_iff}
use runbooks.Program.{run, Env, Creation, created, create_error, found, create_job, get_job}
use runbooks.Kube.{Job}
use runbooks.Controller.Status.{key_of}
use runbooks.Program.Always.{Each}
use runbooks.Prelude.Text.{to_lower}
use runbooks.Api.{model, Build}
use runbooks.Cloud.{object_built_image_url}
use runbooks.Controller.Build.{reconcile_build, run_job, image_annotation}
use runbooks.Controller.Build.Seen.{Published}
use runbooks.Controller.Build.Image.{image_after_success}
use runbooks.Controller.Build.Still.{Checked}
use runbooks.Controller.Build.Checked.{build_after_upload}
use runbooks.Controller.Build.Edges.{
  Broken, no_source_breaks, RefusesVersions, Fails, run_job-Fails,
}
use runbooks.Tests.Cluster.{
  library, on_gcp, a_model, a_job, from_git, from_upload, an_upload, key, answers,
}

image_after_success_example :
    Each
      (Published on_gcp)
      (run
        (answers (a_model "m" none (some from_git) false) (a_job "r/c-model-default-m:v1" 1))
        []
        (reconcile_build library on_gcp model (key "m"))).0
image_after_success_example =
    image_after_success on_gcp library model
      (answers (a_model "m" none (some from_git) false) (a_job "r/c-model-default-m:v1" 1))
      (key "m")

not_empty : ◌≢◌ {A = String} "m" ""
not_empty = ground (arith, eq_iff "m" "")

build_after_upload_example :
    Each
      (Checked "m")
      (run
        (answers (a_model "m" none (some from_upload) false) (a_job "r/c-model-default-m:m" 1))
        []
        (reconcile_build library on_gcp model (key "m"))).0
build_after_upload_example =
    build_after_upload library on_gcp model
      (answers (a_model "m" none (some from_upload) false) (a_job "r/c-model-default-m:m" 1))
      (key "m") (a_model "m" none (some from_upload) false) an_upload none refl refl not_empty

abbrev no_source : Build
no_source = record { git = none; upload = none }

no_source_breaks_example :
    Broken
      (run
        (answers (a_model "m" none (some no_source) false) (a_job "i" 1))
        []
        (reconcile_build library on_gcp model (key "m"))).0
      (run
        (answers (a_model "m" none (some no_source) false) (a_job "i" 1))
        []
        (reconcile_build library on_gcp model (key "m"))).1
unfolding object_built_image_url to_lower
no_source_breaks_example =
    no_source_breaks library on_gcp model
      (answers (a_model "m" none (some no_source) false) (a_job "i" 1)) (key "m")
      (a_model "m" none (some no_source) false) no_source "r/c-model-default-m:latest" refl refl
      refl refl refl refl

abbrev old_job : Job
old_job = record (a_job "old" 1) {
  metadata = record ((a_job "old" 1).metadata) { resource_version = "7" };
}

abbrev create_if_new : Bool → Job → Creation Job
create_if_new true j = created j
create_if_new false j = create_error "resourceVersion should not be set on objects to be created"

abbrev refusing : Env
refusing h (create_job j) = create_if_new (j.metadata.resource_version == "") j
refusing h c = answers (a_model "m" none (some from_git) false) old_job h c

refusing-RefusesVersions : RefusesVersions refusing
refusing-RefusesVersions h j versioned =
    ("resourceVersion should not be set on objects to be created", rw versioned refl)

run_job-Fails_example :
    Fails old_job ((get_job (key_of (a_job "new" 0).metadata), found old_job) ∷ []) (
      run refusing []
        (run_job library on_gcp model (a_model "m" none (some from_git) false) (a_job "new" 0)))
unfolding image_annotation object_built_image_url to_lower
run_job-Fails_example =
    run_job-Fails library on_gcp model refusing [] (a_model "m" none (some from_git) false)
      (a_job "new" 0) old_job "r/c-model-default-m:v1" refusing-RefusesVersions refl refl refl refl
      refl
