-- ===== src/Controller/Build/Edges.antt =====
-- The build controller where there is nothing to do, where a build names no source, and where the Job
-- in the cluster is out of date.
use runbooks.Prelude.{
  String, ◌<>◌, ◌≡◌, refl, sym, ap, ◌∙◌, if◌then◌else◌, ◌⊎◌, inl, inr, ◌==◌, Bool, true, false,
  Option, none, some, [], ◌∷◌,
}
use mathlib.Core.Path.{subst}
use text.Mathlib.TextPositions.{eq_refl}
use runbooks.Kube.{Key, Job, ServiceAccount}
use runbooks.Program.{
  ok, err, panic, found, create_error, written, write_error, deleted, get, create_job, delete_job,
  get_job, delete_error, gone, Deletion, Program, perform, Call, ◌>>=◌, or_stop, stop, History, Env,
  Outcome, run-step, finished, halted, panicked, run,
}
use runbooks.Program.Always.{Always, ask, stops, dies, run-Always}
use runbooks.Library.{Library}
use runbooks.Api.{Build, Kind, Object, metadata, get_build, get_image}
use runbooks.Cloud.{Cloud, get_principal, common_of, object_built_image_url}
use runbooks.Controller.Status.{key_of}
use runbooks.Controller.ServiceAccounts.{
  container_builder, account, bind, apply_account, reconcile_service_account,
}
use runbooks.Controller.Build.Reconcile.{
  recreate, create_after, create_again, renew_job, image_annotation, ensure_job, run_job, finish,
  with_build, unless_built, with_account, start_build, start_from, reconcile_fetched,
  reconcile_build,
}

-- The end of a run that neither finishes nor stops without an error.
abbrev pub Broken : {A : Type 0} → History → Outcome A → Type 0
Broken h (finished a) = ⊥
Broken h (halted none) = ⊥
Broken h (halted (some e)) = Unit
Broken h (panicked s) = Unit

abbrev Calls : History → Call → Type 0
Calls h c = Unit {0}

module _ (L : Library) (cloud : Cloud) (k : Kind) where
  built_already :
      (e : Env) (h : History) (o : Object k) (b : Option Build)
      → object_built_image_url (common_of cloud) k o ≡ ok (get_image k o)
      → run e h (with_build L cloud k o b) ≡ (h, halted none)
  unfolding run with_build or_stop
  built_already e h o none same = refl
  built_already e h o (some b) same =
      ap (λ g. run e h (or_stop g >>= unless_built L cloud k o b)) same
      ∙ ap (λ t. run e h (if t then stop else with_account L cloud k o b)) (eq_refl (get_image k o))

  -- With no build, or with the image that the build names already set, a reconciliation makes the one
  -- call that reads the object, and ends without an error.
  pub nothing_to_build :
      (e : Env) (key : Key) (o : Object k)
      → e [] (get k key) ≡ found o
      → (get_build k o ≡ none) ⊎ (object_built_image_url (common_of cloud) k o ≡ ok (get_image k o))
      → run e [] (reconcile_build L cloud k key) ≡ ((get k key, found o) ∷ [], halted none)
  unfolding run reconcile_build reconcile_fetched with_build
  nothing_to_build e key o read (inl no_build) =
      run-step e [] {c = get k key} (reconcile_fetched L cloud k) {a = found o} read
      ∙ ap (λ b. run e ((get k key, found o) ∷ []) (with_build L cloud k o b)) no_build
  nothing_to_build e key o read (inr same) =
      run-step e [] {c = get k key} (reconcile_fetched L cloud k) {a = found o} read
      ∙ built_already e _ o (get_build k o) same

  apply_account-Broken :
      {h : History} (sa : ServiceAccount) (b : Build)
      → b.upload ≡ none
      → b.git ≡ none
      → (o : Object k)
      → Always Calls Broken h (apply_account cloud sa >>= λ u. start_build L cloud k o b)
  unfolding apply_account start_build
  apply_account-Broken sa b no_upload no_git o = ask tt (elim [
    | written stored ↦ rw (no_upload, no_git, start_from) (dies tt)
    | write_error e ↦ stops tt
  ])

  bind-Broken :
      {h : History} (sa : ServiceAccount) (p : String × Bool) (b : Build)
      → b.upload ≡ none
      → b.git ≡ none
      → (o : Object k)
      → Always Calls Broken h
          ((bind cloud sa p >>= λ u. apply_account cloud sa) >>= λ u. start_build L cloud k o b)
  unfolding bind
  bind-Broken sa (principal, true) b no_upload no_git o =
      apply_account-Broken sa b no_upload no_git o
  bind-Broken sa (principal, false) b no_upload no_git o = ask tt (elim [
    | ok u ↦ apply_account-Broken sa b no_upload no_git o
    | err e ↦ stops tt
    | panic s ↦ dies tt
  ])

  with_build-Broken :
      {h : History} (b : Build)
      → b.upload ≡ none
      → b.git ≡ none
      → (o : Object k) (image : String) → object_built_image_url (common_of cloud) k o ≡ ok image
      → (get_image k o == image) ≡ false
      → Always Calls Broken h (with_build L cloud k o (some b))
  unfolding with_build unless_built with_account reconcile_service_account or_stop
  with_build-Broken b no_upload no_git o image named other =
      rw (named, other)
        (bind-Broken (account container_builder (metadata k o).namespace)
          (get_principal cloud (account container_builder (metadata k o).namespace)) b no_upload
          no_git o)

  -- A build that names neither an upload nor git, of an object whose image is not set to the wanted
  -- one: no run finishes or stops without an error, so each one panics or fails.
  pub no_source_breaks :
      (e : Env) (key : Key) (o : Object k) (b : Build) (image : String)
      → e [] (get k key) ≡ found o
      → get_build k o ≡ some b
      → b.upload ≡ none
      → b.git ≡ none
      → object_built_image_url (common_of cloud) k o ≡ ok image
      → (get_image k o == image) ≡ false
      → let (h, outcome) = run e [] (reconcile_build L cloud k key) in Broken h outcome
  unfolding reconcile_build reconcile_fetched
  no_source_breaks e key o b image read build no_upload no_git named other =
      let p = λ (c : Option Build). with_build L cloud k o c in
      subst (λ r. Broken r.0 r.1)
        (sym (
          run-step e [] {c = get k key} (reconcile_fetched L cloud k) {a = found o} read
          ∙ ap (λ c. run e ((get k key, found o) ∷ []) (p c)) build))
        (run-Always e (with_build-Broken b no_upload no_git o image named other) (tt, tt)).1

-- The API server refuses to create an object that has a resource version, as it is documented.
abbrev pub RefusesVersions : Env → Type 0
RefusesVersions e =
    (h : History) (j : Job)
    → (j.metadata.resource_version == "") ≡ false
    → (message : String) × (e h (create_job j) ≡ create_error message)

-- After the history, the Job is deleted, at most its creation is tried, and refused, and the run ends
-- in an error.
abbrev pub Fails : Job → History → {A : Type 0} → History × Outcome A → Type 0
Fails j h (g, outcome) =
    (message : String) × (outcome ≡ halted (some message))
    × (d : Deletion) × ((g ≡ (delete_job j, d) ∷ h)
        ⊎ ((refusal : String) × (g ≡ (create_job j, create_error refusal) ∷ (delete_job j, d) ∷ h)))

module _ (e : Env) (refuses : RefusesVersions e) (j : Job)
    (versioned : (j.metadata.resource_version == "") ≡ false) where
  create-Fails :
      {A : Type 0} (h : History) (d : Deletion) (next : Job → Program A)
      → Fails j h (
          run e
            ((delete_job j, d) ∷ h)
            (perform (create_job j) >>= λ answer. (create_again answer >>= next)))
  unfolding run create_again ◌>>=◌
  create-Fails h d next =
      let (refusal, refused) = refuses ((delete_job j, d) ∷ h) j versioned in
      subst (Fails j h)
        (sym (
          run-step e ((delete_job j, d) ∷ h) {c = create_job j}
            (λ answer. create_again answer >>= next) refused))
        ("creating builder Job: " <> refusal, refl, d, inr (refusal, refl))

  create_after-Fails :
      {A : Type 0} (h : History) (d : Deletion) (next : Job → Program A)
      → Fails j h (run e ((delete_job j, d) ∷ h) (create_after j d >>= next))
  unfolding run create_after create_again ◌>>=◌
  create_after-Fails h deleted next = create-Fails h deleted next
  create_after-Fails h gone next = create-Fails h gone next
  create_after-Fails h (delete_error x) next =
      ("deleting out of date builder Job: " <> x, refl, delete_error x, inl refl)

  renew_job-Fails :
      {A : Type 0} (h : History) (image : String) (next : Job → Program A)
      → (image_annotation j == image) ≡ false
      → Fails j h (run e h (renew_job j image >>= next))
  unfolding run renew_job recreate ◌>>=◌
  renew_job-Fails h image next stale = rw stale (create_after-Fails h (e h (delete_job j)) next)

-- A Job for another image is never replaced in the run that finds it, if it has a resource
-- version, as what is read has, and the server refuses to create a Job that has one: whatever is
-- answered to its deletion, the Job that is then to be created is the one that was read, so the
-- run ends in an error, and nothing of the object is saved.
pub run_job-Fails :
    (L : Library) (cloud : Cloud) (k : Kind) (e : Env) (h : History) (o : Object k) (built j : Job)
    (image : String)
    → RefusesVersions e
    → (built.metadata.name == "") ≡ false
    → e h (get_job (key_of built.metadata)) ≡ found j
    → (j.metadata.resource_version == "") ≡ false
    → object_built_image_url (common_of cloud) k o ≡ ok image
    → (image_annotation j == image) ≡ false
    → Fails j ((get_job (key_of built.metadata), found j) ∷ h) (run e h (run_job L cloud k o built))
unfolding run run_job ensure_job or_stop ◌>>=◌
run_job-Fails L cloud k e h o built j image refuses named read versioned url stale = rw named (
    subst (Fails j ((get_job (key_of built.metadata), found j) ∷ h))
      (sym (
        run-step e h {c = get_job (key_of built.metadata)}
          (λ answer. ensure_job built answer >>= λ stored.
            or_stop (object_built_image_url (common_of cloud) k o) >>= λ wanted.
            renew_job stored wanted >>= λ current. finish L cloud k o wanted current)
          read))
      (rw url (
        renew_job-Fails e refuses j versioned ((get_job (key_of built.metadata), found j) ∷ h) image
          _ stale)))
