-- ===== src/Controller/Willing.antt =====
-- A cluster in which every write succeeds and every Job is complete, and the shared steps in it.
use runbooks.Prelude.{
  String, ◌≡◌, ◌==◌, Bool, true, false, ◌⊎◌, inl, inr, eqb, Option, none, some, ◌∷◌,
}
use runbooks.Kube.{Key, Job, Pod, Deployment, Service, ConfigMap, ServiceAccount}
use runbooks.Program.{
  Go, ok, found, written, patched, deleted, patch_pod, delete_pod, patch_deployment, patch_service,
  get_pod, get_deployment, created, exists, update, update_status, get_job, create_job,
  create_or_update_config_map, create_or_update_service_account, bind_identity, BindIdentityRequest,
  History, Env, Outcome, finished, halted, panicked, or_stop, get,
}
use runbooks.Program.Reaches.{Reaches, ends, step, Onward, >>=-Reaches}
use runbooks.Library.{Library}
use runbooks.Api.{Kind, Object, kind_name, get_status_ready, ObjectRef}
use runbooks.Cloud.{Cloud}
use runbooks.Controller.Status.{
  JobResult, job_result, is_pod_ready, fetched_job, read_job, reconcile_job,
}
use runbooks.Controller.Params.{params_config_map_name, reconcile_params_config_map}
use runbooks.Controller.ServiceAccounts.{account, bind, apply_account, reconcile_service_account}
use runbooks.Controller.Shared.{save_status}

-- Every write of the controllers succeeds, and is answered with what was written.
pub record Willing (e : Env) : Type 0 where
  pub updates : (h : History) (k : Kind) (o : Object k) → e h (update k o) ≡ written o
  pub saves : (h : History) (k : Kind) (o : Object k) → e h (update_status k o) ≡ written o
  pub maps :
      (h : History) (cm : ConfigMap) (f : ConfigMap → Go ConfigMap)
      → e h (create_or_update_config_map cm f) ≡ written cm
  pub accounts :
      (h : History) (s : ServiceAccount) (f : ServiceAccount → Go ServiceAccount)
      → e h (create_or_update_service_account s f) ≡ written s
  pub binds : (h : History) (r : BindIdentityRequest) → e h (bind_identity r) ≡ ok tt
  pub pods : (h : History) (p : Pod) → e h (patch_pod p) ≡ patched p
  pub pods_deleted : (h : History) (key : Key) → e h (delete_pod key) ≡ deleted
  pub deployments : (h : History) (d : Deployment) → e h (patch_deployment d) ≡ patched d
  pub services : (h : History) (s : Service) → e h (patch_service s) ≡ patched s
  pub jobs :
      (h : History) (j : Job) → (e h (create_job j) ≡ created j) ⊎ (e h (create_job j) ≡ exists)

-- Every Job that is read is complete.
abbrev pub Completes : Env → Type 0
Completes e =
    (h : History) (key : Key)
    → (j : Job) × (e h (get_job key) ≡ found j) × (job_result j.conditions ≡ (true, false))

-- Every Pod that is read is ready.
abbrev pub PodsReady : Env → Type 0
PodsReady e =
    (h : History) (key : Key) → (p : Pod) × (e h (get_pod key) ≡ found p) × (is_pod_ready p ≡ true)

-- Every Deployment that is read has a ready replica.
abbrev pub Serves : Env → Type 0
Serves e =
    (h : History) (key : Key)
    → (d : Deployment) × (e h (get_deployment key) ≡ found d) × (eqb d.ready_replicas 0 ≡ false)

module _ {e : Env} (willing : Willing e) where
  pub save_status-Reaches :
      {h : History} (k : Kind) {Q : History → Outcome (Object k) → Type 0} (what : String)
      (o : Object k)
      → Q ((update_status k o, written o) ∷ h) (finished o)
      → Reaches e Q h (save_status what k o)
  unfolding save_status
  save_status-Reaches k what o q = step (written o) (willing.saves _ k o) (ends q)

  module _ {Q : History → Outcome (Unit {0}) → Type 0}
      (next : (g : History) → Q g (finished tt)) where
    apply_account-Reaches :
        {h : History} (cloud : Cloud) (sa : ServiceAccount) → Reaches e Q h (apply_account cloud sa)
    unfolding apply_account
    apply_account-Reaches cloud sa = step (written sa) (willing.accounts _ _ _) (ends (next _))

    bind-Reaches :
        {h : History} (cloud : Cloud) (sa : ServiceAccount) (p : String × Bool)
        → Reaches e (Onward e Q (λ u. apply_account cloud sa)) h (bind cloud sa p)
    unfolding bind
    bind-Reaches cloud sa (principal, true) = ends (apply_account-Reaches cloud sa)
    bind-Reaches cloud sa (principal, false) =
        step (ok tt) (willing.binds _ _) (ends (apply_account-Reaches cloud sa))

    pub account-Reaches :
        {h : History} (cloud : Cloud) (name namespace : String)
        → Reaches e Q h (reconcile_service_account cloud name namespace)
    unfolding reconcile_service_account
    account-Reaches cloud name namespace =
        >>=-Reaches (bind-Reaches cloud (account name namespace) _)

    pub params-Reaches :
        {h : History} (L : Library) (k : Kind) (o : Object k)
        → (kind_name k o == "") ≡ false
        → Reaches e Q h (reconcile_params_config_map L k o)
    unfolding reconcile_params_config_map params_config_map_name or_stop
    params-Reaches L k o named = rw (named) (step (written _) (willing.maps _ _ _) (ends (next _)))

  read_job-Reaches :
      Completes e
      → {Q : History → Outcome JobResult → Type 0} {h : History} (j : Job)
      → ((g : History) → Q g (finished (record { success = true; failure = false; error = none })))
      → Reaches e Q h (read_job j)
  unfolding read_job fetched_job
  read_job-Reaches complete {h = h} j next =
      let (stored, read, outcome) = complete h _ in
      step (found stored) read (rw (outcome) (ends (next _)))

  pub job-Reaches :
      Completes e
      → {Q : History → Outcome JobResult → Type 0} {h : History} (j : Job)
      → ((g : History) → Q g (finished (record { success = true; failure = false; error = none })))
      → Reaches e Q h (reconcile_job j)
  unfolding reconcile_job
  job-Reaches complete {h = h} j next = elim (willing.jobs h j) [
    | inl new ↦ step (created j) new (read_job-Reaches complete j next)
    | inr old ↦ step exists old (read_job-Reaches complete j next)
  ]

-- The run finished, and the last call saved a status of the object with `Ready` set.
abbrev pub EndsReady : (k : Kind) {A : Type 0} → History → Outcome A → Type 0
EndsReady k h (finished a) =
    (o : Object k) × (g : History) × (h ≡ (update_status k o, written o) ∷ g)
    × (get_status_ready k o ≡ true)
EndsReady k h (halted x) = ⊥
EndsReady k h (panicked s) = ⊥

-- The object that a reference names, if there is one: it is ready, and it is found whenever it is read.
abbrev pub Available : Env → (k : Kind) → String → Option ObjectRef → Option (Object k) → Type 0
Available e k namespace none none = Unit
Available e k namespace (some ref) (some o) =
    (get_status_ready k o ≡ true)
    × ((h : History) → e h (get k (record { namespace = namespace; name = ref.name })) ≡ found o)
Available e k namespace none (some o) = ⊥
Available e k namespace (some ref) none = ⊥
