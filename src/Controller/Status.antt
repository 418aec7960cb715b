-- ===== src/Controller/Status.antt =====
-- utils.go: what a Job and a Pod report, and `reconcileJob`.
use runbooks.Prelude.{
  String, ◌<>◌, ◌==◌, if◌then◌else◌, Bool, true, false, ◌&&◌, Option, none, some, List, [], ◌∷◌,
}
use runbooks.Kube.{Key, ObjectMeta, StatusCondition, Job, Pod}
use runbooks.Program.{
  Fetch, found, missing, fetch_error, created, exists, create_error, get_job, create_job, Program,
  ret, ◌>>=◌, perform,
}

-- The struct `result`, with the error returned beside it. Its embedded `ctrl.Result` is the zero
-- value wherever the package makes one.
pub record JobResult : Type 0 where
  pub success : Bool
  pub failure : Bool
  pub error : Option String

-- The condition has the type and is "True".
abbrev pub holds : String → StatusCondition → Bool
holds type c = c.type == type && c.status == "True"

-- `jobResult`: `complete` and `failed`, from the first condition that is one of the two.
unfoldable pub job_result : List StatusCondition → Bool × Bool
job_result [] = (false, false)
job_result (c ∷ cs) =
    let rest = job_result cs in
    if holds "Complete" c then (true, false) else if holds "Failed" c then (false, true) else rest

-- The loop of `isPodReady`.
unfoldable pub any_ready : List StatusCondition → Bool
any_ready [] = false
any_ready (c ∷ cs) = let rest = any_ready cs in if holds "Ready" c then true else rest

unfoldable pub is_pod_ready : Pod → Bool
unfolding any_ready
is_pod_ready p = if p.phase == "Running" then any_ready p.conditions else false

-- `client.ObjectKeyFromObject`
abbrev pub key_of : ObjectMeta → Key
key_of m = record { name = m.name; namespace = m.namespace }

abbrev pub job_error : String → JobResult
job_error e = record { success = false; failure = false; error = some e }

abbrev pub job_outcome : Bool × Bool → JobResult
job_outcome (complete, failed) = record { success = complete; failure = failed; error = none }

-- The second part of `reconcileJob`: the Job is read back.
unfoldable pub fetched_job : Fetch Job → Program JobResult
fetched_job (found j) = ret (job_outcome (job_result j.conditions))
fetched_job missing = ret (job_error "geting Job: not found")
fetched_job (fetch_error e) = ret (job_error ("geting Job: " <> e))

unfoldable pub read_job : Job → Program JobResult
unfolding ◌>>=◌ fetched_job
read_job j = do answer ← perform (get_job (key_of j.metadata)); fetched_job answer

-- A Job that exists already is no error.
unfoldable pub reconcile_job : Job → Program JobResult
unfolding read_job ◌>>=◌
reconcile_job j = do
  answer ← perform (create_job j)
  elim answer [
    | created stored ↦ read_job stored
    | exists ↦ read_job j
    | create_error e ↦ ret (job_error ("creating Job: " <> e))
  ]
