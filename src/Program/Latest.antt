-- ===== src/Program/Latest.antt =====
-- What the events so far have shown: the Job, Deployment and Pod last seen, the checksum last read,
-- and the events that happened.
use runbooks.Prelude.{String, Option, none, some, [], ◌∷◌}
use mathlib.Core.List.{Memᴰ}
use runbooks.Kube.{Job, Pod, Deployment}
use runbooks.Program.Calls.{
  ok, err, found, created, patched, get_job, create_job, get_pod, patch_pod, get_deployment,
  get_object_md5, Call, Answer, Event,
}
use runbooks.Program.Run.{History}

abbrev pub Happened : (c : Call) → Answer c → History → Type 0
Happened c a h = Memᴰ (let event : Event = (c, a) in event) h

abbrev pub see_job : (c : Call) → Answer c → Option Job → Option Job
see_job (get_job key) (found j) old = some j
see_job (create_job i) (created j) old = some j
see_job _ _ old = old

-- The Job as the API server last showed it.
abbrev pub latest_job : History → Option Job
latest_job [] = none
latest_job ((c, a) ∷ h) = see_job c a (latest_job h)

abbrev pub see_deployment : (c : Call) → Answer c → Option Deployment → Option Deployment
see_deployment (get_deployment key) (found d) old = some d
see_deployment _ _ old = old

abbrev pub latest_deployment : History → Option Deployment
latest_deployment [] = none
latest_deployment ((c, a) ∷ h) = see_deployment c a (latest_deployment h)

abbrev pub see_pod : (c : Call) → Answer c → Option Pod → Option Pod
see_pod (get_pod key) (found p) old = some p
see_pod (patch_pod q) (patched p) old = some p
see_pod _ _ old = old

abbrev pub latest_pod : History → Option Pod
latest_pod [] = none
latest_pod ((c, a) ∷ h) = see_pod c a (latest_pod h)

abbrev pub see_checksum : (c : Call) → Answer c → Option String → Option String
see_checksum (get_object_md5 r) (ok sum) old = some sum
see_checksum (get_object_md5 r) (err e) old = none
see_checksum _ _ old = old

-- The checksum of the stored file, where the last question for it was answered.
abbrev pub latest_checksum : History → Option String
latest_checksum [] = none
latest_checksum ((c, a) ∷ h) = see_checksum c a (latest_checksum h)
