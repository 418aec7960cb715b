-- ===== src/Controller/Build/Uploads.antt =====
-- `reconcileUploadFile` where the storage answers with the checksum of the upload.
use runbooks.Prelude.{String, ◌≡◌, refl, ◌==◌, Bool-cases, inl, inr}
use text.Mathlib.TextPositions.{eq_refl}
use runbooks.Program.{ok, get_object_md5, GetObjectMd5Request, History, Env, Outcome, finished}
use runbooks.Program.Reaches.{
  Reaches, ends, step, then-Reaches, else-Reaches, >>=-Reaches, or_stop-Reaches,
}
use runbooks.Library.{Library}
use runbooks.Api.{
  BuildUpload, UploadStatus, Kind, model, dataset, server, notebook, Object, get_status_upload,
}
use runbooks.Cloud.{
  Cloud, Common, BucketUrl, common_of, object_artifact_url, object_built_image_url,
}
use runbooks.Controller.Willing.{Willing, save_status-Reaches}
use runbooks.Controller.Build.Upload.{
  object_md5, storage_object_md5, mark_found, adopt, begin, verify, go_on, reconcile_upload_file,
}

-- The storage answers with the checksum whenever it is asked.
abbrev pub Holds : Env → String → Type 0
Holds e sum = (h : History) (r : GetObjectMd5Request) → e h (get_object_md5 r) ≡ ok sum

-- The status of the upload has no part in the image URL.
pub found_image_url :
    (L : Library) (cloud : Cloud) (k : Kind) (c : Common) (status : UploadStatus) (message : String)
    (o : Object k)
    → object_built_image_url c k (mark_found L cloud k status message o)
      ≡ object_built_image_url c k o
unfolding object_built_image_url mark_found
found_image_url L cloud model c status message o = refl
found_image_url L cloud dataset c status message o = refl
found_image_url L cloud server c status message o = refl
found_image_url L cloud notebook c status message o = refl

module _ (L : Library) (cloud : Cloud) (k : Kind) {e : Env} (willing : Willing e)
    (spec : BuildUpload) {Q : History → Outcome (Object k) → Type 0} (o : Object k)
    (next : (g : History) (status : UploadStatus) (message : String)
      → Q g (finished (mark_found L cloud k status message o))) where
  begin-Reaches : {h : History} → Reaches e Q h (begin L cloud k o spec (ok spec.md5_checksum))
  unfolding begin adopt
  begin-Reaches =
      then-Reaches _ _ (spec.md5_checksum == spec.md5_checksum) (eq_refl spec.md5_checksum)
        (save_status-Reaches willing k _ _ (next _ _ _))

  verify-Reaches : {h : History} → Reaches e Q h (verify L cloud k o spec (ok spec.md5_checksum))
  unfolding verify
  verify-Reaches =
      then-Reaches _ _ (spec.md5_checksum == spec.md5_checksum) (eq_refl spec.md5_checksum)
        (save_status-Reaches willing k _ _ (next _ _ _))

  go_on-Reaches : {h : History} → Reaches e Q h (go_on L cloud k o spec (ok spec.md5_checksum))
  unfolding go_on
  go_on-Reaches = elim (Bool-cases (spec.request_id == (get_status_upload k o).request_id)) [
    | inl answered ↦ then-Reaches _ _ _ answered verify-Reaches
    | inr fresh ↦ else-Reaches _ _ _ fresh begin-Reaches
  ]

  pub upload-Reaches :
      (u : BucketUrl)
      → object_artifact_url L (common_of cloud) k o ≡ ok u
      → Holds e spec.md5_checksum
      → {h : History} → Reaches e Q h (reconcile_upload_file L cloud k o spec)
  unfolding reconcile_upload_file storage_object_md5 object_md5
  upload-Reaches u artifacts stored = >>=-Reaches (
      >>=-Reaches (
        or_stop-Reaches _ u artifacts
          (step (ok spec.md5_checksum) (stored _ _) (ends go_on-Reaches))))
