-- ===== src/Controller/Build/Calls.antt =====
-- The calls that the upload handshake makes.
use runbooks.Prelude.{String, refl, ◌==◌, ltb}
use runbooks.Kube.{Job}
use runbooks.Program.{Go, ok, err, panic, written, write_error}
use runbooks.Program.Only.{
  Only, done, ask, stops, dies, >>=-Only, or_stop-Only, if-Only, hands_over, publishes,
}
use runbooks.Library.{Library}
use runbooks.Api.{Kind, Object, BuildUpload, get_status_upload}
use runbooks.Cloud.{Cloud, common_of, object_artifact_url}
use runbooks.Controller.Sorts.{save_status-Only}
use runbooks.Controller.Build.Upload.{
  storage_object_md5, generate_signed_url, begin, verify, checksum_or_empty, reconcile_upload_file,
}
use runbooks.Controller.Build.Reconcile.{finish}

module _ (L : Library) (cloud : Cloud) (k : Kind) where
  storage_object_md5-Only : (o : Object k) → Only hands_over (storage_object_md5 L cloud k o)
  unfolding storage_object_md5
  storage_object_md5-Only o =
      >>=-Only (or_stop-Only (object_artifact_url L (common_of cloud) k o))
        (λ u. ask refl (elim [ ok sum ↦ done | err e ↦ done | panic s ↦ dies ]))

  pub generate_signed_url-Only :
      (o : Object k) (spec : BuildUpload) → Only hands_over (generate_signed_url L cloud k o spec)
  unfolding generate_signed_url
  generate_signed_url-Only o spec =
      >>=-Only (or_stop-Only (object_artifact_url L (common_of cloud) k o))
        (λ u. ask refl (λ time. ask refl (elim [ ok url ↦ done | err e ↦ stops | panic s ↦ dies ])))

  begin-Only :
      (o : Object k) (spec : BuildUpload) (sum : Go String)
      → Only hands_over (begin L cloud k o spec sum)
  unfolding begin
  begin-Only o spec sum =
      if-Only (checksum_or_empty L cloud sum == spec.md5_checksum) (save_status-Only _ k _ refl) (
        >>=-Only (generate_signed_url-Only o spec)
          (λ signed. >>=-Only (save_status-Only _ k _ refl) (λ stored. stops)))

  verify-Only :
      (o : Object k) (spec : BuildUpload) (sum : Go String)
      → Only hands_over (verify L cloud k o spec sum)
  unfolding verify
  verify-Only o spec (ok sum) =
      if-Only (sum == spec.md5_checksum) (save_status-Only _ k _ refl) stops
  verify-Only o spec (err e) = stops
  verify-Only o spec (panic s) = dies

  pub reconcile_upload_file-Only :
      (o : Object k) (spec : BuildUpload) → Only hands_over (reconcile_upload_file L cloud k o spec)
  unfolding reconcile_upload_file
  reconcile_upload_file-Only o spec = >>=-Only (storage_object_md5-Only o) (λ sum.
      if-Only (spec.request_id == (get_status_upload k o).request_id) (verify-Only o spec sum)
        (begin-Only o spec sum))

  pub finish-Only :
      (o : Object k) (image : String) (j : Job) → Only publishes (finish L cloud k o image j)
  unfolding finish
  finish-Only o image j =
      if-Only (ltb j.succeeded 1) (>>=-Only (save_status-Only _ k _ refl) (λ stored. stops)) (
        ask refl (elim [
          | written stored ↦ >>=-Only (save_status-Only _ k _ refl) (λ again. done)
          | write_error e ↦ stops
        ]))
