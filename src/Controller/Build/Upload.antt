-- ===== src/Controller/Build/Upload.antt =====
-- `reconcileUploadFile`, `storageObjectMd5` and `generateSignedURL`.
use runbooks.Prelude.{ℕ, ◌+◌, String, ◌<>◌, ◌==◌, if◌then◌else◌, true, false}
use runbooks.Prelude.FilePath.{join_path}
use runbooks.Program.{
  Go, ok, err, panic, get_object_md5, create_signed_url, now, Program, ret, crash, ◌>>=◌, perform,
  fail, stop, or_stop,
}
use runbooks.Library.{Library}
use runbooks.Api.{BuildUpload, UploadStatus, Kind, Object, get_status_upload, set_status_upload}
use runbooks.Api.Reason
use runbooks.Cloud.{BucketUrl, Cloud, common_of, object_artifact_url, show_bucket_url}
use runbooks.Controller.Shared.{save_status, set_condition}
use runbooks.Controller.Build.Jobs.{latest_upload_path}

abbrev pub expiration_seconds : ℕ
expiration_seconds = 300

module _ (L : Library) (cloud : Cloud) where
  unfoldable pub object_md5 : BucketUrl → Program (Go String)
  unfolding ◌>>=◌
  object_md5 u = do
    answer ← perform (
        get_object_md5
          (record { bucket_name = u.bucket; object_name = join_path u.path latest_upload_path }))
    elim answer [
      | ok sum ↦ ret (ok sum)
      | err e ↦ ret (err ("calling the sci service to GetObjectMd5: " <> e))
      | panic s ↦ crash s
    ]

  -- `storageObjectMd5`: the artifact URL is a value or a panic, never an error.
  unfoldable pub storage_object_md5 : (k : Kind) → Object k → Program (Go String)
  unfolding ◌>>=◌ object_md5
  storage_object_md5 k o = do
    u ← or_stop (object_artifact_url L (common_of cloud) k o)
    object_md5 u

  -- `generateSignedURL`, with the caller's wrapping of its error.
  unfoldable pub generate_signed_url : (k : Kind) → Object k → BuildUpload → Program (String × ℕ)
  unfolding ◌>>=◌
  generate_signed_url k o spec = do
    u ← or_stop (object_artifact_url L (common_of cloud) k o)
    time ← perform now
    answer ← perform (
        create_signed_url (record {
          bucket_name = u.bucket;
          object_name = join_path u.path latest_upload_path;
          expiration_seconds = expiration_seconds;
          md5_checksum = spec.md5_checksum;
        }))
    elim answer [
      | ok url ↦ ret (url, time + expiration_seconds)
      | err e ↦ fail (
          "generating upload url for object "
          <> (show_bucket_url u <> (": calling the sci service to CreateSignedURL: " <> e)))
      | panic s ↦ crash s
    ]

  -- The checksum of the first call, whose error is dropped.
  abbrev pub checksum_or_empty : Go String → String
  checksum_or_empty (ok sum) = sum
  checksum_or_empty (err e) = ""
  checksum_or_empty (panic s) = ""

  -- The status, once the file of the wanted checksum is there.
  unfoldable pub mark_found : (k : Kind) → UploadStatus → String → Object k → Object k
  mark_found k status message o =
      set_condition L k Reason.uploaded true Reason.upload_found message
        (set_status_upload k status o)

  unfoldable pub adopt : (k : Kind) → Object k → BuildUpload → Program (Object k)
  unfolding mark_found
  adopt k o spec = save_status "updating status" k (
      mark_found k
        (record {
          signed_url = "";
          request_id = "";
          expiration = 0;
          stored_md5_checksum = spec.md5_checksum;
        })
        ("Existing upload found in storage with specified checksum: " <> spec.md5_checksum) o)

  -- The status that tells the client where to upload to.
  unfoldable pub mark_awaiting : (k : Kind) → BuildUpload → String → ℕ → Object k → Object k
  mark_awaiting k spec url expiration o =
      set_condition L k Reason.uploaded false Reason.awaiting_upload
        ("Waiting for upload with md5 checksum: " <> spec.md5_checksum)
        (set_status_upload k
          (record {
            signed_url = url;
            request_id = spec.request_id;
            expiration = expiration;
            stored_md5_checksum = "";
          })
          o)

  -- The client gets the signed URL, and is waited for.
  unfoldable pub await_upload :
      (k : Kind) → Object k → BuildUpload → String × ℕ → Program (Object k)
  unfolding ◌>>=◌ mark_awaiting
  await_upload k o spec (url, expiration) = do
    stored ← save_status "updating status" k (mark_awaiting k spec url expiration o)
    stop

  unfoldable pub request_upload : (k : Kind) → Object k → BuildUpload → Program (Object k)
  unfolding ◌>>=◌ await_upload
  request_upload k o spec = do signed ← generate_signed_url k o spec; await_upload k o spec signed

  unfoldable pub begin : (k : Kind) → Object k → BuildUpload → Go String → Program (Object k)
  unfolding adopt request_upload
  begin k o spec existing =
      if checksum_or_empty existing == spec.md5_checksum
      then adopt k o spec
      else request_upload k o spec

  -- The request is answered: the file has to be there.
  unfoldable pub verify : (k : Kind) → Object k → BuildUpload → Go String → Program (Object k)
  unfolding mark_found
  verify k o spec (err e) = fail ("getting storage object md5: " <> e)
  verify k o spec (panic s) = crash s
  verify k o spec (ok sum) =
      if sum == spec.md5_checksum
      then save_status "updating status" k (
          mark_found k
            (record {
              signed_url = "";
              request_id = spec.request_id;
              expiration = 0;
              stored_md5_checksum = sum;
            })
            ("Upload received with matching md5 checksum: " <> spec.md5_checksum) o)
      else stop

  unfoldable pub go_on : (k : Kind) → Object k → BuildUpload → Go String → Program (Object k)
  unfolding begin verify
  go_on k o spec sum =
      if spec.request_id == (get_status_upload k o).request_id
      then verify k o spec sum
      else begin k o spec sum

  -- Both parts of the function begin with the checksum in storage.
  unfoldable pub reconcile_upload_file : (k : Kind) → Object k → BuildUpload → Program (Object k)
  unfolding ◌>>=◌ go_on
  reconcile_upload_file k o spec = do sum ← storage_object_md5 k o; go_on k o spec sum
