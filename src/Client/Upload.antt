-- ===== src/Client/Upload.antt =====
-- `SetUploadContainerSpec`, `ClearImage`, `Upload` and `uploadTarball` of internal/client/upload.go.
use runbooks.Prelude.{ℕ, String, ◌<>◌, ◌==◌, eqb, if◌then◌else◌, Option, none, some, List, [], ◌∷◌}
use runbooks.Prelude.Hex.{hex_decode}
use runbooks.Prelude.Base64.{base64_encode}
use runbooks.Program.{Go, ok, err, panic}
use runbooks.Api.{
  Build, BuildUpload, UploadStatus, Kind, Object, get_build, set_build, set_image,
  get_status_upload,
}
use runbooks.Net.{Reader, HttpRequest}
use runbooks.Client.Tarball.{Tarball}

-- Each of the four kinds has the methods that the function asks for.
unfoldable pub set_upload_container_spec : (k : Kind) → Object k → Tarball → String → Object k
set_upload_container_spec k o tb request_id =
    set_build k
      (record {
        git = none;
        upload = some (record { md5_checksum = tb.md5_checksum; request_id = request_id });
      })
      o

unfoldable pub clear_image : (k : Kind) → Object k → Object k
clear_image k o = set_image k "" o

-- `watch.Event`; of an error, the message of its `metav1.Status`, if that is its object.
pub data WatchEvent (k : Kind) : Type 0 where
  added : Object k → WatchEvent k
  modified : Object k → WatchEvent k
  failed : Option String → WatchEvent k
  removed : WatchEvent k
  bookmark : WatchEvent k

-- How the loop over the events ends.
pub data Waited : Type 0 where
  present : Waited
  upload_to : String → Waited
  gave_up : String → Waited
  crashed : Waited

-- The test for a signed URL that answers the request of the spec; `next` is the rest of the loop.
abbrev pub signed_for : Option BuildUpload → UploadStatus → Waited → Waited
signed_for none status next = if status.signed_url == "" then next else crashed
signed_for (some spec) status next =
    if status.signed_url == ""
    then next
    else if status.request_id == spec.request_id
    then upload_to status.signed_url
    else next

abbrev pub observed : Tarball → Option Build → UploadStatus → Waited → Waited
observed tb none status next = crashed
observed tb (some b) status next =
    if status.stored_md5_checksum == tb.md5_checksum
    then present
    else signed_for b.upload status next

-- The loop of `Upload`. Where the channel is closed before, the URL is still empty.
unfoldable pub await_url : (k : Kind) → Tarball → List (WatchEvent k) → Waited
await_url k tb [] = upload_to ""
await_url k tb (added o ∷ rest) =
    observed tb (get_build k o) (get_status_upload k o) (await_url k tb rest)
await_url k tb (modified o ∷ rest) =
    observed tb (get_build k o) (get_status_upload k o) (await_url k tb rest)
await_url k tb (failed (some message) ∷ rest) = gave_up ("watch error occurred: " <> message)
await_url k tb (failed none ∷ rest) = gave_up "unknown watch error occurred"
await_url k tb (removed ∷ rest) = gave_up "object deleted before upload completed"
await_url k tb (bookmark ∷ rest) = gave_up "unhandled event type"

-- What the client reaches: files, the HTTP server behind the URLs, and the API server, whose state
-- is `S`.
pub record World (S : Type 0) : Type 0 where
  -- `os.Open` and `Stat`
  pub open_file : String → Go Reader
  -- `httpClient.Do`: the status of the answer
  pub send : HttpRequest → S → S × Go ℕ
  -- `Patch` of the annotation with the time
  pub touch : S → S × Go (Unit {0})

module _ {S : Type 0} (w : World S) where
  abbrev pub responded : S × Go ℕ → S × Go (Unit {0})
  responded (s, ok status) = (s, if eqb status 200 then ok tt else err "unexpected response status")
  responded (s, err e) = (s, err ("tar upload: " <> e))
  responded (s, panic e) = (s, panic e)

  unfoldable pub put_request : String → List ℕ → Reader → HttpRequest
  put_request url sum body = record {
    method = "PUT";
    url = url;
    content_type = "application/octet-stream";
    content_md5 = base64_encode sum;
    body = body;
  }

  abbrev pub with_file : String → List ℕ → Go Reader → S → S × Go (Unit {0})
  with_file url sum (ok body) s = responded (w.send (put_request url sum body) s)
  with_file url sum (err e) s = (s, err ("tar upload: " <> e))
  with_file url sum (panic e) s = (s, panic e)

  abbrev pub with_checksum : Tarball → String → Option (List ℕ) → S → S × Go (Unit {0})
  with_checksum tb url none s = (s, err "failed to decode hex checksum")
  with_checksum tb url (some sum) s = with_file url sum (w.open_file tb.path) s

  unfoldable pub upload_tarball : Tarball → String → S → S × Go (Unit {0})
  upload_tarball tb url s = with_checksum tb url (hex_decode tb.md5_checksum) s

  abbrev pub touched : S × Go (Unit {0}) → S × Go (Unit {0})
  touched (s, ok _) = (s, ok tt)
  touched (s, err e) = (s, err ("patching upload timestamp: " <> e))
  touched (s, panic e) = (s, panic e)

  abbrev pub after_upload : S × Go (Unit {0}) → S × Go (Unit {0})
  after_upload (s, ok _) = touched (w.touch s)
  after_upload (s, err e) = (s, err ("uploading tarball: " <> e))
  after_upload (s, panic e) = (s, panic e)

  unfoldable pub after_wait : Tarball → Waited → S → S × Go (Unit {0})
  after_wait tb present s = (s, ok tt)
  after_wait tb (upload_to url) s = after_upload (upload_tarball tb url s)
  after_wait tb (gave_up e) s = (s, err e)
  after_wait tb crashed s = (s, panic "invalid memory address or nil pointer dereference")

  -- `Upload`, given the watch, or the error that it was refused with.
  unfoldable pub upload : (k : Kind) → Tarball → Go (List (WatchEvent k)) → S → S × Go (Unit {0})
  upload k tb (ok events) s = after_wait tb (await_url k tb events) s
  upload k tb (err e) s = (s, err e)
  upload k tb (panic e) s = (s, panic e)
