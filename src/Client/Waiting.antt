-- ===== src/Client/Waiting.antt =====
-- The loop of `Upload` over the events of the watch, and the build controller that it waits for.
use text.Mathlib.TextPositions.{eq_refl}
use runbooks.Prelude.{
  ℕ, String, ◌≡◌, refl, ap, ◌==◌, if◌then◌else◌, ◌⊎◌, inl, inr, Bool, true, false, Option, none,
  some, List, [], ◌∷◌,
}
use runbooks.Api.{
  Build, BuildUpload, UploadStatus, Kind, model, dataset, server, notebook, Object, get_build,
  get_status_upload,
}
use runbooks.Library.{Library}
use runbooks.Cloud.{Cloud}
use runbooks.Controller.Build.{mark_awaiting}
use runbooks.Client.Tarball.{Tarball}
use runbooks.Client.Upload.{
  WatchEvent, added, modified, failed, removed, bookmark, Waited, present, upload_to, gave_up,
  crashed, signed_for, observed, await_url,
}

-- The status has the URL, for the request of the spec, and the file is not there yet.
abbrev pub Signs : Tarball → String → Option Build → UploadStatus → Type 0
Signs tb url none status = ⊥
Signs tb url (some b) status =
    (spec : BuildUpload) × (b.upload ≡ some spec)
    × ((status.stored_md5_checksum == tb.md5_checksum) ≡ false)
    × ((status.request_id == spec.request_id) ≡ true)
    × (status.signed_url ≡ url)

-- An event of the list shows an object that signs the URL.
abbrev pub ShowsUrl : (k : Kind) → Tarball → String → List (WatchEvent k) → Type 0
ShowsUrl k tb url [] = ⊥
ShowsUrl k tb url (added o ∷ rest) =
    Signs tb url (get_build k o) (get_status_upload k o) ⊎ ShowsUrl k tb url rest
ShowsUrl k tb url (modified o ∷ rest) =
    Signs tb url (get_build k o) (get_status_upload k o) ⊎ ShowsUrl k tb url rest
ShowsUrl k tb url (failed e ∷ rest) = ⊥
ShowsUrl k tb url (removed ∷ rest) = ⊥
ShowsUrl k tb url (bookmark ∷ rest) = ⊥

to_of : Waited → String
to_of (upload_to url) = url
to_of present = ""
to_of (gave_up e) = ""
to_of crashed = ""

same_url : (u v : String) → upload_to u ≡ upload_to v → u ≡ v
unfolding to_of
same_url u v e = ap to_of e

signed_url :
    (unsigned same : Bool) (signed : String) (next : Waited) (url : String)
    → ◌≡◌ {A = Waited}
        (if unsigned then next else if same then upload_to signed else next)
        (upload_to url)
    → ((same ≡ true) × (signed ≡ url)) ⊎ (next ≡ upload_to url)
signed_url true same signed next url found = inr found
signed_url false true signed next url found = inl (refl, same_url signed url found)
signed_url false false signed next url found = inr found

not_crashed :
    (unsigned : Bool) (next : Waited) (url : String)
    → ◌≡◌ {A = Waited} (if unsigned then next else crashed) (upload_to url)
    → next ≡ upload_to url
not_crashed true next url found = found
not_crashed false next url found = cc

not_present :
    (stored : Bool) (next : Waited) (url : String)
    → ◌≡◌ {A = Waited} (if stored then present else next) (upload_to url)
    → (stored ≡ false) × (next ≡ upload_to url)
not_present true next url found = cc
not_present false next url found = (refl, found)

signed_for-Signs :
    (tb : Tarball) (b : Build) (o : Option BuildUpload) (status : UploadStatus) (next : Waited)
    (url : String)
    → b.upload ≡ o
    → (status.stored_md5_checksum == tb.md5_checksum) ≡ false
    → signed_for o status next ≡ upload_to url
    → Signs tb url (some b) status ⊎ (next ≡ upload_to url)
signed_for-Signs tb b none status next url asked missing found =
    inr (not_crashed (status.signed_url == "") next url found)
signed_for-Signs tb b (some spec) status next url asked missing found =
    elim (signed_url (status.signed_url == "") (status.request_id == spec.request_id)
      status.signed_url next url found) [
        | inl (same, signed) ↦ inl (spec, asked, missing, same, signed)
        | inr later ↦ inr later
      ]

observed-Signs :
    (tb : Tarball) (o : Option Build) (status : UploadStatus) (next : Waited) (url : String)
    → observed tb o status next ≡ upload_to url
    → Signs tb url o status ⊎ (next ≡ upload_to url)
observed-Signs tb none status next url found = cc
observed-Signs tb (some b) status next url found =
    let (missing, further) =
      not_present (status.stored_md5_checksum == tb.md5_checksum) (signed_for b.upload status next)
        url found in
    signed_for-Signs tb b b.upload status next url refl missing further

shown_or_later :
    (k : Kind) (tb : Tarball) (url : String) (o : Object k) (rest : List (WatchEvent k))
    → Signs tb url (get_build k o) (get_status_upload k o) ⊎ (await_url k tb rest ≡ upload_to url)
    → (await_url k tb rest ≡ upload_to url → ShowsUrl k tb url rest)
    → Signs tb url (get_build k o) (get_status_upload k o) ⊎ ShowsUrl k tb url rest
shown_or_later k tb url o rest (inl shown) later = inl shown
shown_or_later k tb url o rest (inr found) later = inr (later found)

-- The loop goes on to upload to a URL that is not empty only if an event showed an object whose status
-- has that URL for the request of its spec, and does not have the tarball's checksum yet.
pub await_url-ShowsUrl :
    (k : Kind) (tb : Tarball) (url : String) (events : List (WatchEvent k))
    → (url == "") ≡ false
    → await_url k tb events ≡ upload_to url
    → ShowsUrl k tb url events
unfolding await_url
await_url-ShowsUrl k tb url [] real found =
    let same : (true ≡ (url == "")) = ap (λ u. u == "") (same_url "" url found) in cc
await_url-ShowsUrl k tb url (added o ∷ rest) real found =
    shown_or_later k tb url o rest
      (observed-Signs tb (get_build k o) (get_status_upload k o) _ url found)
      (await_url-ShowsUrl k tb url rest real)
await_url-ShowsUrl k tb url (modified o ∷ rest) real found =
    shown_or_later k tb url o rest
      (observed-Signs tb (get_build k o) (get_status_upload k o) _ url found)
      (await_url-ShowsUrl k tb url rest real)
await_url-ShowsUrl k tb url (failed none ∷ rest) real found = cc
await_url-ShowsUrl k tb url (failed (some e) ∷ rest) real found = cc
await_url-ShowsUrl k tb url (removed ∷ rest) real found = cc
await_url-ShowsUrl k tb url (bookmark ∷ rest) real found = cc

waiting-build :
    (L : Library) (cloud : Cloud) (k : Kind) (spec : BuildUpload) (url : String) (expiration : ℕ)
    (o : Object k)
    → get_build k (mark_awaiting L cloud k spec url expiration o) ≡ get_build k o
unfolding mark_awaiting
waiting-build L cloud model spec url expiration o = refl
waiting-build L cloud dataset spec url expiration o = refl
waiting-build L cloud server spec url expiration o = refl
waiting-build L cloud notebook spec url expiration o = refl

waiting-upload :
    (L : Library) (cloud : Cloud) (k : Kind) (spec : BuildUpload) (url : String) (expiration : ℕ)
    (o : Object k)
    → get_status_upload k (mark_awaiting L cloud k spec url expiration o) ≡ record {
      signed_url = url;
      request_id = spec.request_id;
      expiration = expiration;
      stored_md5_checksum = "";
    }
unfolding mark_awaiting
waiting-upload L cloud model spec url expiration o = refl
waiting-upload L cloud dataset spec url expiration o = refl
waiting-upload L cloud server spec url expiration o = refl
waiting-upload L cloud notebook spec url expiration o = refl

-- Once the build controller has saved the status with which it waits for an upload, the client that
-- sees the object uploads to the URL of that status, if the object's build is the upload that the
-- controller read, and neither the URL nor the tarball's checksum is empty.
pub awaited_is_uploaded :
    (L : Library) (cloud : Cloud) (k : Kind) (tb : Tarball) (o : Object k) (b : Build)
    (spec : BuildUpload) (url : String) (expiration : ℕ) (rest : List (WatchEvent k))
    → get_build k o ≡ some b
    → b.upload ≡ some spec
    → (url == "") ≡ false
    → ("" == tb.md5_checksum) ≡ false
    → await_url k tb (modified (mark_awaiting L cloud k spec url expiration o) ∷ rest)
      ≡ upload_to url
unfolding await_url
awaited_is_uploaded L cloud k tb o b spec url expiration rest build asked real summed =
    rw
      (
        waiting-build L cloud k spec url expiration o,
        waiting-upload L cloud k spec url expiration o,
      )
      (rw build (rw summed (rw asked (rw real (rw (eq_refl spec.request_id) refl)))))
