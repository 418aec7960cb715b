-- ===== src/Sci/Kind/Contract.antt =====
-- The storage as a store of checksums: sequences of requests, and requests that fail.
use text.Mathlib.TextPositions.{eq_refl}
use runbooks.Prelude.{
  arith, ◌&&◌, not, ℕ, String, ◌≡◌, refl, ◌==◌, Bool, true, false, if◌then◌else◌, Option, none,
  some, List, [], ◌∷◌, ap, ◌∙◌,
}
use runbooks.Prelude.Base64.{base64_decode}
use runbooks.Prelude.FilePath.{clean, dir}
use runbooks.Program.{Go, ok, GetObjectMd5Request}
use runbooks.Sci.Kind.Disk.{Disk, System, write_file}
use runbooks.Sci.Kind.Server.{
  Request, checksum_file, first_error, status_of, with_sum, serve_http, get_object_md5, save_upload,
  copy_body,
}
use runbooks.Sci.Kind.Stored.{offered_sum, offered, remembered, Writes, serve_http-remembered}

-- The server over a sequence of requests.
unfoldable pub serve_all : System → List Request → Disk → Disk
serve_all os [] disk = disk
serve_all os (r ∷ rest) disk = serve_all os rest (serve_http os r disk).0

-- The abstract store over the same requests.
unfoldable pub remember_all : List Request → GetObjectMd5Request → Go String → Go String
remember_all [] q before = before
remember_all (r ∷ rest) q before = remember_all rest q (
    remembered (offered r) (clean (checksum_file r.path) == clean (checksum_file q.object_name))
      before)

-- No request writes its body over the checksum of the name.
abbrev pub Apart : GetObjectMd5Request → List Request → Type 0
Apart q [] = Unit
Apart q (r ∷ rest) = ((clean r.path == clean (checksum_file q.object_name)) ≡ false) × Apart q rest

-- On a system that writes what it is asked to, after any sequence of requests of which none writes
-- its body over the checksum file of a name, the server answers for the name as the abstract store
-- does: with the checksum that was offered last in the name's directory, and as before if there was
-- none.
pub serve_all-refines :
    (os : System)
    → Writes os
    → (q : GetObjectMd5Request) (rs : List Request) (disk : Disk) → Apart q rs
    → get_object_md5 q (serve_all os rs disk) ≡ remember_all rs q (get_object_md5 q disk)
unfolding serve_all remember_all
serve_all-refines os steady q [] disk apart = refl
serve_all-refines os steady q (r ∷ rs) disk (first, rest) =
    serve_all-refines os steady q rs (serve_http os r disk).0 rest
    ∙ ap (remember_all rs q) (serve_http-remembered os steady r q disk first)

status_of_400 :
    (d : Disk × Option String) (disk : Disk) → (status_of d).1 ≡ 400 → (status_of d).0 ≡ disk
status_of_400 (d, none) disk bad = absurd (omega (arith, bad))
status_of_400 (d, some e) disk bad = absurd (omega (arith, bad))

with_sum_400 :
    (os : System) (r : Request) (disk : Disk) (raw : Option (List ℕ))
    → (with_sum os r disk raw).1 ≡ 400
    → (with_sum os r disk raw).0 ≡ disk
unfolding with_sum
with_sum_400 os r disk none bad = refl
with_sum_400 os r disk (some raw) bad = status_of_400 _ disk bad

answered_400 :
    (is_put octet unsummed : Bool) (d : Disk × ℕ) (disk : Disk)
    → (d.1 ≡ 400 → d.0 ≡ disk)
    → (if is_put
        then (if octet then (if unsummed then (disk, 400) else d) else (disk, 400))
        else (disk, 200)).1
      ≡ 400
    → (if is_put
        then (if octet then (if unsummed then (disk, 400) else d) else (disk, 400))
        else (disk, 200)).0
      ≡ disk
answered_400 false octet unsummed d disk kept bad = refl
answered_400 true false unsummed d disk kept bad = refl
answered_400 true true true d disk kept bad = refl
answered_400 true true false d disk kept bad = kept bad

-- The answer for the name of the upload itself.
pub answers_offered :
    (os : System)
    → Writes os
    → (r : Request) (q : GetObjectMd5Request) (md5 : String) (disk : Disk) → offered r ≡ some md5
    → (clean r.path == clean (checksum_file q.object_name)) ≡ false
    → (clean (checksum_file r.path) == clean (checksum_file q.object_name)) ≡ true
    → get_object_md5 q (serve_http os r disk).0 ≡ ok md5
answers_offered os steady r q md5 disk offers apart together =
    serve_http-remembered os steady r q disk apart ∙ rw offers (rw together refl)

-- A request that is answered with 400 leaves every file as it was, whatever the system refuses.
pub rejected_unchanged :
    (os : System) (r : Request) (disk : Disk)
    → (serve_http os r disk).1 ≡ 400
    → (serve_http os r disk).0 ≡ disk
unfolding serve_http
rejected_unchanged os r disk bad =
    answered_400 (r.method == "PUT") (r.content_type == "application/octet-stream")
      (r.content_md5 == "") (with_sum os r disk (base64_decode r.content_md5)) disk
      (with_sum_400 os r disk (base64_decode r.content_md5)) bad

abbrev pub status_code : Option String → ℕ
status_code none = 200
status_code (some e) = 500

status_of-code : (disk : Disk) (e : Option String) → (status_of (disk, e)).1 ≡ status_code e
status_of-code disk none = refl
status_of-code disk (some e) = refl

saved_status :
    (os : System)
    → Writes os
    → (is_put octet unsummed : Bool) (raw : Option (List ℕ)) (r : Request) (disk : Disk)
      (md5 : String)
    → (if is_put && octet && not unsummed then offered_sum raw else none) ≡ some md5
    → (if is_put
        then (if octet
            then (if unsummed then (disk, 400) else with_sum os r disk raw)
            else (disk, 400))
        else (disk, 200)).1
      ≡ status_code (first_error r.body.ends_in (os.closing r.path))
unfolding with_sum save_upload write_file copy_body offered_sum
saved_status os steady true true false (some raw) r disk md5 offers =
    rw (save_upload, steady.makes (dir r.path))
      (rw (write_file, steady.writes (checksum_file r.path))
        (rw (copy_body, steady.writes r.path) (status_of-code _ _)))
saved_status os steady true true false none r disk md5 offers = cc
saved_status os steady true true true raw r disk md5 offers = cc
saved_status os steady true false unsummed raw r disk md5 offers = cc
saved_status os steady false octet unsummed raw r disk md5 offers = cc

-- The status of the answer to an upload whose checksum the server takes.
pub serve_http-status :
    (os : System)
    → Writes os
    → (r : Request) (disk : Disk) (md5 : String) → offered r ≡ some md5
    → (serve_http os r disk).1 ≡ status_code (first_error r.body.ends_in (os.closing r.path))
unfolding serve_http offered
serve_http-status os steady r disk md5 offers =
    saved_status os steady (r.method == "PUT") (r.content_type == "application/octet-stream")
      (r.content_md5 == "") (base64_decode r.content_md5) r disk md5 offers

-- If the body of an upload breaks off, the client gets the status 500 and the storage still answers
-- with the checksum that was offered, on a system that writes what it is asked to, if the file of the
-- upload is not the one of the checksum.
pub broken_upload_counts :
    (os : System)
    → Writes os
    → (r : Request) (bucket md5 e : String) (disk : Disk) → r.body.ends_in ≡ some e
    → offered r ≡ some md5
    → (clean r.path == clean (checksum_file r.path)) ≡ false
    → ((serve_http os r disk).1 ≡ 500)
      × (get_object_md5
            (record { bucket_name = bucket; object_name = r.path })
            (serve_http os r disk).0
          ≡ ok md5)
broken_upload_counts os steady r bucket md5 e disk broken offers apart = (
  serve_http-status os steady r disk md5 offers ∙ rw broken refl,
  answers_offered os steady r (record { bucket_name = bucket; object_name = r.path }) md5 disk
      offers apart (eq_refl (clean (checksum_file r.path))),
)
