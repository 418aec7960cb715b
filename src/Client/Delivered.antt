-- ===== src/Client/Delivered.antt =====
-- The upload of the client into the storage of a kind cluster.
use Prim.Native.Char.{Char}
use text.Mathlib.TextLemmas.{cons≢nil}
use text.Mathlib.TextEquality.{eq_iff}
use runbooks.Prelude.{
  ℕ, String, ◌<>◌, ◌≡◌, refl, sym, ap, ◌∙◌, ◌==◌, false, none, some, List, [], ◌∷◌, Bool-cases, inl,
  inr,
}
use runbooks.Prelude.Hex.{hex_encode, hex_decode-encode, AreBytes}
use runbooks.Prelude.Base64.{base64_encode, base64_decode-encode}
use runbooks.Prelude.FilePath.{clean}
use runbooks.Program.{Go, ok, err, panic, GetObjectMd5Request, CreateSignedUrlRequest}
use runbooks.Api.{Kind}
use runbooks.Net.{Reader, HttpRequest}
use runbooks.Cloud.Hashes.{slash}
use runbooks.Sci.Kind.Disk.{Disk, System}
use runbooks.Sci.Kind.Server.{
  Server, Request, checksum_file, serve_http, create_signed_url, get_object_md5,
}
use runbooks.Sci.Kind.Paths.{checksum_file-slash}
use runbooks.Sci.Kind.Stored.{offered, offered_sum, Writes}
use runbooks.Sci.Kind.Contract.{answers_offered, serve_http-status}
use runbooks.Client.Tarball.{Tarball}
use runbooks.Client.Upload.{
  WatchEvent, upload_to, World, put_request, responded, touched, after_upload, await_url,
  upload_tarball, after_wait, upload,
}

-- What the server reads of the request; `path_of` is the path of a URL.
abbrev pub delivered : (String → String) → HttpRequest → Request
delivered path_of r = record {
  method = r.method;
  path = path_of r.url;
  content_type = r.content_type;
  content_md5 = r.content_md5;
  body = r.body;
}

abbrev answered : Disk × ℕ → Disk × Go ℕ
answered (disk, status) = (disk, ok status)

-- A client whose requests reach the server.
abbrev pub connected :
    System → (String → String) → (String → Go Reader) → Go (Unit {0}) → World Disk
connected os path_of files patched = record {
  open_file = files;
  send = λ r disk. answered (serve_http os (delivered path_of r) disk);
  touch = λ disk. (disk, patched);
}

module _ (os : System) (steady : Writes os) (path_of : String → String) (files : String → Go Reader)
    (patched : Go (Unit {0})) where
  abbrev client : World Disk
  client = connected os path_of files patched

  not_empty : (c : Char) (s : String) → (String.◌∷◌ c s == "") ≡ false
  not_empty c s = elim (Bool-cases (String.◌∷◌ c s == "")) [
    | inl same ↦ absurd (cons≢nil ((eq_iff (String.◌∷◌ c s) "").0 same))
    | inr other ↦ other
  ]

  base64_encode-cons : (b : ℕ) (bs : List ℕ) → (base64_encode (b ∷ bs) == "") ≡ false
  unfolding base64_encode
  base64_encode-cons b [] = not_empty _ _
  base64_encode-cons b (c ∷ []) = not_empty _ _
  base64_encode-cons b (c ∷ d ∷ bs) = not_empty _ _

  offered-put :
      (url : String) (b : ℕ) (bs : List ℕ) (body : Reader)
      → AreBytes (b ∷ bs)
      → offered (delivered path_of (put_request client url (b ∷ bs) body))
        ≡ some (hex_encode (b ∷ bs))
  unfolding offered offered_sum put_request
  offered-put url b bs body bytes =
      rw (base64_encode-cons b bs) (rw (base64_decode-encode (b ∷ bs) bytes) refl)

  -- The server after the request of the upload.
  uploaded :
      (tb : Tarball) (url : String) (b : ℕ) (bs : List ℕ) (body : Reader) (disk : Disk)
      → AreBytes (b ∷ bs)
      → tb.md5_checksum ≡ hex_encode (b ∷ bs)
      → files tb.path ≡ ok body
      → upload_tarball client tb url disk
        ≡ responded client (
            answered
              (serve_http os (delivered path_of (put_request client url (b ∷ bs) body)) disk))
  unfolding upload_tarball
  uploaded tb url b bs body disk bytes sum file =
      rw (sum, hex_decode-encode (b ∷ bs) bytes, file) refl

  touched-disk : (disk : Disk) (p : Go (Unit {0})) → (touched client (disk, p)).0 ≡ disk
  touched-disk disk (ok _) = refl
  touched-disk disk (err e) = refl
  touched-disk disk (panic e) = refl

  after_upload-disk : (d : Disk × Go (Unit {0})) → (after_upload client d).0 ≡ d.0
  after_upload-disk (disk, ok _) = touched-disk disk patched
  after_upload-disk (disk, err e) = refl
  after_upload-disk (disk, panic e) = refl

  responded-disk : (d : Disk × ℕ) → (responded client (answered d)).0 ≡ d.0
  responded-disk (disk, status) = refl

  after_upload-ok :
      (d : Disk × ℕ)
      → d.1 ≡ 200
      → patched ≡ ok tt
      → (after_upload client (responded client (answered d))).1 ≡ ok tt
  after_upload-ok (disk, status) good patches = rw good (rw patches refl)

  -- The storage and the client's result after an upload whose loop has found the URL.
  delivers :
      (tb : Tarball) (url : String) (b : ℕ) (bs : List ℕ) (body : Reader) (disk : Disk)
      (q : GetObjectMd5Request)
      → AreBytes (b ∷ bs)
      → tb.md5_checksum ≡ hex_encode (b ∷ bs)
      → files tb.path ≡ ok body
      → body.ends_in ≡ none
      → os.closing (path_of url) ≡ none
      → patched ≡ ok tt
      → (clean (path_of url) == clean (checksum_file q.object_name)) ≡ false
      → checksum_file (path_of url) ≡ checksum_file q.object_name
      → (get_object_md5 q (after_upload client (upload_tarball client tb url disk)).0
          ≡ ok tb.md5_checksum)
        × ((after_upload client (upload_tarball client tb url disk)).1 ≡ ok tt)
  unfolding put_request
  delivers tb url b bs body disk q bytes sum file whole closes patches apart together =
      let r = delivered path_of (put_request client url (b ∷ bs) body) in
      let offers = offered-put url b bs body bytes in
      let puts = uploaded tb url b bs body disk bytes sum file in
      (
        ap (get_object_md5 q) (
              ap (λ d. (after_upload client d).0) puts
              ∙ (after_upload-disk (responded client (answered (serve_http os r disk)))
                  ∙ responded-disk (serve_http os r disk)))
            ∙ (answers_offered os steady r q (hex_encode (b ∷ bs)) disk offers apart
                  ((eq_iff _ _).1 (ap clean together))
                ∙ ap ok (sym sum)),
        ap (λ d. (after_upload client d).1) puts
            ∙ after_upload-ok (serve_http os r disk)
                (serve_http-status os steady r disk (hex_encode (b ∷ bs)) offers
                  ∙ rw whole (rw closes refl))
                patches,
      )

-- An upload to the URL that the server of a kind cluster signed for an object's name makes the server
-- answer with the tarball's checksum for that name, and the client succeeds: if the system writes what
-- it is asked to, the path of the URL is the name behind a slash, the name begins with a slash and is
-- not the one of its directory's checksum file, the checksum is one of bytes, at least one, in
-- hexadecimal, the tarball is opened and read to its end, the file is closed without an error, the
-- watch has given the client the URL, and the API server takes the annotation.
pub upload_reaches_storage :
    (os : System) (server : Server) (path_of : String → String) (files : String → Go Reader)
    → Writes os
    → (k : Kind) (events : List (WatchEvent k)) (tb : Tarball) (body : Reader) (b : ℕ) (bs : List ℕ)
      (t bucket : String) (ask : CreateSignedUrlRequest) (disk : Disk)
    → AreBytes (b ∷ bs)
    → tb.md5_checksum ≡ hex_encode (b ∷ bs)
    → files tb.path ≡ ok body
    → body.ends_in ≡ none
    → ask.object_name ≡ String.◌∷◌ slash t
    → path_of (create_signed_url server ask) ≡ "/" <> String.◌∷◌ slash t
    → os.closing ("/" <> String.◌∷◌ slash t) ≡ none
    → (clean ("/" <> String.◌∷◌ slash t) == clean (checksum_file (String.◌∷◌ slash t))) ≡ false
    → await_url k tb events ≡ upload_to (create_signed_url server ask)
    → (get_object_md5
          (record { bucket_name = bucket; object_name = ask.object_name })
          (upload (connected os path_of files (ok tt)) k tb (ok events) disk).0
        ≡ ok tb.md5_checksum)
      × ((upload (connected os path_of files (ok tt)) k tb (ok events) disk).1 ≡ ok tt)
unfolding upload after_wait
upload_reaches_storage os server path_of files steady k events tb body b bs t bucket ask disk bytes
      sum file whole named signed closes apart waited =
    rw waited (
      delivers os steady path_of files (ok tt) tb (create_signed_url server ask) b bs body disk
        (record { bucket_name = bucket; object_name = ask.object_name }) bytes sum file whole
        (rw signed closes) refl (rw signed (rw named apart))
        (ap checksum_file signed ∙ (checksum_file-slash t ∙ sym (ap checksum_file named))))
