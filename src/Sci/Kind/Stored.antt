-- ===== src/Sci/Kind/Stored.antt =====
-- What the storage answers after a request, in terms of an abstract store: the checksum of the last
-- upload that was offered, for each directory.
use runbooks.Prelude.{
  ℕ, ◌/◌, ◌%◌, ◌<◌, String, ◌≡◌, refl, ◌==◌, Bool, not, ◌&&◌, ap, ◌∙◌, if◌then◌else◌, true, false,
  Option, none, some, List, [], ◌∷◌, arith,
}
use runbooks.Prelude.Hex.{chr, code-chr, hex_code, hex_encode, AreBytes}
use runbooks.Prelude.Base64.{base64_decode, AreDecoded, base64_decode-AreDecoded}
use runbooks.Prelude.Dict.{insert, lookup-insert}
use runbooks.Prelude.FilePath.{clean, dir}
use runbooks.Program.{Go, ok, GetObjectMd5Request}
use runbooks.Net.{Reader}
use runbooks.Sci.Kind.Disk.{Disk, done, System, contents_at, put, write_file, read_file}
use runbooks.Sci.Kind.Server.{
  Request, checksum_file, copy_body, save_upload, status_of, with_sum, serve_http, trimmed,
  get_object_md5,
}
use runbooks.Controller.Env.{is_space, trim_space}
use runbooks.Controller.Env.Trim.{NoSpace, trim_space-NoSpace}

hex_code-is_space : (n : ℕ) → n < 16 → is_space (chr (hex_code n)) ≡ false
unfolding is_space
hex_code-is_space n small = rw (code-chr (hex_code n) (ground arith)) (ground arith)

hex_encode-NoSpace : (bs : List ℕ) → AreBytes bs → NoSpace (hex_encode bs)
unfolding hex_encode
hex_encode-NoSpace [] bytes = tt
hex_encode-NoSpace (b ∷ bs) (byte, bytes) = (
  hex_code-is_space (b / 16) (omega arith),
  (hex_code-is_space (b % 16) (omega arith), hex_encode-NoSpace bs bytes),
)

-- The checksum that a request offers: one that the server can take.
unfoldable pub offered_sum : Option (List ℕ) → Option String
offered_sum none = none
offered_sum (some raw) = some (hex_encode raw)

unfoldable pub offered : Request → Option String
unfolding offered_sum
offered r =
    if r.method == "PUT"
      && r.content_type == "application/octet-stream"
      && not (r.content_md5 == "")
    then offered_sum (base64_decode r.content_md5)
    else none

-- The abstract store: the checksum that a name finds, once a request has offered another.
abbrev pub remembered : Option String → Bool → Go String → Go String
remembered none same_place before = before
remembered (some sum) same_place before = if same_place then ok sum else before

trimmed_if :
    (same_place : Bool) (o : Option String) (path md5 : String)
    → trim_space md5 ≡ md5
    → trimmed (contents_at path (if same_place then some md5 else o))
      ≡ (if same_place then ok md5 else trimmed (contents_at path o))
trimmed_if true o path md5 trim = ap ok trim
trimmed_if false o path md5 trim = refl

abbrev pub AreTrimmed : Option String → Type 0
AreTrimmed none = Unit
AreTrimmed (some md5) = trim_space md5 ≡ md5

-- The system makes each directory and writes each file.
pub record Writes (os : System) : Type 0 where
  pub makes : (path : String) → os.mkdir_all path ≡ none
  pub writes : (path : String) → os.writing path ≡ done

module _ (os : System) (steady : Writes os) where
  copy_body-disk :
      (path : String) (r : Reader) (disk : Disk)
      → (copy_body os path r disk).0 ≡ put path r.contents disk
  unfolding copy_body
  copy_body-disk path r disk = rw (copy_body, steady.writes path) refl

  save_upload-disk :
      (r : Reader) (path md5 : String) (disk : Disk)
      → (save_upload os r path md5 disk).0 ≡ put path r.contents (put (checksum_file path) md5 disk)
  unfolding save_upload write_file
  save_upload-disk r path md5 disk =
      rw (save_upload, steady.makes (dir path))
        (rw (write_file, steady.writes (checksum_file path))
          (copy_body-disk path r (put (checksum_file path) md5 disk)))

  -- The files after an offered checksum.
  abbrev with_offer : Option String → Request → Disk → Disk
  with_offer none r disk = disk
  with_offer (some md5) r disk = put r.path r.body.contents (put (checksum_file r.path) md5 disk)

  status_of-disk : (d : Disk × Option String) → (status_of d).0 ≡ d.0
  status_of-disk (disk, none) = refl
  status_of-disk (disk, some e) = refl

  answered-disk :
      (is_put octet unsummed : Bool) (raw : Option (List ℕ)) (r : Request) (disk : Disk)
      → (if is_put
          then (if octet
              then (if unsummed then (disk, 400) else with_sum os r disk raw)
              else (disk, 400))
          else (disk, 200)).0
        ≡ with_offer (if is_put && octet && not unsummed then offered_sum raw else none) r disk
  unfolding with_sum offered_sum
  answered-disk false octet unsummed raw r disk = refl
  answered-disk true false unsummed raw r disk = refl
  answered-disk true true true raw r disk = refl
  answered-disk true true false none r disk = refl
  answered-disk true true false (some raw) r disk =
      status_of-disk _ ∙ save_upload-disk r.body r.path (hex_encode raw) disk

  serve_http-disk :
      (r : Request) (disk : Disk) → (serve_http os r disk).0 ≡ with_offer (offered r) r disk
  unfolding serve_http offered
  serve_http-disk r disk =
      answered-disk (r.method == "PUT") (r.content_type == "application/octet-stream")
        (r.content_md5 == "") (base64_decode r.content_md5) r disk

  found_sum :
      (md5 : String) (r : Request) (q : GetObjectMd5Request) (disk : Disk)
      → trim_space md5 ≡ md5
      → (clean r.path == clean (checksum_file q.object_name)) ≡ false
      → get_object_md5 q (with_offer (some md5) r disk)
        ≡ remembered
            (some md5)
            (clean (checksum_file r.path) == clean (checksum_file q.object_name))
            (get_object_md5 q disk)
  unfolding get_object_md5 read_file put
  found_sum md5 r q disk trim apart =
      rw
        (
          lookup-insert (clean r.path) (clean (checksum_file q.object_name)) r.body.contents
              (insert (clean (checksum_file r.path)) md5 disk),
          apart,
          lookup-insert (clean (checksum_file r.path)) (clean (checksum_file q.object_name)) md5
              disk,
        )
        (trimmed_if _ _ (checksum_file q.object_name) md5 trim)

  offered-NoSpace :
      (is_put octet unsummed : Bool) (raw : Option (List ℕ))
      → AreDecoded raw
      → AreTrimmed (if is_put && octet && not unsummed then offered_sum raw else none)
  unfolding offered_sum
  offered-NoSpace false octet unsummed raw bytes = tt
  offered-NoSpace true false unsummed raw bytes = tt
  offered-NoSpace true true true raw bytes = tt
  offered-NoSpace true true false none bytes = tt
  offered-NoSpace true true false (some raw) bytes =
      trim_space-NoSpace (hex_encode raw) (hex_encode-NoSpace raw bytes)

  pub offered-AreTrimmed : (r : Request) → AreTrimmed (offered r)
  unfolding offered
  offered-AreTrimmed r =
      offered-NoSpace (r.method == "PUT") (r.content_type == "application/octet-stream")
        (r.content_md5 == "") (base64_decode r.content_md5) (base64_decode-AreDecoded r.content_md5)

  with_offer-remembered :
      (sum : Option String) (r : Request) (q : GetObjectMd5Request) (disk : Disk)
      → AreTrimmed sum
      → (clean r.path == clean (checksum_file q.object_name)) ≡ false
      → get_object_md5 q (with_offer sum r disk)
        ≡ remembered sum
            (clean (checksum_file r.path) == clean (checksum_file q.object_name))
            (get_object_md5 q disk)
  with_offer-remembered none r q disk trim apart = refl
  with_offer-remembered (some md5) r q disk trim apart = found_sum md5 r q disk trim apart

  -- What one request does to the answer for a name.
  pub serve_http-remembered :
      (r : Request) (q : GetObjectMd5Request) (disk : Disk)
      → (clean r.path == clean (checksum_file q.object_name)) ≡ false
      → get_object_md5 q (serve_http os r disk).0
        ≡ remembered
            (offered r)
            (clean (checksum_file r.path) == clean (checksum_file q.object_name))
            (get_object_md5 q disk)
  serve_http-remembered r q disk apart =
      ap (get_object_md5 q) (serve_http-disk r disk)
      ∙ with_offer-remembered (offered r) r q disk (offered-AreTrimmed r) apart
