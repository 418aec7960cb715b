-- ===== src/Sci/Kind/Server.antt =====
-- `Server` of internal/sci/kind/server.go.
use runbooks.Prelude.{ℕ, String, ◌<>◌, ◌==◌, if◌then◌else◌, Option, none, some, List}
use runbooks.Prelude.Hex.{hex_encode}
use runbooks.Prelude.Base64.{base64_decode}
use runbooks.Prelude.FilePath.{dir, join_path}
use runbooks.Program.{
  Go, ok, err, panic, BindIdentityRequest, GetObjectMd5Request, CreateSignedUrlRequest,
}
use runbooks.Controller.Env.{trim_space}
use runbooks.Net.{Reader}
use runbooks.Sci.Kind.Disk.{Disk, refused, broken, done, System, put, write_file, read_file}

pub record Server : Type 0 where
  pub signed_url_address : String

-- `http.Request`, with the headers that the handler reads.
pub record Request : Type 0 where
  pub method : String
  pub path : String
  pub content_type : String
  pub content_md5 : String
  pub body : Reader

-- `filepath.Join(filepath.Dir(path), "md5.txt")`
abbrev pub checksum_file : String → String
checksum_file path = join_path (dir path) "md5.txt"

-- The error of `io.Copy`, else the one of `Close`.
abbrev pub first_error : Option String → Option String → Option String
first_error (some e) closing = some e
first_error none closing = closing

-- `io.Copy(f, r)` into the file that `os.Create` emptied, and `Close`.
unfoldable pub copy_body : System → String → Reader → Disk → Disk × Option String
unfolding put
copy_body os path r disk = elim (os.writing path) [
  | refused e ↦ (disk, some e)
  | broken written e ↦ (put path written disk, some e)
  | done ↦ (put path r.contents disk, first_error r.ends_in (os.closing path))
]

abbrev then_copy : System → String → Reader → Disk × Option String → Disk × Option String
then_copy os path r (disk, some e) = (disk, some ("write md5 file: " <> e))
then_copy os path r (disk, none) = copy_body os path r disk

-- `saveUpload`
unfoldable pub save_upload : System → Reader → String → String → Disk → Disk × Option String
unfolding copy_body write_file
save_upload os r url_path md5 disk = elim (os.mkdir_all (dir url_path)) [
  | some e ↦ (disk, some ("mkdir (all): " <> e))
  | none ↦ then_copy os url_path r (write_file os (checksum_file url_path) md5 disk)
]

abbrev pub status_of : Disk × Option String → Disk × ℕ
status_of (disk, none) = (disk, 200)
status_of (disk, some e) = (disk, 500)

-- The part of the handler after the decoding of the checksum.
unfoldable pub with_sum : System → Request → Disk → Option (List ℕ) → Disk × ℕ
unfolding save_upload
with_sum os r disk none = (disk, 400)
with_sum os r disk (some raw) = status_of (save_upload os r.body r.path (hex_encode raw) disk)

-- `ServeHTTP`: the status of the answer, which is 200 where the handler writes none.
unfoldable pub serve_http : System → Request → Disk → Disk × ℕ
unfolding with_sum
serve_http os r disk =
    if r.method == "PUT"
    then (if r.content_type == "application/octet-stream"
        then (if r.content_md5 == ""
            then (disk, 400)
            else with_sum os r disk (base64_decode r.content_md5))
        else (disk, 400))
    else (disk, 200)

-- `CreateSignedURL`
unfoldable pub create_signed_url : Server → CreateSignedUrlRequest → String
create_signed_url s r = s.signed_url_address <> ("/" <> r.object_name)

abbrev pub trimmed : Go String → Go String
trimmed (ok contents) = ok (trim_space contents)
trimmed (err e) = err ("read md5 file: " <> e)
trimmed (panic s) = panic s

-- `GetObjectMd5`
unfoldable pub get_object_md5 : GetObjectMd5Request → Disk → Go String
unfolding read_file
get_object_md5 r disk = trimmed (read_file (checksum_file r.object_name) disk)

-- `BindIdentity`
unfoldable pub bind_identity : BindIdentityRequest → Go (Unit {0})
bind_identity r = ok tt
