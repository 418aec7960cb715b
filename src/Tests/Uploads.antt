-- ===== src/Tests/Uploads.antt =====
-- The theorems on uploads, from the client to the storage, on concrete requests and objects.
use runbooks.Prelude.{String, ◌<>◌, ◌≡◌, refl, false, Option, none, some, List, [], ◌∷◌, arith}
use runbooks.Prelude.Hex.{hex_encode}
use runbooks.Prelude.Base64.{base64_decode}
use runbooks.Prelude.Decimal.{itoa}
use runbooks.Prelude.FilePath.{clean, dir, join_path}
use runbooks.Program.{ok, GetObjectMd5Request, CreateSignedUrlRequest}
use runbooks.Api.{model, Model, Build}
use runbooks.Net.{Reader}
use runbooks.Sci.Kind.Disk.{done, System}
use runbooks.Sci.Kind.Server.{Server, Request, serve_http, create_signed_url, get_object_md5}
use runbooks.Sci.Kind.Stored.{offered, Writes}
use runbooks.Sci.Kind.Contract.{
  serve_all, remember_all, serve_all-refines, rejected_unchanged, broken_upload_counts,
}
use runbooks.Client.Tarball.{Tarball}
use runbooks.Client.Upload.{WatchEvent, added, modified, upload_to, await_url, upload}
use runbooks.Client.Delivered.{connected, upload_reaches_storage}
use runbooks.Client.Waiting.{ShowsUrl, await_url-ShowsUrl, awaited_is_uploaded}
use runbooks.Controller.Build.{mark_awaiting}
use runbooks.Tui.Versions.{next_version}
use runbooks.Tui.Fresh.{NotNamed, next_version-NotNamed}
use runbooks.Tests.Cluster.{library, on_kind, a_model}

abbrev os : System
os = record { mkdir_all = λ path. none; writing = λ path. done; closing = λ path. none }

abbrev os-Writes : Writes os
os-Writes = record { makes = λ path. refl; writes = λ path. refl }

abbrev put_file : String → Option String → Request
put_file path broken = record {
  method = "PUT";
  path = path;
  content_type = "application/octet-stream";
  content_md5 = "TWFuTQ==";
  body = record { contents = "tar"; ends_in = broken };
}

abbrev archive : String
archive = "/bucket/x/latest.tar.gz"

abbrev question : GetObjectMd5Request
question = record { bucket_name = ""; object_name = archive }

abbrev two_puts : List Request
two_puts = put_file "//bucket/x/latest.tar.gz" none ∷ put_file "/bucket/y/latest.tar.gz" none ∷ []

serve_all-refines_example :
    get_object_md5 question (serve_all os two_puts [])
    ≡ remember_all two_puts question (get_object_md5 question [])
unfolding clean dir join_path
serve_all-refines_example = serve_all-refines os os-Writes question two_puts [] (refl, (refl, tt))

abbrev no_checksum : Request
no_checksum = record (put_file archive none) { content_md5 = "" }

rejected_unchanged_example : (serve_http os no_checksum []).0 ≡ []
unfolding serve_http
rejected_unchanged_example = rejected_unchanged os no_checksum [] refl

broken_upload_counts_example :
    ((serve_http os (put_file archive (some "unexpected EOF")) []).1 ≡ 500)
    × (get_object_md5 question (serve_http os (put_file archive (some "unexpected EOF")) []).0
        ≡ ok "4d616e4d")
unfolding offered base64_decode hex_encode clean dir join_path
broken_upload_counts_example =
    broken_upload_counts os os-Writes (put_file archive (some "unexpected EOF")) "" "4d616e4d"
      "unexpected EOF" [] refl refl refl

abbrev build_of : Build
build_of = record {
  git = none;
  upload = some (record { md5_checksum = "4d616e4d"; request_id = "1" });
}

abbrev storage : Server
storage = record { signed_url_address = "http://localhost:30080" }

abbrev asked : CreateSignedUrlRequest
asked = record {
  bucket_name = "";
  object_name = archive;
  expiration_seconds = 300;
  md5_checksum = "4d616e4d";
}

abbrev waiting_model : Model
waiting_model = record (a_model "llm" none (some build_of) false) {
  status = record ((a_model "llm" none (some build_of) false).status) {
    build_upload = record {
      signed_url = "http://localhost:30080//bucket/x/latest.tar.gz";
      request_id = "1";
      expiration = 0;
      stored_md5_checksum = "";
    };
  };
}

abbrev tarball : Tarball
tarball = record { temp_dir = "/tmp/t"; path = "/tmp/t/archive.tar.gz"; md5_checksum = "4d616e4d" }

abbrev tar_body : Reader
tar_body = record { contents = "tar"; ends_in = none }

abbrev shown : List (WatchEvent model)
shown = added (a_model "llm" none (some build_of) false) ∷ modified waiting_model ∷ []

await_url-ShowsUrl_example :
    ShowsUrl model tarball "http://localhost:30080//bucket/x/latest.tar.gz" shown
unfolding await_url
await_url-ShowsUrl_example =
    await_url-ShowsUrl model tarball "http://localhost:30080//bucket/x/latest.tar.gz" shown refl
      refl

awaited_is_uploaded_example :
    await_url model tarball (
      modified (
        mark_awaiting library on_kind model
          (record { md5_checksum = "4d616e4d"; request_id = "1" })
          "http://localhost:30080//bucket/x/latest.tar.gz"
          300
          (a_model "llm" none (some build_of) false))
      ∷ [])
    ≡ upload_to "http://localhost:30080//bucket/x/latest.tar.gz"
awaited_is_uploaded_example =
    awaited_is_uploaded library on_kind model tarball (a_model "llm" none (some build_of) false)
      build_of (record { md5_checksum = "4d616e4d"; request_id = "1" })
      "http://localhost:30080//bucket/x/latest.tar.gz" 300 [] refl refl refl refl

abbrev path_of : String → String
path_of url = "//bucket/x/latest.tar.gz"

upload_reaches_storage_example :
    (get_object_md5
        (record { bucket_name = ""; object_name = asked.object_name })
        (upload (connected os path_of (λ path. ok tar_body) (ok tt)) model tarball (ok shown) []).0
      ≡ ok "4d616e4d")
    × ((upload (connected os path_of (λ path. ok tar_body) (ok tt)) model tarball (ok shown) []).1
        ≡ ok tt)
unfolding await_url create_signed_url hex_encode clean dir join_path
upload_reaches_storage_example =
    upload_reaches_storage os storage path_of (λ path. ok tar_body) os-Writes model shown tarball
      tar_body 77 (97 ∷ 110 ∷ 77 ∷ []) "bucket/x/latest.tar.gz" "" asked []
      (omega arith, (omega arith, (omega arith, (omega arith, tt)))) refl refl refl refl refl refl
      refl refl

abbrev models : List String
models = "llm-2" ∷ "my-llm-7" ∷ "other" ∷ []

next_version-NotNamed_example : NotNamed ("llm" <> ("-" <> itoa 8)) models
unfolding next_version
next_version-NotNamed_example = next_version-NotNamed "llm" models 8 (omega arith) refl
