-- ===== src/Cloud/Naming.antt =====
-- internal/cloud/common.go and utils.go: where an object's image and artifacts are.
use runbooks.Prelude.{String, ◌<>◌, ◌==◌, if◌then◌else◌, none, some}
use runbooks.Prelude.Text.{to_lower, trim_slash}
use runbooks.Prelude.FilePath.{join_path}
use runbooks.Program.{Go, ok, err, panic}
use runbooks.Library.{Library}
use runbooks.Api.{Build, BuildGit, Kind, Object, metadata, kind_name, get_build}
use runbooks.Cloud.Types.{BucketUrl, Common}

abbrev git_tag : BuildGit → String
git_tag g = if g.tag == "" then (if g.branch == "" then "latest" else g.branch) else g.tag

-- The image tag of a build: the git tag, else the branch, else for an upload its checksum.
unfoldable pub image_tag : Build → String
image_tag b = elim (b.git) [
  | some g ↦ git_tag g
  | none ↦ elim (b.upload) [ some u ↦ u.md5_checksum | none ↦ "latest" ]
]

-- The image's URL without its tag.
unfoldable pub image_repository : Common → String → String → String → String
image_repository c kind namespace name =
    c.registry_url
    <> ("/"
        <> (c.cluster_name <> ("-" <> (to_lower kind <> ("-" <> (namespace <> ("-" <> name)))))))

unfoldable pub object_built_image_url : Common → (k : Kind) → Object k → Go String
unfolding image_tag image_repository
object_built_image_url c k o =
    if kind_name k o == "" then panic "kind is empty" else elim (get_build k o) [
      | none ↦ panic "invalid memory address or nil pointer dereference"
      | some b ↦ ok (
          image_repository c (kind_name k o) (metadata k o).namespace (metadata k o).name
          <> (":" <> image_tag b))
    ]

unfoldable pub hash_input : String → String → String → String → String
hash_input cluster kind namespace name =
    "clusters/"
    <> (cluster
        <> ("/namespaces/" <> (namespace <> ("/" <> ((to_lower kind <> "s") <> ("/" <> name))))))

unfoldable pub object_hash_input : String → (k : Kind) → Object k → Go String
unfolding hash_input
object_hash_input cluster k o =
    if kind_name k o == ""
    then panic "kind is empty"
    else ok (hash_input cluster (kind_name k o) (metadata k o).namespace (metadata k o).name)

-- `BucketURL.String`
unfoldable pub show_bucket_url : BucketUrl → String
show_bucket_url b = b.scheme <> ("://" <> (b.bucket <> ("/" <> b.path)))

module _ (L : Library) where
  hashed : Go String → Go String
  hashed (ok input) = ok (L.md5_hex input)
  hashed (err e) = err e
  hashed (panic s) = panic s

  unfoldable pub object_hash : String → (k : Kind) → Object k → Go String
  unfolding object_hash_input hashed
  object_hash cluster k o = hashed (object_hash_input cluster k o)

  under : BucketUrl → Go String → Go BucketUrl
  under u (ok hash) = ok (record u { path = join_path u.path hash })
  under u (err e) = err e
  under u (panic s) = panic s

  unfoldable pub object_artifact_url : Common → (k : Kind) → Object k → Go BucketUrl
  unfolding object_hash under
  object_artifact_url c k o = elim (c.artifact_bucket_url) [
    | none ↦ panic "invalid memory address or nil pointer dereference"
    | some u ↦ under u (object_hash c.cluster_name k o)
  ]

  unfoldable pub parse_bucket_url : String → Go BucketUrl
  parse_bucket_url s = elim (L.parse_url s) [
    | ok u ↦ ok (record { scheme = u.scheme; bucket = u.host; path = trim_slash u.path })
    | err e ↦ err ("parsing url: " <> e)
    | panic s ↦ panic s
  ]

  -- `UnmarshalText`: an empty text leaves the value as it is.
  unfoldable pub unmarshal_text : BucketUrl → String → Go BucketUrl
  unfolding parse_bucket_url
  unmarshal_text v text = if text == "" then ok v else elim (parse_bucket_url text) [
    | ok parsed ↦ ok parsed
    | err e ↦ err ("parsing bucket URL: " <> (text <> (": " <> e)))
    | panic s ↦ panic s
  ]
