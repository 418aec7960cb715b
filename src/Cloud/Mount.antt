-- ===== src/Cloud/Mount.antt =====
-- `MountBucket` of internal/cloud/gcp.go and kind.go. The pod's metadata and spec, which the method
-- changes in place, are a template that it returns.
use runbooks.Prelude.{
  String, ◌<>◌, ◌==◌, if◌then◌else◌, Bool, Option, none, some, List, [], ◌∷◌, ◌++◌, map, snoc,
}
use runbooks.Prelude.Dict.{insert}
use runbooks.Prelude.Text.{trim_slash}
use runbooks.Program.{Go, ok, err, panic}
use runbooks.Program.Fallible.{wrap}
use runbooks.Library.{Library}
use runbooks.Kube.{ObjectMeta, Container, VolumeMount, VolumeSource, host_path, csi, PodTemplate}
use runbooks.Api.{Kind, Object, get_status_artifacts}
use runbooks.Cloud.Types.{BucketUrl, BucketMount, MountBucketConfig, Cloud, gcp, kind, common_of}
use runbooks.Cloud.Naming.{object_artifact_url, parse_bucket_url}

abbrev pub add_mounts : List VolumeMount → Container → Container
add_mounts mounts c = record c { volume_mounts = c.volume_mounts ++ mounts }

-- The loop over `podSpec.Containers`: the mounts are added to the first container of the name.
unfoldable pub mount_in : String → List VolumeMount → List Container → Option (List Container)
mount_in name mounts [] = none
mount_in name mounts (c ∷ cs) =
    let rest = mount_in name mounts cs in
    if c.name == name
    then some (add_mounts mounts c ∷ cs)
    else elim rest [ none ↦ none | some ds ↦ some (c ∷ ds) ]

gcsfuse_annotations : ObjectMeta → ObjectMeta
gcsfuse_annotations m = record m {
  annotations = insert "gke-gcsfuse/ephemeral-storage-limit" "100Gi" (
      insert "gke-gcsfuse/memory-limit" "800Mi"
        (insert "gke-gcsfuse/cpu-limit" "2" (insert "gke-gcsfuse/volumes" "true" m.annotations)));
}

-- The metadata, the volume's source and a mount's path in it, as the two clouds set them.
unfoldable pub annotate : Cloud → ObjectMeta → ObjectMeta
unfolding gcsfuse_annotations
annotate (gcp c) m = gcsfuse_annotations m
annotate (kind c) m = m

unfoldable pub bucket_source : Cloud → BucketUrl → Bool → VolumeSource
bucket_source (gcp c) u read_only =
    csi "gcsfuse.csi.storage.gke.io" read_only
      (("bucketName", u.bucket) ∷ ("mountOptions", "implicit-dirs,uid=0,gid=3003") ∷ [])
bucket_source (kind c) u read_only = host_path u.path "DirectoryOrCreate"

unfoldable pub sub_path : Cloud → BucketUrl → BucketMount → String
sub_path (gcp c) u m = trim_slash (u.path <> ("/" <> m.bucket_subdir))
sub_path (kind c) u m = m.bucket_subdir

unfoldable pub bucket_mounts : Cloud → BucketUrl → MountBucketConfig → List VolumeMount
bucket_mounts cloud u req =
    map
      (λ m. record {
        name = req.name;
        mount_path = "/content/" <> m.content_subdir;
        sub_path = sub_path cloud u m;
        read_only = req.read_only;
      })
      req.mounts

-- `GetStatusArtifacts().URL`; no Server is mounted.
abbrev pub status_url : (k : Kind) → Object k → String
status_url k o = elim (get_status_artifacts k o) [ none ↦ "" | some a ↦ a.url ]

module _ (L : Library) (cloud : Cloud) where
  unfoldable pub bucket_url : (k : Kind) → Object k → Go BucketUrl
  bucket_url k o =
      if status_url k o == ""
      then object_artifact_url L (common_of cloud) k o
      else wrap "parsing status bucket url" (parse_bucket_url L (status_url k o))

  unfoldable pub with_containers :
      PodTemplate → BucketUrl → MountBucketConfig → Option (List Container) → Go PodTemplate
  unfolding annotate bucket_source
  with_containers pod u req none = err ("container not found: " <> req.container)
  with_containers pod u req (some cs) = ok (record {
    metadata = annotate cloud pod.metadata;
    spec = record (pod.spec) {
      containers = cs;
      volumes =
          snoc pod.spec.volumes
            (record { name = req.name; source = bucket_source cloud u req.read_only });
    };
  })

  unfoldable pub mount_url : PodTemplate → BucketUrl → MountBucketConfig → Go PodTemplate
  unfolding bucket_mounts with_containers
  mount_url pod u req =
      with_containers pod u req
        (mount_in req.container (bucket_mounts cloud u req) pod.spec.containers)

  unfoldable pub mount_bucket :
      PodTemplate → (k : Kind) → Object k → MountBucketConfig → Go PodTemplate
  unfolding bucket_url mount_url
  mount_bucket pod k o req = elim (bucket_url k o) [
    | ok u ↦ mount_url pod u req
    | err e ↦ err e
    | panic s ↦ panic s
  ]
