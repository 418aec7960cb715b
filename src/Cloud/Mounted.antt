-- ===== src/Cloud/Mounted.antt =====
-- What `MountBucket` changes of a pod.
use text.Mathlib.TextEquality.{eq_iff}
use runbooks.Prelude.{
  String, ◌≡◌, refl, ◌==◌, if◌then◌else◌, Bool, true, false, ◌⊎◌, inl, inr, Option, none, some,
  List, [], ◌∷◌, snoc,
}
use runbooks.Kube.{Container, VolumeMount, PodTemplate}
use runbooks.Kube.Containers.{Absent, nowhere, Changed, Searched, Searched-step}
use runbooks.Program.{Go, ok, err, panic}
use runbooks.Program.Fallible.{wrap}
use runbooks.Api.{Kind, Object}
use runbooks.Library.{Library}
use runbooks.Cloud.{
  Cloud, BucketUrl, MountBucketConfig, add_mounts, mount_in, bucket_mounts, bucket_source,
  with_containers, mount_url, annotate, status_url, bucket_url, mount_bucket, object_artifact_url,
  parse_bucket_url, common_of,
}

pub mount_in-Searched :
    (name : String) (ms : List VolumeMount) (cs : List Container)
    → Searched (add_mounts ms) name cs (mount_in name ms cs)
unfolding mount_in
mount_in-Searched name ms [] = nowhere
mount_in-Searched name ms (c ∷ cs) =
    Searched-step (add_mounts ms) name c cs (c.name == name) _ refl (mount_in-Searched name ms cs)

-- The pod with the bucket mounted.
abbrev pub Mounted : Cloud → PodTemplate → BucketUrl → MountBucketConfig → Go PodTemplate → Type 0
Mounted cloud pod u req (ok p) =
    Changed (add_mounts (bucket_mounts cloud u req)) req.container pod.spec.containers
      p.spec.containers
    × (p.spec.volumes
        ≡ snoc pod.spec.volumes
            (record { name = req.name; source = bucket_source cloud u req.read_only }))
    × (p.spec.init_containers ≡ pod.spec.init_containers)
    × (p.metadata ≡ annotate cloud pod.metadata)
Mounted cloud pod u req (err e) = Absent req.container pod.spec.containers
Mounted cloud pod u req (panic s) = ⊥

with_containers-Mounted :
    (L : Library) (cloud : Cloud) (pod : PodTemplate) (u : BucketUrl) (req : MountBucketConfig)
    (found : Option (List Container))
    → Searched (add_mounts (bucket_mounts cloud u req)) req.container pod.spec.containers found
    → Mounted cloud pod u req (with_containers L cloud pod u req found)
unfolding with_containers
with_containers-Mounted L cloud pod u req none absent = absent
with_containers-Mounted L cloud pod u req (some cs) changed = (changed, refl, refl, refl)

mount_url-Mounted :
    (L : Library) (cloud : Cloud) (pod : PodTemplate) (u : BucketUrl) (req : MountBucketConfig)
    → Mounted cloud pod u req (mount_url L cloud pod u req)
unfolding mount_url
mount_url-Mounted L cloud pod u req =
    with_containers-Mounted L cloud pod u req _
      (mount_in-Searched req.container _ pod.spec.containers)

module _ (L : Library) (cloud : Cloud) (k : Kind) (o : Object k) where
  -- Where the bucket's URL comes from: the object's status, or its artifact URL if that is empty.
  abbrev pub UrlFrom : Go BucketUrl → Type 0
  UrlFrom g =
      ((status_url k o ≡ "") × (object_artifact_url L (common_of cloud) k o ≡ g))
      ⊎ (((status_url k o == "") ≡ false)
          × (wrap "parsing status bucket url" (parse_bucket_url L (status_url k o)) ≡ g))

  -- What mounting the object's bucket comes to.
  abbrev pub Bucketed : PodTemplate → MountBucketConfig → Go PodTemplate → Type 0
  Bucketed pod req (ok p) = (u : BucketUrl) × UrlFrom (ok u) × Mounted cloud pod u req (ok p)
  Bucketed pod req (err e) =
      UrlFrom (err e)
      ⊎ ((u : BucketUrl) × UrlFrom (ok u) × Absent req.container pod.spec.containers)
  Bucketed pod req (panic s) = UrlFrom (panic s)

  url_by :
      (empty : Bool)
      → (status_url k o == "") ≡ empty
      → UrlFrom (
          if empty
          then object_artifact_url L (common_of cloud) k o
          else wrap "parsing status bucket url" (parse_bucket_url L (status_url k o)))
  url_by true empty = inl ((eq_iff (status_url k o) "").0 empty, refl)
  url_by false stated = inr (stated, refl)

  bucket_url-UrlFrom : UrlFrom (bucket_url L cloud k o)
  unfolding bucket_url
  bucket_url-UrlFrom = url_by (status_url k o == "") refl

  Mounted-Bucketed :
      (pod : PodTemplate) (u : BucketUrl) (req : MountBucketConfig) (r : Go PodTemplate)
      → UrlFrom (ok u)
      → Mounted cloud pod u req r
      → Bucketed pod req r
  Mounted-Bucketed pod u req (ok p) url mounted = (u, url, mounted)
  Mounted-Bucketed pod u req (err e) url absent = inr (u, url, absent)
  Mounted-Bucketed pod u req (panic s) url broken = absurd broken

  at_url-Bucketed :
      (pod : PodTemplate) (req : MountBucketConfig) (g : Go BucketUrl)
      → UrlFrom g
      → Bucketed pod req
          (elim g [ ok u ↦ mount_url L cloud pod u req | err e ↦ err e | panic s ↦ panic s ])
  at_url-Bucketed pod req (ok u) url =
      Mounted-Bucketed pod u req (mount_url L cloud pod u req) url
        (mount_url-Mounted L cloud pod u req)
  at_url-Bucketed pod req (err e) url = inl url
  at_url-Bucketed pod req (panic s) url = url

-- The bucket is the one of the object's status, or the object's artifact URL if the status has none.
-- It is mounted by adding one volume, and the mounts to the first container of the requested name, and
-- to no other; that fails exactly if the URL cannot be had, with that error or panic, or no container
-- has the name.
pub mount_bucket-Bucketed :
    (L : Library) (cloud : Cloud) (pod : PodTemplate) (k : Kind) (o : Object k)
    (req : MountBucketConfig)
    → Bucketed L cloud k o pod req (mount_bucket L cloud pod k o req)
unfolding mount_bucket
mount_bucket-Bucketed L cloud pod k o req =
    at_url-Bucketed L cloud k o pod req (bucket_url L cloud k o) (bucket_url-UrlFrom L cloud k o)
