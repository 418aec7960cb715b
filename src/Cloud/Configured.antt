-- ===== src/Cloud/Configured.antt =====
-- `AutoConfigure` and the artifact URLs of objects.
use runbooks.Prelude.{◌≡◌, refl, sym, ap, ◌==◌, false, Option, none, some}
use runbooks.Program.{Go, ok, err, panic}
use runbooks.Program.Fallible.{>>=-ok}
use runbooks.Library.{Library}
use runbooks.Api.{Kind, Object, kind_name}
use runbooks.Cloud.{
  BucketUrl, Common, Gcp, KindCluster, object_artifact_url, object_hash, object_hash_input,
}
use runbooks.Cloud.Configure.{
  Metadata, or_else_url, discover, registry, fill, auto_configure_gcp, auto_configure_kind,
}

has_url :
    (L : Library) (c : Common) (u : BucketUrl) (k : Kind) (o : Object k)
    → c.artifact_bucket_url ≡ some u
    → (kind_name k o == "") ≡ false
    → (v : BucketUrl) × (object_artifact_url L c k o ≡ ok v)
unfolding object_artifact_url object_hash object_hash_input
has_url L c u k o set named = rw (set, named) (_, refl)

-- On kind, once configured, the artifact URL of an object with a kind is found.
pub configured_kind-artifacts :
    (L : Library) (c : KindCluster) (k : Kind) (o : Object k)
    → (kind_name k o == "") ≡ false
    → (v : BucketUrl) × (object_artifact_url L (auto_configure_kind c).common k o ≡ ok v)
unfolding auto_configure_kind
configured_kind-artifacts L c k o named = has_url L _ _ k o refl named

url_of : Gcp → Go Gcp → Option BucketUrl
url_of g (ok d) = d.artifact_bucket_url
url_of g (err e) = none
url_of g (panic s) = none

fill-has_url :
    (g done : Gcp) → fill g ≡ ok done → (u : BucketUrl) × (done.artifact_bucket_url ≡ some u)
unfolding fill url_of
fill-has_url g done filled =
    let (url, made) = >>=-ok (registry g) _ done filled in
    (or_else_url g.artifact_bucket_url _, sym (ap (url_of g) made))

-- On GCP, once the configuration succeeded, the artifact URL of an object with a kind is found.
pub configured_gcp-artifacts :
    (L : Library) (md : Metadata) (g done : Gcp) (k : Kind) (o : Object k)
    → auto_configure_gcp md g ≡ ok done
    → (kind_name k o == "") ≡ false
    → (v : BucketUrl) × (object_artifact_url L done.common k o ≡ ok v)
unfolding auto_configure_gcp
configured_gcp-artifacts L md g done k o succeeded named =
    let (found, filled) = >>=-ok (discover md g) fill done succeeded in
    let (u, set) = fill-has_url found done filled in has_url L done.common u k o set named
