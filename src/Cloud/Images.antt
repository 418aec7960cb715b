-- ===== src/Cloud/Images.antt =====
-- Image URLs of different objects, and the accounts that are bound to the principal.
use runbooks.Prelude.{String, ◌≡◌, refl, ◌<>◌, ◌==◌, if◌then◌else◌, true, Option, none, some}
use runbooks.Program.{Go, ok, panic}
use runbooks.Prelude.Dict.{lookup-insert}
use text.Mathlib.TextLemmas.{append_assoc}
use text.Mathlib.TextPositions.{eq_refl}
use runbooks.Kube.{ServiceAccount}
use runbooks.Api.{Build, Kind, Object, metadata, kind_name, get_build}
use runbooks.Cloud.{
  Cloud, gcp, kind, Common, image_tag, object_built_image_url, image_repository, get_principal,
  associate_principal,
}

-- The URL from the kind, the repository and the build.
tagged : String → String → Option Build → Go String
unfolding image_tag
tagged sort repository build = if sort == "" then panic "kind is empty" else elim build [
  | none ↦ panic "invalid memory address or nil pointer dereference"
  | some b ↦ ok (repository <> (":" <> image_tag b))
]

object_built_image_url-tagged :
    (c : Common) (k : Kind) (o : Object k)
    → object_built_image_url c k o
      ≡ tagged
          (kind_name k o)
          (image_repository c (kind_name k o) (metadata k o).namespace (metadata k o).name)
          (get_build k o)
unfolding object_built_image_url tagged
object_built_image_url-tagged c k o = refl

same_repository :
    (c : Common) (sort a b n : String)
    → image_repository c sort (a <> ("-" <> b)) n ≡ image_repository c sort a (b <> ("-" <> n))
unfolding image_repository
same_repository c sort a b n =
    rw (append_assoc a ("-" <> b) ("-" <> n), append_assoc "-" b ("-" <> n))

-- Two objects of a kind with the same build have the same image URL if one is named n in the
-- namespace a-b, and the other is named b-n in the namespace a.
pub same_image :
    (c : Common) (k : Kind) (o p : Object k) (a b n : String)
    → (metadata k o).namespace ≡ a <> ("-" <> b)
    → (metadata k o).name ≡ n
    → (metadata k p).namespace ≡ a
    → (metadata k p).name ≡ b <> ("-" <> n)
    → kind_name k o ≡ kind_name k p
    → get_build k o ≡ get_build k p
    → object_built_image_url c k o ≡ object_built_image_url c k p
same_image c k o p a b n o_space o_name p_space p_name kinds builds =
    let from_o = object_built_image_url-tagged c k o in
    let from_p = object_built_image_url-tagged c k p in
    let same = same_repository c (kind_name k o) a b n in cc

-- An account that is associated with the principal counts as bound to it.
pub bound_after_associate :
    (cloud : Cloud) (sa : ServiceAccount)
    → (get_principal cloud (associate_principal cloud sa)).1 ≡ true
unfolding get_principal associate_principal
bound_after_associate (gcp c) sa = rw (
  lookup-insert "iam.gke.io/gcp-service-account" "iam.gke.io/gcp-service-account" c.principal
      sa.metadata.annotations,
  eq_refl c.principal,
)
bound_after_associate (kind c) sa = refl
