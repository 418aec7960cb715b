-- ===== src/Cloud/Principal.antt =====
-- `GetPrincipal` and `AssociatePrincipal` of internal/cloud/gcp.go and kind.go.
use runbooks.Prelude.{String, ◌==◌, Bool, true, false, Option, none, some}
use runbooks.Prelude.Dict.{lookup, insert}
use runbooks.Kube.{ServiceAccount}
use runbooks.Cloud.Types.{Cloud, gcp, kind}

abbrev pub gcp_workload_identity_label : String
gcp_workload_identity_label = "iam.gke.io/gcp-service-account"

abbrev is_text : String → Option String → Bool
is_text s none = false
is_text s (some t) = t == s

-- The principal, and whether the account is bound to it already.
unfoldable pub get_principal : Cloud → ServiceAccount → String × Bool
unfolding lookup
get_principal (gcp c) sa =
    (c.principal, is_text c.principal (lookup gcp_workload_identity_label sa.metadata.annotations))
get_principal (kind c) sa = ("", true)

unfoldable pub associate_principal : Cloud → ServiceAccount → ServiceAccount
unfolding get_principal
associate_principal (gcp c) sa = record sa {
  metadata = record (sa.metadata) {
    annotations =
        insert gcp_workload_identity_label (get_principal (gcp c) sa).0 sa.metadata.annotations;
  };
}
associate_principal (kind c) sa = sa
