-- ===== src/Controller/ServiceAccounts.antt =====
-- service_accounts_controller.go
use runbooks.Prelude.{String, ◌<>◌, Bool, true, false}
use runbooks.Kube.{ServiceAccount}
use runbooks.Program.{
  Go, ok, err, panic, written, write_error, bind_identity, create_or_update_service_account,
  Program, ret, crash, ◌>>=◌, ◌>>◌, perform, fail,
}
use runbooks.Cloud.{Cloud, get_principal, associate_principal}
use runbooks.Controller.Params.{fresh_meta}

abbrev pub container_builder : String
container_builder = "container-builder"

abbrev pub modeller : String
modeller = "modeller"

abbrev pub model_server : String
model_server = "model-server"

abbrev pub notebook_account : String
notebook_account = "notebook"

abbrev pub data_loader : String
data_loader = "data-loader"

-- The account that a caller hands over.
abbrev pub account : String → String → ServiceAccount
account name namespace = record { metadata = fresh_meta name namespace }

module _ (cloud : Cloud) where
  -- The call of the SCI service, made unless the account is bound.
  unfoldable pub bind : ServiceAccount → String × Bool → Program (Unit {0})
  unfolding ◌>>=◌
  bind sa (principal, true) = ret tt
  bind sa (principal, false) = do
    answer ← perform (
        bind_identity (record {
          principal = principal;
          kubernetes_service_account = sa.metadata.name;
          kubernetes_namespace = sa.metadata.namespace;
        }))
    elim answer [
      | ok u ↦ ret tt
      | err e ↦ fail (
          "failed bind identity principal "
          <> (principal
              <> (" to K8s SA "
                  <> (sa.metadata.namespace <> ("/" <> (sa.metadata.name <> (": " <> e)))))))
      | panic s ↦ crash s
    ]

  -- `configureSA`
  unfoldable pub configure : ServiceAccount → Go ServiceAccount
  configure sa = ok (associate_principal cloud sa)

  unfoldable pub apply_account : ServiceAccount → Program (Unit {0})
  unfolding ◌>>=◌
  apply_account sa = do
    answer ← perform (create_or_update_service_account sa configure)
    elim answer [
      | written stored ↦ ret tt
      | write_error e ↦ fail ("failed to create or update service account: " <> e)
    ]

  -- `reconcileServiceAccount`, on an account of the name and namespace that has no annotations yet,
  -- as every caller makes it.
  unfoldable pub reconcile_service_account : String → String → Program (Unit {0})
  unfolding ◌>>=◌ bind apply_account configure
  reconcile_service_account name namespace =
      let sa = account name namespace in bind sa (get_principal cloud sa) >> apply_account sa
