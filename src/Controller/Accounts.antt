-- ===== src/Controller/Accounts.antt =====
-- The calls that set up service accounts.
use runbooks.Prelude.{String, ◌≡◌, refl}
use runbooks.Prelude.Dict.{lookup}
use runbooks.Program.{Go, bind_identity, Program, call, ◌>>=◌}
use runbooks.Cloud.{Gcp, gcp, get_principal}
use runbooks.Controller.ServiceAccounts.{bind, reconcile_service_account}

-- On GCP every reconciliation of a service account begins with a call that binds the identity, since
-- the account that is tested for being bound has no annotations.
pub binds_each_time :
    (c : Gcp) (name namespace : String)
    → (next : Go (Unit {0}) → Program (Unit {0})) × (reconcile_service_account
          (gcp c)
          name
          namespace
        ≡ call
            (bind_identity (record {
              principal = c.principal;
              kubernetes_service_account = name;
              kubernetes_namespace = namespace;
            }))
            next)
unfolding reconcile_service_account bind get_principal ◌>>=◌ lookup
binds_each_time c name namespace = (_, refl)
