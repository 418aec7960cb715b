-- ===== src/Controller/Sorts.antt =====
-- Which calls the shared steps make.
use runbooks.Prelude.{String, ◌≡◌, refl, true, false, some, Bool, ◌∷◌}
use runbooks.Kube.{ServiceAccount}
use runbooks.Program.{
  ok, err, panic, written, write_error, update_status, Call, History, Outcome, finished, halted,
}
use runbooks.Program.Always.{Always}
use runbooks.Program.Only.{Only, done, ask, stops, dies, >>=-Only, or_stop-Only, prepares}
use runbooks.Library.{Library}
use runbooks.Api.{Kind, Object}
use runbooks.Cloud.{Cloud}
use runbooks.Controller.Params.{params_config_map_name, reconcile_params_config_map}
use runbooks.Controller.ServiceAccounts.{account, bind, apply_account, reconcile_service_account}
use runbooks.Controller.Shared.{save_status}

pub save_status-Only :
    {S : Call → Bool} (what : String) (k : Kind) (o : Object k)
    → S (update_status k o) ≡ true
    → Only S (save_status what k o)
unfolding save_status
save_status-Only what k o may = ask may (elim [ written stored ↦ done | write_error e ↦ stops ])

bind-Only :
    (cloud : Cloud) (sa : ServiceAccount) (p : String × Bool) → Only prepares (bind cloud sa p)
unfolding bind
bind-Only cloud sa (principal, true) = done
bind-Only cloud sa (principal, false) =
    ask refl (elim [ ok u ↦ done | err e ↦ stops | panic s ↦ dies ])

apply_account-Only : (cloud : Cloud) (sa : ServiceAccount) → Only prepares (apply_account cloud sa)
unfolding apply_account
apply_account-Only cloud sa = ask refl (elim [ written stored ↦ done | write_error e ↦ stops ])

pub reconcile_service_account-Only :
    (cloud : Cloud) (name namespace : String)
    → Only prepares (reconcile_service_account cloud name namespace)
unfolding reconcile_service_account
reconcile_service_account-Only cloud name namespace =
    >>=-Only (bind-Only cloud (account name namespace) _) (λ u. apply_account-Only cloud _)

pub reconcile_params_config_map-Only :
    (L : Library) (k : Kind) (o : Object k) → Only prepares (reconcile_params_config_map L k o)
unfolding reconcile_params_config_map
reconcile_params_config_map-Only L k o =
    >>=-Only (or_stop-Only (params_config_map_name k o))
      (λ name. ask refl (elim [ written stored ↦ done | write_error e ↦ stops ]))

-- A status is saved where it may be.
pub save_status-Always :
    {P : History → Call → Type 0} (k : Kind) {Q : History → Outcome (Object k) → Type 0}
    {h : History} (what : String) (o : Object k)
    → P h (update_status k o)
    → ((stored : Object k) → Q ((update_status k o, written stored) ∷ h) (finished stored))
    → ((g : History) (e : String) → Q g (halted (some e)))
    → Always P Q h (save_status what k o)
unfolding save_status
save_status-Always k what o may stored fails =
    Always.ask may
      (elim [ written p ↦ Always.done (stored p) | write_error e ↦ Always.stops (fails _ _) ])
