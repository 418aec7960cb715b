-- ===== src/Tests/Watches.antt =====
-- The theorem on watches, and what environment values resolve to.
use runbooks.Prelude.{String, ◌≡◌, refl, ◌==◌, if◌then◌else◌, true, List, some, none, [], ◌∷◌}
use runbooks.Program.{Env, ok, list, run, finished}
use runbooks.Api.{Kind, model, dataset, server, notebook, Object, Model}
use runbooks.Controller.Env.{
  resolve_env, env_var, find_secret, match_here, after, drop_spaces, groups, dot_group, last_group,
  closes, trim_space, trim_left, trim_right, is_space,
}
use runbooks.Controller.Watches.{
  notebook_model, notebook_dataset, model_model, model_dataset, server_model, field, find,
  find_servers_for_model, index_values,
}
use runbooks.Controller.Woken.{ListsBy, Wakes, listed, is_listed, woken_by-Wakes}
use runbooks.Tests.Cluster.{tuned_model, a_model, a_server, a_job, answers}

abbrev store : (k : Kind) → List (Object k)
store model = tuned_model ∷ []
store dataset = []
store server = a_server ∷ []
store notebook = []

abbrev by_index : (k : Kind) → String → String → String → List (Object k)
by_index model index name namespace =
    if index == field model_model
    then listed model_model name namespace (store model)
    else listed model_dataset name namespace (store model)
by_index dataset index name namespace = []
by_index server index name namespace = listed server_model name namespace (store server)
by_index notebook index name namespace =
    if index == field notebook_model
    then listed notebook_model name namespace (store notebook)
    else listed notebook_dataset name namespace (store notebook)

abbrev listing : Env
listing h (list k index name namespace) = ok (by_index k index name namespace)
listing h c = answers tuned_model (a_job "i" 1) h c

listing-ListsBy : ListsBy listing [] store
listing-ListsBy notebook_model name namespace = refl
listing-ListsBy notebook_dataset name namespace = refl
listing-ListsBy model_model name namespace = refl
listing-ListsBy model_dataset name namespace = refl
listing-ListsBy server_model name namespace = refl

abbrev base_model : Model
base_model = a_model "base" none none true

woken_by-Wakes_example :
    Wakes server_model "base" "default"
      (a_server ∷ [])
      (run listing [] (find_servers_for_model base_model)).1
woken_by-Wakes_example = woken_by-Wakes server_model base_model store listing [] listing-ListsBy

server_is_requested :
    (run listing [] (find_servers_for_model base_model)).1
    ≡ finished (record { name = "serve"; namespace = "default" } ∷ [])
unfolding find_servers_for_model find listed is_listed index_values run
server_is_requested = refl

secret_reference :
    resolve_env (("TOKEN", "${{ secrets.my-name.my-key }}") ∷ ("PLAIN", "x") ∷ [])
    ≡ record {
      name = "TOKEN";
      value = "";
      value_from = some (record { name = "my-name"; key = "my-key" });
    }
      ∷ record { name = "PLAIN"; value = "x"; value_from = none }
      ∷ []
unfolding resolve_env env_var find_secret match_here after drop_spaces groups dot_group last_group
    closes trim_space trim_left trim_right is_space
secret_reference = refl

-- The name takes every dot but the last.
dotted_reference :
    resolve_env (("TOKEN", "${{secrets.a.b.c}}") ∷ [])
    ≡ record { name = "TOKEN"; value = ""; value_from = some (record { name = "a.b"; key = "c" }) }
      ∷ []
unfolding resolve_env env_var find_secret match_here after drop_spaces groups dot_group last_group
    closes trim_space trim_left trim_right is_space
dotted_reference = refl
