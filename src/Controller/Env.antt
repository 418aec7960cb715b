-- ===== src/Controller/Env.antt =====
-- `resolveEnv` of utils.go. The regular expression `\${{ *secrets\.(.+)\.(.+) *}}` is matched as
-- Go's leftmost-first engine does: at the first position that matches, the groups as long as they
-- can be, the first group first. `.` stands for any character but a newline.
mod Match
pub mod Trim
use runbooks.Prelude.{String, List, [], ◌∷◌, Option, none, some}
use runbooks.Prelude.Dict.{Dict}
use runbooks.Kube.{EnvVar}
use Match.{find_secret, trim_space}
unfoldable pub use Match.*

unfoldable pub env_var : String → String → Option (String × String) → EnvVar
env_var key value none = record { name = key; value = value; value_from = none }
env_var key value (some (name, secret_key)) = record {
  name = key;
  value = "";
  value_from = some (record { name = trim_space name; key = trim_space secret_key });
}

-- The entries of the map in the order in which the loop takes them. Where the expression matches it
-- has both its groups, so the error return is never reached.
unfoldable pub resolve_env : Dict String → List EnvVar
unfolding env_var
resolve_env [] = []
resolve_env ((key, value) ∷ rest) = env_var key value (find_secret value) ∷ resolve_env rest
