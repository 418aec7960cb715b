-- ===== src/Controller/Literals.antt =====
-- Values of environment variables that are no references to secrets.
use runbooks.Prelude.{
  String, ◌≡◌, refl, ap, if◌then◌else◌, Bool, true, false, Option, none, some, eqb, List, [], ◌∷◌,
}
use runbooks.Prelude.Dict.{Dict}
use Prim.Native.Char.{Char, code}
use runbooks.Kube.{EnvVar}
use runbooks.Controller.Env.{
  env_var, resolve_env, find_secret, match_here, after, then_groups, then_secrets,
}

-- The text has no dollar sign.
unfoldable pub no_dollar : String → Bool
no_dollar String.[] = true
no_dollar (String.◌∷◌ c s) = if eqb b'$' (code c) then false else no_dollar s

rest_no_dollar :
    (dollar : Bool) (rest : Bool)
    → (if dollar then false else rest) ≡ true
    → (dollar ≡ false) × (rest ≡ true)
rest_no_dollar true rest plain = cc
rest_no_dollar false rest plain = (refl, plain)

only_if :
    {A : Type 0} (b : Bool) (o : Option A)
    → b ≡ false
    → ◌≡◌ {A = Option A} (if b then o else none) none
only_if true o other = cc
only_if false o other = refl

or_later :
    {A : Type 0} (here later : Option A)
    → here ≡ none
    → later ≡ none
    → ◌≡◌ {A = Option A} (elim here [ some g ↦ some g | none ↦ later ]) none
or_later none later not_here not_later = not_later
or_later (some g) later not_here not_later = cc

match_here-other :
    (c : Char) (s : String) → eqb b'$' (code c) ≡ false → match_here (String.◌∷◌ c s) ≡ none
unfolding match_here after
match_here-other c s other =
    ap (λ o. then_groups (then_secrets o)) (only_if (eqb b'$' (code c)) (after "{{" s) other)

find_secret-no_dollar : (s : String) → no_dollar s ≡ true → find_secret s ≡ none
unfolding find_secret no_dollar
find_secret-no_dollar String.[] plain = refl
find_secret-no_dollar (String.◌∷◌ c s) plain =
    let (other, rest) = rest_no_dollar (eqb b'$' (code c)) (no_dollar s) plain in
    or_later (match_here (String.◌∷◌ c s)) (find_secret s) (match_here-other c s other)
      (find_secret-no_dollar s rest)

-- No value has a dollar sign.
unfoldable pub NoDollars : Dict String → Type 0
NoDollars [] = Unit
NoDollars ((key, value) ∷ env) = (no_dollar value ≡ true) × NoDollars env

-- Each variable with its value as it stands.
pub literals : Dict String → List EnvVar
literals [] = []
literals ((key, value) ∷ env) =
    record { name = key; value = value; value_from = none } ∷ literals env

-- If no value has a dollar sign, each variable gets its value as it stands, in order.
pub resolve_env-literals : (env : Dict String) → NoDollars env → resolve_env env ≡ literals env
unfolding resolve_env env_var NoDollars literals
resolve_env-literals [] plain = refl
resolve_env-literals ((key, value) ∷ env) (plain, rest) =
    rw (find_secret-no_dollar value plain, resolve_env-literals env rest) refl
