-- ===== src/Framework/EnvVar.antt =====
-- core/framework/env_var.go: environment variables of a container, kept by name.
pub mod Laws
use kogito_operator.Common.{
  String, ℕ, zero, suc, Option, none, some, List, [], ◌∷◌, ◌++◌, ◌==◌, if◌then◌else◌,
}
use kogito_operator.Common.Dict.{Dict, lookup, insert}
use kogito_operator.Api.Workloads.{EnvVar, SecretKeySelector, Container}

-- The position of a name; `none` is the code's -1.
unfoldable pub get_env_var : String → List EnvVar → Option ℕ
get_env_var env_name [] = none
get_env_var env_name (v ∷ env) =
    let rest = get_env_var env_name env in
    if v.name == env_name then some 0 else elim rest [ none ↦ none | some pos ↦ some (suc pos) ]

-- `dst[pos] = cre`
abbrev pub set : List EnvVar → ℕ → EnvVar → List EnvVar
set [] pos e = []
set (v ∷ env) zero e = e ∷ env
set (v ∷ env) (suc pos) e = v ∷ set env pos e

-- One round of the loop of `EnvOverride`.
unfoldable pub override_one : List EnvVar → EnvVar → List EnvVar
unfolding get_env_var
override_one dst cre = elim (get_env_var cre.name dst) [
  | some pos ↦ set dst pos cre
  | none ↦ dst ++ (cre ∷ [])
]

unfoldable pub env_override : List EnvVar → List EnvVar → List EnvVar
env_override dst [] = dst
env_override dst (cre ∷ src) = env_override (override_one dst cre) src

-- The first variable of a name, with "" where there is none.
unfoldable pub find_value : String → List EnvVar → String
find_value key [] = ""
find_value key (v ∷ env) = if v.name == key then v.value else find_value key env

-- A nil container is `none`.
unfoldable pub get_env_var_from_container : String → Option Container → String
unfolding find_value
get_env_var_from_container key none = ""
get_env_var_from_container key (some container) = find_value key container.env

abbrev pub create_env_var : String → String → EnvVar
create_env_var key value = record { name = key; value = value; value_from = none }

abbrev pub create_secret_env_var : String → String → String → EnvVar
create_secret_env_var variable_name secret_name secret_key = record {
  name = variable_name;
  value = "";
  value_from = some (record { name = secret_name; key = secret_key });
}

-- The loop of `SetEnvVar` and the append behind it.
unfoldable pub set_value : String → String → List EnvVar → List EnvVar
set_value key value [] = create_env_var key value ∷ []
set_value key value (v ∷ env) =
    if v.name == key then record v { value = value } ∷ env else v ∷ set_value key value env

unfoldable pub set_env_var : String → String → Option Container → Option Container
unfolding set_value
set_env_var key value none = none
set_env_var key value (some c) = some (record c { env = set_value key value c.env })

-- The second loop of `SetEnvVarFromSecret` and the append behind it.
unfoldable pub set_value_from : String → SecretKeySelector → List EnvVar → List EnvVar
set_value_from key source [] = record { name = key; value = ""; value_from = some source } ∷ []
set_value_from key source (v ∷ env) =
    if v.name == key
    then record v { value_from = some source } ∷ env
    else v ∷ set_value_from key source env

-- `secret` is the secret's name, `none` if the pointer is nil.
unfoldable pub set_env_var_from_secret :
    String → String → Option String → Option Container → Option Container
unfolding set_value set_value_from
set_env_var_from_secret key secret_key secret none = none
set_env_var_from_secret key secret_key none (some c) = some c
set_env_var_from_secret key secret_key (some secret) (some c) = some (record c {
  env = set_value_from key (record { name = secret; key = secret_key }) (set_value key "" c.env);
})

-- `eMap`
names_map : List EnvVar → Dict EnvVar → Dict EnvVar
names_map [] m = m
names_map (e ∷ env) m = names_map env (insert e.name e m)

keep_missing : Dict EnvVar → List EnvVar → List EnvVar
keep_missing m [] = []
keep_missing m (e ∷ env) =
    let rest = keep_missing m env in elim (lookup e.name m) [ some _ ↦ rest | none ↦ e ∷ rest ]

-- The variables of `env1` whose names `env2` does not have.
unfoldable pub diff_env_var : List EnvVar → List EnvVar → List EnvVar
unfolding names_map keep_missing
diff_env_var env1 env2 = keep_missing (names_map env2 []) env1
