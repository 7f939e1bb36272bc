-- ===== src/Framework/EnvVar/Laws.antt =====
-- What overriding, setting and comparing do to the variables of a container, seen through the
-- variable that a name denotes.
use mathlib.Core.Option.{or_else}
use kogito_operator.Common.{
  String, ◌≡◌, refl, ◌∙◌, Bool, true, false, Option, none, some, List, [], ◌∷◌, arith, eq_iff, ◌==◌,
  if◌then◌else◌,
}
use kogito_operator.Common.Dict.{Dict, lookup, insert, lookup-insert}
use kogito_operator.Api.Workloads.{EnvVar, SecretKeySelector, Container}
use kogito_operator.Framework.EnvVar.{
  override_one, env_override, find_value, get_env_var_from_container, set_value, set_env_var,
  set_value_from, set_env_var_from_secret, names_map, keep_missing, diff_env_var,
}

-- The variable that a container sees under a name: the first of that name.
unfoldable pub find_env : String → List EnvVar → Option EnvVar
find_env k [] = none
find_env k (v ∷ env) = if v.name == k then some v else find_env k env

-- The last of a name.
unfoldable pub last_env : String → List EnvVar → Option EnvVar
last_env k [] = none
last_env k (v ∷ env) = or_else (last_env k env) (if v.name == k then some v else none)

override_one-cons :
    (v cre : EnvVar) (env : List EnvVar)
    → override_one (v ∷ env) cre
      ≡ (if v.name == cre.name then cre ∷ env else v ∷ override_one env cre)
unfolding override_one
override_one-cons v cre env = ground arith

find_env-override_one :
    (k : String) (env : List EnvVar) (cre : EnvVar)
    → find_env k (override_one env cre) ≡ (if cre.name == k then some cre else find_env k env)
unfolding find_env
find_env-override_one k [] cre = unfold override_one in refl
find_env-override_one k (v ∷ env) cre = rw override_one-cons (
    ground (
      arith,
      eq_iff v.name cre.name,
      eq_iff v.name k,
      eq_iff cre.name k,
      find_env-override_one k env cre,
    ))

-- After an override each name denotes the last source variable of that name, and where the source
-- has none it denotes what it denoted before.
pub find_env-env_override :
    (k : String) (dst src : List EnvVar)
    → find_env k (env_override dst src) ≡ or_else (last_env k src) (find_env k dst)
unfolding env_override last_env or_else
find_env-env_override k dst [] = refl
find_env-env_override k dst (cre ∷ src) =
    find_env-env_override k (override_one dst cre) src
    ∙ ground (arith, find_env-override_one k dst cre)

abbrev pub NodupNames : List EnvVar → Type 0
NodupNames [] = Unit
NodupNames (v ∷ env) = (find_env v.name env ≡ none) × NodupNames env

override_one-NodupNames :
    (env : List EnvVar) (cre : EnvVar) → NodupNames env → NodupNames (override_one env cre)
unfolding override_one
override_one-NodupNames [] cre h = (unfold find_env in refl, tt)
override_one-NodupNames (v ∷ env) cre (fresh, u) = rw override_one-cons (
    ground (
      arith,
      eq_iff v.name cre.name,
      eq_iff cre.name v.name,
      find_env-override_one v.name env cre,
      override_one-NodupNames env cre u,
    ))

-- An override of variables with distinct names leaves their names distinct.
pub env_override-NodupNames :
    (dst src : List EnvVar) → NodupNames dst → NodupNames (env_override dst src)
unfolding env_override
env_override-NodupNames dst [] h = h
env_override-NodupNames dst (cre ∷ src) h =
    env_override-NodupNames (override_one dst cre) src (override_one-NodupNames dst cre h)

find_value-set_value :
    (k j v : String) (env : List EnvVar)
    → find_value j (set_value k v env) ≡ (if k == j then v else find_value j env)
unfolding find_value set_value
find_value-set_value k j v [] = refl
find_value-set_value k j v (e ∷ env) =
    ground (arith, eq_iff e.name k, eq_iff e.name j, eq_iff k j, find_value-set_value k j v env)

-- Reading a variable of a container after setting one: the value that was set under that name, and
-- the old value under any other.
pub get_env_var_from_container-set_env_var :
    (k j v : String) (c : Container)
    → get_env_var_from_container j (set_env_var k v (some c))
      ≡ (if k == j then v else get_env_var_from_container j (some c))
unfolding get_env_var_from_container set_env_var
get_env_var_from_container-set_env_var k j v c = find_value-set_value k j v c.env

abbrev pub env_of : Option Container → List EnvVar
env_of none = []
env_of (some c) = c.env

find_env-set_value :
    (k j v : String) (env : List EnvVar) (s : SecretKeySelector)
    → find_env j (set_value_from k s (set_value k v env)) ≡ (
        if k == j
        then some (record { name = k; value = v; value_from = some s })
        else find_env j env)
unfolding find_env set_value set_value_from
find_env-set_value k j v [] s = ground (arith, eq_iff k k, eq_iff k j)
find_env-set_value k j v (e ∷ env) s =
    ground (arith, eq_iff e.name k, eq_iff e.name j, eq_iff k j, find_env-set_value k j v env s)

-- A variable that is set from a secret denotes an empty value with the secret as its source,
-- whatever it was before; every other name denotes what it did.
pub find_env-set_env_var_from_secret :
    (k j secret_key secret : String) (c : Container)
    → find_env j (env_of (set_env_var_from_secret k secret_key (some secret) (some c))) ≡ (
        if k == j
        then some (record {
          name = k;
          value = "";
          value_from = some (record { name = secret; key = secret_key });
        })
        else find_env j c.env)
unfolding set_env_var_from_secret
find_env-set_env_var_from_secret k j secret_key secret c =
    find_env-set_value k j "" c.env (record { name = secret; key = secret_key })

abbrev is_none {ℓ} : {A : Type ℓ} → Option A → Bool
is_none none = true
is_none (some _) = false

is_none-lookup-names_map :
    (k : String) (env : List EnvVar) (m : Dict EnvVar)
    → is_none (lookup k (names_map env m)) ≡ is_none (or_else (find_env k env) (lookup k m))
unfolding names_map find_env or_else
is_none-lookup-names_map k [] m = refl
is_none-lookup-names_map k (e ∷ env) m =
    is_none-lookup-names_map k env (insert e.name e m) ∙ ground (arith, lookup-insert e.name k e m)

find_env-keep_missing :
    (k : String) (m : Dict EnvVar) (env : List EnvVar)
    → find_env k (keep_missing m env) ≡ (if is_none (lookup k m) then find_env k env else none)
unfolding keep_missing find_env
find_env-keep_missing k m [] = ground arith
find_env-keep_missing k m (e ∷ env) = ground (arith, eq_iff e.name k, find_env-keep_missing k m env)

-- The difference holds exactly the variables of the first list whose name the second list lacks.
pub find_env-diff_env_var :
    (k : String) (env1 env2 : List EnvVar)
    → find_env k (diff_env_var env1 env2)
      ≡ (if is_none (find_env k env2) then find_env k env1 else none)
unfolding diff_env_var
find_env-diff_env_var k env1 env2 =
    find_env-keep_missing k (names_map env2 []) env1
    ∙ rw is_none-lookup-names_map (unfold lookup or_else in ground arith)
