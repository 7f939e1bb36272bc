-- ===== src/Api/Conditions.antt =====
-- `metav1.Condition` and the functions of `k8s.io/apimachinery/pkg/api/meta` on lists of it, which
-- are a parameter; apis/kogitoservices_types.go, kogitobuild_types.go and kogitoinfra_types.go name
-- the condition types.
use kogito_operator.Common.{
  String, ◌≡◌, refl, Bool, true, false, Option, none, some, List, [], ◌∷◌, arith, eq_iff, ◌==◌,
  if◌then◌else◌,
}

pub data ConditionStatus : Type 0 where
  condition_true condition_false condition_unknown : ConditionStatus

-- The fields that the operator writes. `LastTransitionTime` is set by the API's own function.
pub record Condition : Type 0 where
  pub kind : String
  pub status : ConditionStatus
  pub reason : String
  pub message : String

-- `meta.SetStatusCondition` and `meta.FindStatusCondition`.
pub record ConditionApi : Type 0 where
  pub set : List Condition → Condition → List Condition
  pub find : List Condition → String → Option Condition

-- Their documentation: a condition of the same type is replaced, any other is kept, and a type that
-- is not there yet is appended.
pub record IsDocumented (m : ConditionApi) : Type 0 where
  pub find-set :
      (cs : List Condition) (c : Condition) (t : String)
      → m.find (m.set cs c) t ≡ (if c.kind == t then some c else m.find cs t)

abbrev pub is_true_status : ConditionStatus → Bool
is_true_status condition_true = true
is_true_status condition_false = false
is_true_status condition_unknown = false

abbrev pub is_false_status : ConditionStatus → Bool
is_false_status condition_true = false
is_false_status condition_false = true
is_false_status condition_unknown = false

abbrev pub holds : Option Condition → Bool
holds none = false
holds (some c) = is_true_status c.status

-- `meta.IsStatusConditionTrue`
abbrev pub is_status_condition_true : ConditionApi → List Condition → String → Bool
is_status_condition_true m cs t = holds (m.find cs t)

abbrev pub deployed_condition_type : String
deployed_condition_type = "Deployed"

abbrev pub provisioning_condition_type : String
provisioning_condition_type = "Provisioning"

abbrev pub failed_condition_type : String
failed_condition_type = "Failed"

abbrev pub kogito_build_successful : String
kogito_build_successful = "Successful"

abbrev pub kogito_build_failure : String
kogito_build_failure = "Failed"

abbrev pub kogito_build_running : String
kogito_build_running = "Running"

abbrev pub kogito_infra_configured : String
kogito_infra_configured = "Configured"

find_status_condition : List Condition → String → Option Condition
find_status_condition [] t = none
find_status_condition (c ∷ cs) t = if c.kind == t then some c else find_status_condition cs t

set_status_condition : List Condition → Condition → List Condition
set_status_condition [] new = new ∷ []
set_status_condition (c ∷ cs) new =
    if c.kind == new.kind then new ∷ cs else c ∷ set_status_condition cs new

-- A list that is updated in place, which meets the documentation.
unfoldable pub listed : ConditionApi
unfolding find_status_condition set_status_condition
listed = record { set = set_status_condition; find = find_status_condition }

find-set_listed :
    (cs : List Condition) (c : Condition) (t : String)
    → find_status_condition (set_status_condition cs c) t
      ≡ (if c.kind == t then some c else find_status_condition cs t)
unfolding find_status_condition set_status_condition
find-set_listed [] c t = refl
find-set_listed (d ∷ cs) c t =
    ground (arith, eq_iff d.kind c.kind, eq_iff d.kind t, eq_iff c.kind t, find-set_listed cs c t)

pub listed-IsDocumented : IsDocumented listed
unfolding listed
listed-IsDocumented = record { find-set = find-set_listed }
