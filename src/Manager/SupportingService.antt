-- ===== src/Manager/SupportingService.antt =====
-- core/manager/supportingservice_manager.go: the supporting service of a type, of which a namespace
-- is to have one at most.
use kogito_operator.Common.{
  String, ◌<>◌, ◌≡◌, refl, true, false, Option, none, some, List, [], ◌∷◌, Result, ok, err, ◌==◌,
  if◌then◌else◌, any, All, length, ltb, arith, Bool-cases, inl, inr,
}
use kogito_operator.Api.Workloads.{Deployment}
use kogito_operator.Reconciliation.{GoError, plain}

-- KogitoSupportingService (apis/kogitosupportingservice_types.go).
pub record SupportingService : Type 0 where
  pub name : String
  pub namespace : String
  pub uid : String
  pub service_type : String
  pub external_uri : String

-- What the manager reads: the items of `FetchKogitoSupportingServiceList` and `FetchDeploymentList`.
pub record SupportingServiceReads : Type 0 where
  pub services : String → Result GoError (List SupportingService)
  pub deployments : String → Result GoError (List Deployment)

-- The services of a type, in the list's order.
of_type : String → List SupportingService → List SupportingService
of_type ty [] = []
of_type ty (s ∷ items) =
    let rest = of_type ty items in if s.service_type == ty then s ∷ rest else rest

duplicate_error : String → GoError
duplicate_error ty = plain (
    "kogito Supporting Service("
    <> (ty <> ") already exists, please delete the duplicate before proceeding"))

singleton_check : String → Result GoError (List SupportingService) → Option GoError
unfolding of_type
singleton_check ty (err e) = some e
singleton_check ty (ok items) =
    if ltb 1 (length (of_type ty items)) then some (duplicate_error ty) else none

unfoldable pub ensure_singleton_service : SupportingServiceReads → String → String → Option GoError
unfolding singleton_check duplicate_error
ensure_singleton_service c namespace resource_type =
    singleton_check resource_type (c.services namespace)

first_of_type : String → List SupportingService → Option SupportingService
first_of_type ty [] = none
first_of_type ty (s ∷ items) = if s.service_type == ty then some s else first_of_type ty items

service_in :
    String → Result GoError (List SupportingService) → Result GoError (Option SupportingService)
unfolding first_of_type
service_in ty (err e) = err e
service_in ty (ok items) = ok (first_of_type ty items)

unfoldable pub fetch_kogito_supporting_service_for_service_type :
    SupportingServiceReads → String → String → Result GoError (Option SupportingService)
unfolding service_in
fetch_kogito_supporting_service_for_service_type c namespace service_type =
    service_in service_type (c.services namespace)

unfoldable pub fetch_kogito_supporting_service_route :
    SupportingServiceReads → String → String → Result GoError String
fetch_kogito_supporting_service_route c namespace service_type =
    elim (fetch_kogito_supporting_service_for_service_type c namespace service_type) [
      | err e ↦ err e
      | ok none ↦ ok ""
      | ok (some s) ↦ ok s.external_uri
    ]

-- The first deployment with an owner reference to the service.
first_owned : String → List Deployment → Option Deployment
first_owned uid [] = none
first_owned uid (d ∷ items) =
    if any (λ owner. owner == uid) d.owner_uids then some d else first_owned uid items

owned_in : String → Result GoError (List Deployment) → Result GoError (Option Deployment)
unfolding first_owned
owned_in uid (err e) = err e
owned_in uid (ok items) = ok (first_owned uid items)

deployment_of :
    SupportingServiceReads
    → String
    → Result GoError (Option SupportingService)
    → Result GoError (Option Deployment)
unfolding owned_in
deployment_of c namespace (err e) = err e
deployment_of c namespace (ok none) = ok none
deployment_of c namespace (ok (some s)) = owned_in s.uid (c.deployments namespace)

unfoldable pub fetch_kogito_supporting_service_deployment :
    SupportingServiceReads → String → String → Result GoError (Option Deployment)
unfolding deployment_of
fetch_kogito_supporting_service_deployment c namespace service_type =
    deployment_of c namespace
      (fetch_kogito_supporting_service_for_service_type c namespace service_type)

no_more :
    (ty : String) (items : List SupportingService) (s : SupportingService)
    → length (of_type ty items) ≡ 0
    → All (λ t. (t.service_type == ty) ≡ true → t ≡ s) items
unfolding of_type
no_more ty [] s h = tt
no_more ty (t ∷ items) s h = (ground arith, no_more ty items s (ground arith))

only_one :
    (ty : String) (items : List SupportingService) (s : SupportingService)
    → ltb 1 (length (of_type ty items)) ≡ false
    → first_of_type ty items ≡ some s
    → All (λ t. (t.service_type == ty) ≡ true → t ≡ s) items
unfolding of_type first_of_type
only_one ty [] s h f = tt
only_one ty (t ∷ items) s h f = elim (Bool-cases (t.service_type == ty)) [
  | inl e ↦ (ground arith, no_more ty items s (ground arith))
  | inr e ↦ (ground arith, only_one ty items s (ground arith) (ground arith))
]

-- Where the check for a single service passes, the service that is found for the type is the only
-- one of that type in the namespace.
pub ensure_singleton_service_unique :
    (c : SupportingServiceReads) (namespace ty : String) (items : List SupportingService)
    (s : SupportingService)
    → c.services namespace ≡ ok items
    → ensure_singleton_service c namespace ty ≡ none
    → fetch_kogito_supporting_service_for_service_type c namespace ty ≡ ok (some s)
    → All (λ t. (t.service_type == ty) ≡ true → t ≡ s) items
unfolding ensure_singleton_service fetch_kogito_supporting_service_for_service_type
ensure_singleton_service_unique c namespace ty items s l e f =
    only_one ty items s (ground arith) (ground arith)

first_owned_lem :
    (uid : String) (items : List Deployment) (d : Deployment)
    → first_owned uid items ≡ some d
    → any (λ owner. owner == uid) d.owner_uids ≡ true
unfolding first_owned
first_owned_lem uid [] d h = cc
first_owned_lem uid (x ∷ items) d h = ground (arith, first_owned_lem uid items d)

owned_in_lem :
    (uid : String) (r : Result GoError (List Deployment)) (d : Deployment)
    → owned_in uid r ≡ ok (some d)
    → any (λ owner. owner == uid) d.owner_uids ≡ true
unfolding owned_in
owned_in_lem uid (err e) d h = cc
owned_in_lem uid (ok items) d h = first_owned_lem uid items d (ground arith)

owned_deployment :
    (c : SupportingServiceReads) (namespace : String) (d : Deployment)
    (found : Result GoError (Option SupportingService))
    → deployment_of c namespace found ≡ ok (some d)
    → (s : SupportingService) × (found ≡ ok (some s))
      × (any (λ owner. owner == s.uid) d.owner_uids ≡ true)
unfolding deployment_of
owned_deployment c namespace d (err e) h = cc
owned_deployment c namespace d (ok none) h = cc
owned_deployment c namespace d (ok (some s)) h = (s, refl, owned_in_lem s.uid _ d h)

-- The deployment that is found for a type is owned by a service of that type.
pub fetch_kogito_supporting_service_deployment_owned :
    (c : SupportingServiceReads) (namespace ty : String) (d : Deployment)
    → fetch_kogito_supporting_service_deployment c namespace ty ≡ ok (some d)
    → (s : SupportingService) × (fetch_kogito_supporting_service_for_service_type c namespace ty
        ≡ ok (some s))
      × (any (λ owner. owner == s.uid) d.owner_uids ≡ true)
unfolding fetch_kogito_supporting_service_deployment
fetch_kogito_supporting_service_deployment_owned c namespace ty d h =
    owned_deployment c namespace d (fetch_kogito_supporting_service_for_service_type c namespace ty)
      h
