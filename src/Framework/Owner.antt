-- ===== src/Framework/Owner.antt =====
-- core/framework/owner.go: owner references of an object. `UID`s identify owners.
pub mod Laws
use kogito_operator.Common.{
  String, ℕ, ◌≡◌, refl, Bool, true, false, Option, none, some, List, [], ◌∷◌, ◌++◌, ◌==◌, ◌<◌, ◌≢◌,
  if◌then◌else◌, any, length, ltb, Result, ok, err, arith, eq_iff, ◌||◌,
}
use kogito_operator.Reconciliation.{GoError}

pub record OwnerReference : Type 0 where
  pub api_version : String
  pub kind : String
  pub name : String
  pub uid : String
  pub controller : Bool
  pub block_owner_deletion : Bool

-- `client.Object` as an owner: its identity, and its group version and kind in the scheme.
pub record Owner : Type 0 where
  pub name : String
  pub uid : String

unfoldable pub is_owner : List OwnerReference → Owner → Bool
is_owner refs owner = any (λ r. r.uid == owner.uid) refs

-- One round of the loop of `AddOwnerReference`; the resources are their lists of references.
unfoldable pub add_owner_reference_one :
    String → String → Owner → List OwnerReference → List OwnerReference
unfolding is_owner
add_owner_reference_one api_version kind owner refs =
    if is_owner refs owner
    then refs
    else refs
      ++ (record {
        api_version = api_version;
        kind = kind;
        name = owner.name;
        uid = owner.uid;
        controller = false;
        block_owner_deletion = false;
      }
          ∷ [])

abbrev pub map_refs :
    (List OwnerReference → List OwnerReference)
    → List (List OwnerReference)
    → List (List OwnerReference)
map_refs f [] = []
map_refs f (refs ∷ resources) = f refs ∷ map_refs f resources

-- `gvk` is `apiutil.GVKForObject(owner, scheme)`: the group version and the kind, or an error.
unfoldable pub add_owner_reference :
    Result GoError (String × String)
    → Owner
    → List (List OwnerReference)
    → Result GoError (List (List OwnerReference))
unfolding add_owner_reference_one
add_owner_reference (err e) owner resources = err e
add_owner_reference (ok (api_version, kind)) owner resources =
    ok (map_refs (add_owner_reference_one api_version kind owner) resources)

-- `append(refs[:i], refs[i+1:]...)` at the first reference to the owner.
unfoldable pub remove_first_ref : Owner → List OwnerReference → List OwnerReference
remove_first_ref owner [] = []
remove_first_ref owner (r ∷ refs) =
    let rest = remove_first_ref owner refs in if r.uid == owner.uid then refs else r ∷ rest

unfoldable pub remove_owner_reference :
    Owner → List (List OwnerReference) → List (List OwnerReference)
unfolding remove_first_ref
remove_owner_reference owner resources = map_refs (remove_first_ref owner) resources

-- The loop stops at the first resource that it changes.
unfoldable pub remove_shared_owner_reference :
    Owner → List (List OwnerReference) → List (List OwnerReference) × Bool
unfolding is_owner remove_first_ref
remove_shared_owner_reference owner [] = ([], false)
remove_shared_owner_reference owner (refs ∷ resources) =
    let (rest, removed) = remove_shared_owner_reference owner resources in
    if ltb 1 (length refs)
    then (if is_owner refs owner
        then (remove_first_ref owner refs ∷ resources, true)
        else (refs ∷ rest, removed))
    else (refs ∷ rest, removed)
