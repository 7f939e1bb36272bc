-- ===== src/Framework/Owner/Laws.antt =====
-- Owners that are added are found, can be taken out again, and a shared resource keeps an owner.
use kogito_operator.Common.{
  String, suc, ◌≡◌, refl, Bool, true, false, List, [], ◌∷◌, ◌++◌, ◌==◌, ◌<◌, ◌≤◌, length, ok, arith,
  eq_refl, Bool-cases, inl, inr, ap,
}
use kogito_operator.Framework.Owner.{
  OwnerReference, Owner, is_owner, add_owner_reference_one, add_owner_reference, map_refs,
  remove_first_ref, remove_owner_reference, remove_shared_owner_reference,
}

is_owner-append_self :
    (refs : List OwnerReference) (r : OwnerReference) (o : Owner)
    → (r.uid == o.uid) ≡ true
    → is_owner (refs ++ (r ∷ [])) o ≡ true
unfolding is_owner
is_owner-append_self [] r o h = rw h
is_owner-append_self (q ∷ refs) r o h = ground (arith, is_owner-append_self refs r o h)

pub is_owner-add_owner_reference_one :
    (v k : String) (o : Owner) (refs : List OwnerReference)
    → is_owner (add_owner_reference_one v k o refs) o ≡ true
unfolding add_owner_reference_one
is_owner-add_owner_reference_one v k o refs = elim (Bool-cases (is_owner refs o)) [
  | inl e ↦ rw e e
  | inr e ↦ rw e (is_owner-append_self refs _ o (eq_refl o.uid))
]

remove_first_ref-append :
    (o : Owner) (r : OwnerReference) (refs : List OwnerReference)
    → is_owner refs o ≡ false
    → (r.uid == o.uid) ≡ true
    → remove_first_ref o (refs ++ (r ∷ [])) ≡ refs
unfolding is_owner remove_first_ref
remove_first_ref-append o r [] h e = ground arith
remove_first_ref-append o r (q ∷ refs) h e = ground (arith, remove_first_ref-append o r refs)

remove-add :
    (v k : String) (o : Owner) (refs : List OwnerReference)
    → is_owner refs o ≡ false
    → remove_first_ref o (add_owner_reference_one v k o refs) ≡ refs
unfolding add_owner_reference_one
remove-add v k o refs h = rw h (remove_first_ref-append o _ refs h (eq_refl o.uid))

abbrev pub AllOwned : Owner → Bool → List (List OwnerReference) → Type 0
AllOwned o b [] = Unit
AllOwned o b (refs ∷ resources) = (is_owner refs o ≡ b) × AllOwned o b resources

-- Adding an owner to resources that it owns none of succeeds, makes it an owner of each, and
-- removing it again gives back the resources as they were.
pub remove_owner_reference-add_owner_reference :
    (v k : String) (o : Owner) (resources : List (List OwnerReference))
    → AllOwned o false resources
    → let added = map_refs (add_owner_reference_one v k o) resources in
      (add_owner_reference (ok (v, k)) o resources ≡ ok added)
      × AllOwned o true added
      × (remove_owner_reference o added ≡ resources)
unfolding add_owner_reference remove_owner_reference
remove_owner_reference-add_owner_reference v k o [] h = (refl, tt, refl)
remove_owner_reference-add_owner_reference v k o (refs ∷ resources) (h, hs) =
    let (_, owned, same) = remove_owner_reference-add_owner_reference v k o resources hs in
    (
      refl,
      (is_owner-add_owner_reference_one v k o refs, owned),
      rw (remove-add v k o refs h) (ap (λ r. refs ∷ r) same),
    )

-- As many resources, and each that had an owner has one.
abbrev pub KeepsOwners : List (List OwnerReference) → List (List OwnerReference) → Type 0
KeepsOwners [] [] = Unit
KeepsOwners [] (_ ∷ _) = ⊥
KeepsOwners (_ ∷ _) [] = ⊥
KeepsOwners (refs ∷ before) (refs' ∷ after) =
    (0 < length refs → 0 < length refs') × KeepsOwners before after

KeepsOwners-refl : (resources : List (List OwnerReference)) → KeepsOwners resources resources
KeepsOwners-refl [] = tt
KeepsOwners-refl (refs ∷ resources) = (λ h. h, KeepsOwners-refl resources)

length-remove_first_ref :
    (o : Owner) (refs : List OwnerReference) → length refs ≤ suc (length (remove_first_ref o refs))
unfolding remove_first_ref
length-remove_first_ref o [] = omega arith
length-remove_first_ref o (r ∷ refs) = ground (arith, length-remove_first_ref o refs)

-- Removing a shared owner never takes the last owner of a resource.
pub remove_shared_owner_reference-KeepsOwners :
    (o : Owner) (resources : List (List OwnerReference))
    → KeepsOwners resources (remove_shared_owner_reference o resources).0
unfolding remove_shared_owner_reference
remove_shared_owner_reference-KeepsOwners o [] = tt
remove_shared_owner_reference-KeepsOwners o (refs ∷ resources) = ground (
  arith,
  KeepsOwners-refl resources,
  length-remove_first_ref o refs,
  remove_shared_owner_reference-KeepsOwners o resources,
)
