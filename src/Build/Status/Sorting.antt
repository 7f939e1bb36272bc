-- ===== src/Build/Status/Sorting.antt =====
-- Sorting the builds of a label, the latest in front (core/kogitobuild/status.go).
use kogito_operator.Common.{
  ℕ, ◌≤◌, ◌≡◌, refl, ◌≢◌, ◌↔◌, ◌⊎◌, inl, inr, List, [], ◌∷◌, All, arith, sym, subst,
}
use kogito_operator.Build.Instance.{Build}
use kogito_operator.Build.Status.{insert_build, insert_builds, sort_builds}

-- The front of a list is not earlier than any build of it.
abbrev pub IsLatest : Build → List Build → Type 0
IsLatest latest items = All (λ b. b.creation_timestamp ≤ latest.creation_timestamp) items

-- A build of a list.
abbrev pub Occurs : Build → List Build → Type 0
Occurs x [] = ⊥
Occurs x (b ∷ items) = (x ≡ b) ⊎ Occurs x items

Occurs-insert_build :
    (x b : Build) (xs : List Build) → Occurs x (insert_build b xs) → Occurs x (b ∷ xs)
unfolding insert_build
Occurs-insert_build x b [] h = h
Occurs-insert_build x b (y ∷ xs) h = ground (arith, Occurs-insert_build x b xs)

Occurs-insert_builds :
    (x : Build) (sorted items : List Build)
    → Occurs x (insert_builds sorted items)
    → Occurs x sorted ⊎ Occurs x items
unfolding insert_builds
Occurs-insert_builds x sorted [] h = inl h
Occurs-insert_builds x sorted (b ∷ items) h =
    elim (Occurs-insert_builds x (insert_build b sorted) items h) [
      | inl q ↦ elim (Occurs-insert_build x b sorted q) [ inl e ↦ inr (inl e) | inr o ↦ inl o ]
      | inr o ↦ inr (inr o)
    ]

pub Occurs-sort_builds :
    (items : List Build) (latest : Build) (rest : List Build)
    → sort_builds items ≡ latest ∷ rest
    → Occurs latest items
unfolding sort_builds
Occurs-sort_builds items latest rest h =
    let front : Occurs latest (latest ∷ rest) = inl refl in
    elim (Occurs-insert_builds latest [] items (subst (Occurs latest) (sym h) front)) [
      | inl o ↦ absurd o
      | inr o ↦ o
    ]

abbrev Below : ℕ → List Build → Type 0
Below n items = All (λ b. b.creation_timestamp ≤ n) items

Below-mono : (k n : ℕ) (items : List Build) → k ≤ n → Below k items → Below n items
Below-mono k n [] h u = tt
Below-mono k n (b ∷ items) h (p, u) = (omega arith, Below-mono k n items h u)

-- The builds below a bound are those that were put in.
Below-insert_build :
    (n : ℕ) (b : Build) (xs : List Build) → Below n (insert_build b xs) ↔ Below n (b ∷ xs)
unfolding insert_build
Below-insert_build n b [] = (λ h. h, λ h. h)
Below-insert_build n b (x ∷ xs) = ground (arith, Below-insert_build n b xs)

Below-insert_builds :
    (n : ℕ) (sorted items : List Build)
    → Below n (insert_builds sorted items)
    → Below n sorted × Below n items
unfolding insert_builds
Below-insert_builds n sorted [] h = (h, tt)
Below-insert_builds n sorted (b ∷ items) h =
    let (s, r) = Below-insert_builds n (insert_build b sorted) items h in
    let (p, q) = (Below-insert_build n b sorted).0 s in (q, (p, r))

abbrev HeadLatest : List Build → Type 0
HeadLatest [] = Unit
HeadLatest (x ∷ xs) = Below x.creation_timestamp xs

insert_build-HeadLatest :
    (b : Build) (xs : List Build) → HeadLatest xs → HeadLatest (insert_build b xs)
unfolding insert_build
insert_build-HeadLatest b [] h = tt
insert_build-HeadLatest b (x ∷ xs) h = ground (
  arith,
  Below-mono x.creation_timestamp b.creation_timestamp xs,
  Below-insert_build x.creation_timestamp b xs,
)

insert_builds-HeadLatest :
    (sorted items : List Build) → HeadLatest sorted → HeadLatest (insert_builds sorted items)
unfolding insert_builds
insert_builds-HeadLatest sorted [] h = h
insert_builds-HeadLatest sorted (b ∷ items) h =
    insert_builds-HeadLatest (insert_build b sorted) items (insert_build-HeadLatest b sorted h)

pub sort_builds_lem :
    (items : List Build) (latest : Build) (rest : List Build)
    → sort_builds items ≡ latest ∷ rest
    → IsLatest latest items
unfolding sort_builds
sort_builds_lem items latest rest h =
    let head : HeadLatest (latest ∷ rest) =
      subst HeadLatest h (insert_builds-HeadLatest [] items tt) in
    let below : Below latest.creation_timestamp (latest ∷ rest) = (omega arith, head) in
    (Below-insert_builds latest.creation_timestamp [] items
      (subst (Below latest.creation_timestamp) (sym h) below)).1

insert_build-ne-nil : (b : Build) (xs : List Build) → insert_build b xs ≢ []
unfolding insert_build
insert_build-ne-nil b [] = ground arith
insert_build-ne-nil b (x ∷ xs) = ground arith

insert_builds-eq-nil :
    (sorted items : List Build) → insert_builds sorted items ≡ [] → (sorted ≡ []) × (items ≡ [])
unfolding insert_builds
insert_builds-eq-nil sorted [] h = (h, refl)
insert_builds-eq-nil sorted (b ∷ items) h =
    absurd (insert_build-ne-nil b sorted (insert_builds-eq-nil (insert_build b sorted) items h).0)

pub sort_builds-eq-nil : (items : List Build) → sort_builds items ≡ [] → items ≡ []
unfolding sort_builds
sort_builds-eq-nil items h = (insert_builds-eq-nil [] items h).1
