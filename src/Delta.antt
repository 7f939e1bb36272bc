-- ===== src/Delta.antt =====
-- core/infrastructure/delta_processor.go: bringing the cluster from what is deployed to what is
-- requested. The comparison is the operator-utils library's; its deltas come in the order in which Go
-- walks the map.
use mathlib.Core.List.{append_assoc, append-nil}
use kogito_operator.Common.{
  String, Bool, true, false, ◌||◌, ◌≡◌, refl, ◌∙◌, Option, none, some, List, [], ◌∷◌, ◌++◌, Step,
  next, fail, ◌>>=◌, >>=-eq-next, next_injective, any, if◌then◌else◌, sym, Bool-cases, inl, inr, ap,
}
use kogito_operator.Reconciliation.{GoError}

-- `compare.ResourceDelta` of one resource type.
pub record ResourceDelta (O : Type 0) : Type 0 where
  pub resource_type : String
  pub added : List O
  pub updated : List O
  pub removed : List O

-- What the API server has accepted.
pub data Write (O : Type 0) : Type 0 where
  created : List O → Write O
  updated_to : List O → Write O
  deleted : List O → Write O

-- `delta.HasChanges`, and the API server's answers to the three calls.
pub record DeltaClient (O : Type 0) : Type 0 where
  pub has_changes : ResourceDelta O → Bool
  pub create_resources : List O → Option GoError
  pub update_resources : List O → Option GoError
  pub delete_resources : List O → Option GoError

pub record DeltaState (O : Type 0) : Type 0 where
  pub writes : List (Write O)
  pub is_delta_processed : Bool

module _ {O : Type 0} (c : DeltaClient O) where
  abbrev accept : Option GoError → Write O → DeltaState O → Step GoError (DeltaState O)
  accept (some e) w s = fail s e
  accept none w s = next (record s { writes = s.writes ++ (w ∷ []) })

  -- The body of the loop for a delta with changes.
  unfoldable pub apply_delta : ResourceDelta O → DeltaState O → Step GoError (DeltaState O)
  apply_delta d s = do
    s1 ← accept (c.create_resources d.added) (created d.added) s
    s2 ← accept (c.update_resources d.updated) (updated_to d.updated) s1
    s3 ← accept (c.delete_resources d.removed) (deleted d.removed) s2
    next (record s3 { is_delta_processed = true })

  unfoldable pub process_delta : List (ResourceDelta O) → DeltaState O → Step GoError (DeltaState O)
  unfolding apply_delta
  process_delta [] s = next s
  process_delta (d ∷ deltas) s =
      (if c.has_changes d then apply_delta d s else next s) >>= process_delta deltas

  -- The writes that a delta asks for.
  abbrev pub writes_of : List (ResourceDelta O) → List (Write O)
  writes_of [] = []
  writes_of (d ∷ deltas) =
      let rest = writes_of deltas in
      if c.has_changes d
      then created d.added ∷ (updated_to d.updated ∷ (deleted d.removed ∷ rest))
      else rest

  accept_lem :
      (answer : Option GoError) (w : Write O) (s t : DeltaState O)
      → accept answer w s ≡ next t
      → (t.writes ≡ s.writes ++ (w ∷ [])) × (t.is_delta_processed ≡ s.is_delta_processed)
  accept_lem (some e) w s t h = cc
  accept_lem none w s t h =
      let e = next_injective h in
      (sym (ap (λ x. x.writes) e), sym (ap (λ x. x.is_delta_processed) e))

  pub apply_delta_lem :
      (d : ResourceDelta O) (s t : DeltaState O)
      → apply_delta d s ≡ next t
      → (t.writes
          ≡ s.writes ++ (created d.added ∷ (updated_to d.updated ∷ (deleted d.removed ∷ []))))
        × (t.is_delta_processed ≡ true)
  unfolding apply_delta
  apply_delta_lem d s t h =
      let (s1, e1, h1) = >>=-eq-next _ _ h in
      let (s2, e2, h2) = >>=-eq-next _ _ h1 in
      let (s3, e3, h3) = >>=-eq-next _ _ h2 in
      let w1 = accept_lem (c.create_resources d.added) _ s s1 e1 in
      let w2 = accept_lem (c.update_resources d.updated) _ s1 s2 e2 in
      let w3 = accept_lem (c.delete_resources d.removed) _ s2 s3 e3 in
      let e = next_injective h3 in
      (
        sym (ap (λ x. x.writes) e) ∙ w3.0 ∙ simp (w2.0, w1.0, append_assoc),
        sym (ap (λ x. x.is_delta_processed) e),
      )

  if_true : {A : Type 0} {b : Bool} (x y : A) → b ≡ true → (if b then x else y) ≡ x
  if_true x y e = rw e refl

  if_false : {A : Type 0} {b : Bool} (x y : A) → b ≡ false → (if b then x else y) ≡ y
  if_false x y e = rw e refl

  or-true : (b : Bool) → (b || true) ≡ true
  or-true true = refl
  or-true false = refl

  -- A run that succeeds has made, for each delta with changes and in their order, the creations, the
  -- updates and the deletions, and nothing else; behind it a delta counts as processed exactly when
  -- one had changes or one did so before.
  pub process_delta_lem :
      (deltas : List (ResourceDelta O)) (s t : DeltaState O)
      → process_delta deltas s ≡ next t
      → (t.writes ≡ s.writes ++ writes_of deltas)
        × (t.is_delta_processed ≡ (any c.has_changes deltas || s.is_delta_processed))
  unfolding process_delta
  process_delta_lem [] s t h =
      let e = next_injective h in
      (sym (ap (λ x. x.writes) e) ∙ sym (append-nil _), sym (ap (λ x. x.is_delta_processed) e))
  process_delta_lem (d ∷ deltas) s t h =
      let (s1, e1, h1) =
        >>=-eq-next (if c.has_changes d then apply_delta d s else next s) (process_delta deltas)
          h in
      let rest = process_delta_lem deltas s1 t h1 in
      elim (Bool-cases (c.has_changes d)) [
        | inl e ↦
            let a = apply_delta_lem d s s1 (sym (if_true _ _ e) ∙ e1) in
            (rw e (rest.0 ∙ simp (a.0, append_assoc)), rw e (rest.1 ∙ rw (a.1) (or-true _)))
        | inr e ↦
            let q = next_injective (sym (if_false _ _ e) ∙ e1) in
            (
              rw e (rest.0 ∙ sym (ap (λ x. x.writes ++ writes_of deltas) q)),
              rw e (rest.1 ∙ sym (ap (λ x. any c.has_changes deltas || x.is_delta_processed) q)),
            )
      ]
