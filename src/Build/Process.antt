-- ===== src/Build/Process.antt =====
-- core/kogitobuild/build_manager.go: `ProcessDelta`.
use mathlib.Core.List.{append_assoc, append-nil}
use kogito_operator.Common.{
  String, ◌≡◌, refl, ◌∙◌, sym, ap, Bool, true, false, ◌||◌, List, [], ◌∷◌, ◌++◌, if◌then◌else◌,
  ◌==◌, Step, next, fail, panic, ◌>>=◌, >>=-eq-next, next_injective, Bool-cases, ◌⊎◌, inl, inr,
}
use kogito_operator.Reconciliation.{GoError}
use kogito_operator.Delta.{
  ResourceDelta, DeltaClient, DeltaState, created, updated_to, deleted, apply_delta,
  apply_delta_lem, writes_of,
}
use kogito_operator.Images.Streams.{ImageStream}
use kogito_operator.Build.Instance.{
  KogitoBuild, BuildConfig, local_source_build_type, remote_source_build_type,
}
use kogito_operator.Build.Request.{TriggerClient, BuildEvents, on_build_config_change}

pub data BuildObject : Type 0 where
  config_object : BuildConfig → BuildObject
  stream_object : ImageStream → BuildObject

abbrev configs_of : List BuildObject → List BuildConfig
configs_of [] = []
configs_of (config_object bc ∷ objects) = bc ∷ configs_of objects
configs_of (stream_object is ∷ objects) = configs_of objects

-- The writes so far, and the builds that were cancelled and started.
pub record BuildProgress : Type 0 where
  pub delta : DeltaState BuildObject
  pub events : BuildEvents

module _ (t : TriggerClient) (c : DeltaClient BuildObject) (b : KogitoBuild) where
  with_events : BuildProgress → Step GoError BuildEvents → Step GoError BuildProgress
  with_events s panic = panic
  with_events s (fail events e) = fail (record s { events = events }) e
  with_events s (next events) = next (record s { events = events })

  -- The type of the resources is that of build configurations or of image streams.
  on_resource_change : String → List BuildObject → BuildProgress → Step GoError BuildProgress
  unfolding with_events
  on_resource_change resource_type [] s = next s
  on_resource_change resource_type (o ∷ updated) s =
      if resource_type == "BuildConfig"
      then with_events s (on_build_config_change t b (configs_of (o ∷ updated)) s.events)
      else next s

  written : BuildProgress → Step GoError (DeltaState BuildObject) → Step GoError BuildProgress
  written s panic = panic
  written s (fail d e) = fail (record s { delta = d }) e
  written s (next d) = next (record s { delta = d })

  -- The body of the loop for a delta with changes. Its writes are those of the delta processor,
  -- whose flag is not read here.
  unfoldable pub apply_build_delta :
      ResourceDelta BuildObject → BuildProgress → Step GoError BuildProgress
  unfolding on_resource_change written
  apply_build_delta d s =
      written s (apply_delta c d s.delta) >>= on_resource_change d.resource_type d.updated

  unfoldable pub process_build_delta :
      List (ResourceDelta BuildObject) → BuildProgress → Step GoError BuildProgress
  unfolding apply_build_delta
  process_build_delta [] s = next s
  process_build_delta (d ∷ deltas) s =
      (if c.has_changes d then apply_build_delta d s else next s) >>= process_build_delta deltas

  abbrev pub is_source : Bool
  is_source =
      (b.build_type == remote_source_build_type) || (b.build_type == local_source_build_type)

  on_build_config_change-binary :
      (bcs : List BuildConfig) (events : BuildEvents)
      → is_source ≡ false
      → on_build_config_change t b bcs events ≡ next events
  unfolding on_build_config_change
  on_build_config_change-binary bcs events h = rw h refl

  abbrev OnlyEvents : BuildProgress → BuildProgress → Type 0
  OnlyEvents s s1 = (s1.delta ≡ s.delta) × ((is_source ≡ true) ⊎ (s1.events ≡ s.events))

  with_events-OnlyEvents :
      (s s1 : BuildProgress) (x : Step GoError BuildEvents)
      → with_events s x ≡ next s1
      → (is_source ≡ true) ⊎ (x ≡ next s.events)
      → OnlyEvents s s1
  unfolding with_events
  with_events-OnlyEvents s s1 panic h k = cc
  with_events-OnlyEvents s s1 (fail events e) h k = cc
  with_events-OnlyEvents s s1 (next events) h k = (
    sym (ap (λ x. x.delta) (next_injective h)),
    elim k [
      | inl e ↦ inl e
      | inr e ↦ inr (sym (ap (λ x. x.events) (next_injective h)) ∙ next_injective e)
    ],
  )

  on_resource_change-OnlyEvents :
      (resource_type : String) (updated : List BuildObject) (s s1 : BuildProgress)
      → on_resource_change resource_type updated s ≡ next s1
      → OnlyEvents s s1
  unfolding on_resource_change
  on_resource_change-OnlyEvents resource_type [] s s1 h = (
    sym (ap (λ x. x.delta) (next_injective h)),
    inr (sym (ap (λ x. x.events) (next_injective h))),
  )
  on_resource_change-OnlyEvents resource_type (o ∷ updated) s s1 h =
      typed (resource_type == "BuildConfig") s s1 h
    where
      restarted :
          (s : BuildProgress)
          → (is_source ≡ true)
            ⊎ (on_build_config_change t b (configs_of (o ∷ updated)) s.events ≡ next s.events)
      restarted s = elim (Bool-cases is_source) [
        | inl e ↦ inl e
        | inr e ↦ inr (on_build_config_change-binary (configs_of (o ∷ updated)) s.events e)
      ]

      typed :
          (is_config : Bool) (s s1 : BuildProgress)
          → (if is_config
              then with_events s (on_build_config_change t b (configs_of (o ∷ updated)) s.events)
              else next s)
            ≡ next s1
          → OnlyEvents s s1
      typed true s s1 h = with_events-OnlyEvents s s1 _ h (restarted s)
      typed false s s1 h = (
        sym (ap (λ x. x.delta) (next_injective h)),
        inr (sym (ap (λ x. x.events) (next_injective h))),
      )

  written_next :
      (s s1 : BuildProgress) (x : Step GoError (DeltaState BuildObject))
      → written s x ≡ next s1
      → (x ≡ next s1.delta) × (s1.events ≡ s.events)
  unfolding written
  written_next s s1 panic h = cc
  written_next s s1 (fail d e) h = cc
  written_next s s1 (next d) h =
      let q = next_injective h in (ap (λ x. next x.delta) q, sym (ap (λ x. x.events) q))

  abbrev Outcome : List (ResourceDelta BuildObject) → BuildProgress → BuildProgress → Type 0
  Outcome deltas s s1 =
      (s1.delta.writes ≡ s.delta.writes ++ writes_of c deltas)
      × ((is_source ≡ true) ⊎ (s1.events ≡ s.events))

  apply_build_delta-Outcome :
      (d : ResourceDelta BuildObject) (s s1 : BuildProgress)
      → apply_build_delta d s ≡ next s1
      → c.has_changes d ≡ true
      → Outcome (d ∷ []) s s1
  unfolding apply_build_delta
  apply_build_delta-Outcome d s s1 h k =
      let (m, h1, h2) =
        >>=-eq-next (written s (apply_delta c d s.delta))
          (on_resource_change d.resource_type d.updated) h in
      let (w, e) = written_next s m (apply_delta c d s.delta) h1 in
      let (q, o) = on_resource_change-OnlyEvents d.resource_type d.updated m s1 h2 in
      (
        ap (λ x. x.writes) q ∙ (apply_delta_lem c d s.delta m.delta w).0 ∙ rw k refl,
        elim o [ inl x ↦ inl x | inr x ↦ inr (x ∙ e) ],
      )

  append-Outcome :
      (d : ResourceDelta BuildObject) (deltas : List (ResourceDelta BuildObject))
      (s m s1 : BuildProgress)
      → Outcome (d ∷ []) s m
      → Outcome deltas m s1
      → Outcome (d ∷ deltas) s s1
  append-Outcome d deltas s m s1 (w, e) (ws, es) = (
    ws
        ∙ rw w (
            append_assoc s.delta.writes (writes_of c (d ∷ [])) (writes_of c deltas)
            ∙ ap (λ x. s.delta.writes ++ x) (joined (c.has_changes d))),
    elim es [ inl x ↦ inl x | inr x ↦ elim e [ inl y ↦ inl y | inr y ↦ inr (x ∙ y) ] ],
  )
    where
      joined :
          (changed : Bool)
          → ((if changed
                then created d.added ∷ (updated_to d.updated ∷ (deleted d.removed ∷ []))
                else [])
              ++ writes_of c deltas)
            ≡ (if changed
                then created d.added
                  ∷ (updated_to d.updated ∷ (deleted d.removed ∷ writes_of c deltas))
                else writes_of c deltas)
      joined true = refl
      joined false = refl

  chosen :
      (d : ResourceDelta BuildObject) (s m : BuildProgress) (changed : Bool)
      → c.has_changes d ≡ changed
      → (if changed then apply_build_delta d s else next s) ≡ next m
      → Outcome (d ∷ []) s m
  chosen d s m true k h = apply_build_delta-Outcome d s m h k
  chosen d s m false k h =
      let q = sym (next_injective h) in
      (ap (λ x. x.delta.writes) q ∙ rw k (sym (append-nil _)), inr (ap (λ x. x.events) q))

  -- A run that succeeds has made the writes of each delta with changes, in their order, and it has
  -- started or cancelled builds only for a build from sources.
  pub process_build_delta_lem :
      (deltas : List (ResourceDelta BuildObject)) (s s1 : BuildProgress)
      → process_build_delta deltas s ≡ next s1
      → (s1.delta.writes ≡ s.delta.writes ++ writes_of c deltas)
        × ((is_source ≡ true) ⊎ (s1.events ≡ s.events))
  unfolding process_build_delta
  process_build_delta_lem [] s s1 h =
      let q = sym (next_injective h) in
      (ap (λ x. x.delta.writes) q ∙ sym (append-nil _), inr (ap (λ x. x.events) q))
  process_build_delta_lem (d ∷ deltas) s s1 h =
      let (m, h1, h2) =
        >>=-eq-next (if c.has_changes d then apply_build_delta d s else next s)
          (process_build_delta deltas) h in
      append-Outcome d deltas s m s1 (chosen d s m (c.has_changes d) refl h1)
        (process_build_delta_lem deltas m s1 h2)
