-- ===== src/Build/Phases.antt =====
-- core/kogitobuild/build.go: sorting the builds of a label into the phases of the status.
use kogito_operator.Common.{
  String, ◌≡◌, refl, ◌∙◌, List, [], ◌∷◌, ◌++◌, Result, ok, err, Bool, true, false, if◌then◌else◌,
  Bool-cases, inl, inr, sym, ap,
}
use mathlib.Core.List.{append-nil, append_assoc}
use kogito_operator.Build.Instance.{
  BuildPhase, phase_new, phase_pending, phase_running, phase_complete, phase_failed, phase_error,
  phase_cancelled, other_phase, Build, Builds,
}
use kogito_operator.Reconciliation.{GoError}

-- `CreateBuild`
abbrev pub no_builds : Builds
no_builds = record {
  new = [];
  pending = [];
  running = [];
  complete = [];
  failed = [];
  error = [];
  cancelled = [];
}

-- The `switch` of one round.
unfoldable pub add_build : BuildPhase → String → Builds → Builds
add_build phase_new name s = record s { new = s.new ++ (name ∷ []) }
add_build phase_pending name s = record s { pending = s.pending ++ (name ∷ []) }
add_build phase_running name s = record s { running = s.running ++ (name ∷ []) }
add_build phase_complete name s = record s { complete = s.complete ++ (name ∷ []) }
add_build phase_failed name s = record s { failed = s.failed ++ (name ∷ []) }
add_build phase_error name s = record s { error = s.error ++ (name ∷ []) }
add_build phase_cancelled name s = record s { cancelled = s.cancelled ++ (name ∷ []) }
add_build (other_phase p) name s = record s { new = s.new ++ (name ∷ []) }

unfoldable pub add_builds : List Build → Builds → Builds
unfolding add_build
add_builds [] s = s
add_builds (item ∷ items) s = add_builds items (add_build item.phase item.name s)

-- `list` is the answer of `BuildCli.Builds(namespace).List`.
unfoldable pub get_builds_status_by_label : Result GoError (List Build) → Result GoError Builds
unfolding add_builds
get_builds_status_by_label (err e) = err e
get_builds_status_by_label (ok items) = ok (add_builds items no_builds)

-- The names of the builds that a test on the phase selects, in the list's order.
unfoldable pub names_where : (BuildPhase → Bool) → List Build → List String
names_where p [] = []
names_where p (b ∷ items) =
    let rest = names_where p items in if p b.phase then b.name ∷ rest else rest

abbrev pub is_new : BuildPhase → Bool
is_new phase_new = true
is_new (other_phase p) = true
is_new _ = false

abbrev pub is_pending : BuildPhase → Bool
is_pending phase_pending = true
is_pending _ = false

abbrev pub is_running : BuildPhase → Bool
is_running phase_running = true
is_running _ = false

abbrev pub is_complete : BuildPhase → Bool
is_complete phase_complete = true
is_complete _ = false

abbrev pub is_failed : BuildPhase → Bool
is_failed phase_failed = true
is_failed _ = false

abbrev pub is_error : BuildPhase → Bool
is_error phase_error = true
is_error _ = false

abbrev pub is_cancelled : BuildPhase → Bool
is_cancelled phase_cancelled = true
is_cancelled _ = false

-- Every build is listed once, under its own phase and in the list's order; a phase that is not
-- known counts as new.
abbrev pub by_phase : Builds → List Build → Builds
by_phase s items = record {
  new = s.new ++ names_where is_new items;
  pending = s.pending ++ names_where is_pending items;
  running = s.running ++ names_where is_running items;
  complete = s.complete ++ names_where is_complete items;
  failed = s.failed ++ names_where is_failed items;
  error = s.error ++ names_where is_error items;
  cancelled = s.cancelled ++ names_where is_cancelled items;
}

builds_ext :
    (a b : Builds)
    → a.new ≡ b.new
    → a.pending ≡ b.pending
    → a.running ≡ b.running
    → a.complete ≡ b.complete
    → a.failed ≡ b.failed
    → a.error ≡ b.error
    → a.cancelled ≡ b.cancelled
    → a ≡ b
builds_ext a b p q r s t u v = λ i. record {
  new = p i;
  pending = q i;
  running = r i;
  complete = s i;
  failed = t i;
  error = u i;
  cancelled = v i;
}

names_where-cons :
    (p : BuildPhase → Bool) (xs : List String) (b : Build) (items : List Build)
    → (if p b.phase then xs ++ (b.name ∷ []) else xs) ++ names_where p items
      ≡ xs ++ names_where p (b ∷ items)
unfolding names_where
names_where-cons p xs b items = elim (Bool-cases (p b.phase)) [
  | inl e ↦ rw (e, append_assoc)
  | inr e ↦ rw e
]

add_build_lem :
    (phase : BuildPhase) (name : String) (s : Builds)
    → add_build phase name s ≡ record {
      new = if is_new phase then s.new ++ (name ∷ []) else s.new;
      pending = if is_pending phase then s.pending ++ (name ∷ []) else s.pending;
      running = if is_running phase then s.running ++ (name ∷ []) else s.running;
      complete = if is_complete phase then s.complete ++ (name ∷ []) else s.complete;
      failed = if is_failed phase then s.failed ++ (name ∷ []) else s.failed;
      error = if is_error phase then s.error ++ (name ∷ []) else s.error;
      cancelled = if is_cancelled phase then s.cancelled ++ (name ∷ []) else s.cancelled;
    }
unfolding add_build
add_build_lem phase_new name s = refl
add_build_lem _ name s = refl

add_builds_lem : (items : List Build) (s : Builds) → add_builds items s ≡ by_phase s items
unfolding add_builds
add_builds_lem [] s =
    unfold names_where in
    builds_ext s (by_phase s []) (sym (append-nil s.new)) (sym (append-nil s.pending))
      (sym (append-nil s.running)) (sym (append-nil s.complete)) (sym (append-nil s.failed))
      (sym (append-nil s.error)) (sym (append-nil s.cancelled))
add_builds_lem (b ∷ items) s =
    add_builds_lem items (add_build b.phase b.name s)
    ∙ ap (λ s'. by_phase s' items) (add_build_lem b.phase b.name s)
    ∙ builds_ext _ (by_phase s (b ∷ items)) (names_where-cons is_new s.new b items)
        (names_where-cons is_pending s.pending b items)
        (names_where-cons is_running s.running b items)
        (names_where-cons is_complete s.complete b items)
        (names_where-cons is_failed s.failed b items) (names_where-cons is_error s.error b items)
        (names_where-cons is_cancelled s.cancelled b items)

-- The status of a label's builds has under each phase the names of the builds of that phase, all of
-- them and in the list's order, and under `new` also those whose phase is not known.
pub get_builds_status_by_label_lem :
    (items : List Build)
    → get_builds_status_by_label (ok items)
      ≡ ok (record {
        new = names_where is_new items;
        pending = names_where is_pending items;
        running = names_where is_running items;
        complete = names_where is_complete items;
        failed = names_where is_failed items;
        error = names_where is_error items;
        cancelled = names_where is_cancelled items;
      })
unfolding get_builds_status_by_label
get_builds_status_by_label_lem items = ap ok (add_builds_lem items no_builds)
