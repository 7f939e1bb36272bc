-- ===== src/Build/Controller.antt =====
-- controllers/common/build_controller.go: the reconciliation of a KogitoBuild.
pub mod Env
use kogito_operator.Common.{
  String, ◌<>◌, ℕ, ◌*◌, ◌≡◌, refl, ◌≢◌, sym, ap, ◌∙◌, Bool, true, false, Option, none, some, List,
  [], ◌∷◌, if◌then◌else◌, is_empty, Result, ok, err, Step, next, fail, panic, next_injective,
  Bool-cases, inl, inr,
}
use kogito_operator.Common.Dict.{Dict}
use kogito_operator.Api.Conditions.{ConditionApi}
use kogito_operator.Reconciliation.{
  GoError, plain, error_text, ReconcileResult, zero_result, second,
}
use kogito_operator.Delta.{ResourceDelta, DeltaClient}
use kogito_operator.Framework.EnvVar.{env_override, create_env_var}
use kogito_operator.Images.Streams.{ImageStream}
use kogito_operator.Build.Instance.{
  KogitoBuild, BuildConfig, quarkus_runtime_type, get_application_name,
}
use kogito_operator.Build.Status.{BuildClient, handle_status_change}
use kogito_operator.Build.Images.{new_kogito_image_stream}
use kogito_operator.Build.Streams.{
  StreamServer, StreamWrites, create_required_kogito_image_streams, HasStream,
  create_required_kogito_image_streams-HasStream,
}
use kogito_operator.Build.Request.{TriggerClient, new_delta_processor}
use kogito_operator.Build.Managers.{BuildCluster, BuildResources, requested_resources}
use kogito_operator.Build.Process.{BuildObject, BuildProgress, process_build_delta}
use kogito_operator.Build.Controller.Env.{
  BuildEnv, BuildRun, prepare, image_stream_creation_reconcile_timeout,
}

module _ (v : BuildEnv) where
  abbrev pub builder_stream : KogitoBuild → ImageStream
  builder_stream b =
      new_kogito_image_stream v.cluster.find_submatch v.cluster.getenv v.cluster.version b true

  abbrev pub runtime_stream : KogitoBuild → ImageStream
  runtime_stream b =
      new_kogito_image_stream v.cluster.find_submatch v.cluster.getenv v.cluster.version b false

  deltas_run : BuildRun → Step GoError BuildProgress → Step GoError BuildRun
  deltas_run s panic = panic
  deltas_run s (fail p e) = fail (record s { progress = p }) e
  deltas_run s (next p) = next (record s { progress = p })

  compared_build :
      KogitoBuild
      → BuildRun
      → BuildResources
      → Result GoError (List BuildConfig × List ImageStream)
      → Step GoError BuildRun
  unfolding deltas_run
  compared_build b s r (err e) = fail s e
  compared_build b s r (ok deployed) =
      deltas_run s
        (process_build_delta v.triggers v.delta_client b (v.compare r deployed) s.progress)

  requested : KogitoBuild → BuildRun → Step GoError BuildResources → Step GoError BuildRun
  unfolding compared_build
  requested b s panic = panic
  requested b s (fail r e) = fail (record s { shared = r.shared }) e
  requested b s (next r) = compared_build b (record s { shared = r.shared }) r (v.deployed b)

  -- `NewDeltaProcessor` and `deltaProcessor.ProcessDelta`, which works on the checked build.
  unfoldable pub process_checked : BuildRun → Result GoError KogitoBuild → Step GoError BuildRun
  unfolding requested
  process_checked s (err e) = fail s e
  process_checked s (ok b) = requested b s (requested_resources v.cluster b s.shared)

  -- The result is that of the controller; an error is returned with the zero result.
  abbrev Answer : Type 0
  Answer = Step GoError (BuildRun × ReconcileResult)

  finished : Step GoError BuildRun → Answer
  finished panic = panic
  finished (fail s e) = fail (s, zero_result) e
  finished (next s) = next (s, zero_result)

  after_streams : KogitoBuild → BuildRun → Step GoError StreamWrites → Answer
  unfolding finished
  after_streams b s panic = panic
  after_streams b s (fail w e) =
      fail (record s { streams = w }, zero_result)
        (plain ("Error while creating Kogito ImageStreams: " <> (error_text e <> " ")))
  after_streams b s (next w) =
      if w.created_any
      then next (
        record s { streams = w },
        record { requeue = true; requeue_after = image_stream_creation_reconcile_timeout },
      )
      else finished (process_checked (record s { streams = w }) (new_delta_processor b))

  -- `KogitoBuildReconciler.Reconcile` for an instance that is there, up to the deferred call.
  unfoldable pub reconcile_build : KogitoBuild → BuildRun → Answer
  unfolding after_streams
  reconcile_build b s = after_streams (prepare b) s (
      create_required_kogito_image_streams v.server (builder_stream (prepare b))
        (runtime_stream (prepare b)) s.streams)

  -- The deferred `HandleStatusChange(instance, resultErr)`: its argument was evaluated at the `defer`
  -- statement, where the error was nil, and the instance is a pointer to the prepared build.
  unfoldable pub reconcile_build_status :
      ConditionApi → BuildClient → KogitoBuild → KogitoBuild × Option KogitoBuild
  reconcile_build_status m c b = handle_status_change m c (prepare b) none

  finished_next :
      (x : Step GoError BuildRun) (t : BuildRun) (r : ReconcileResult)
      → finished x ≡ next (t, r)
      → (x ≡ next t) × (r ≡ zero_result)
  unfolding finished
  finished_next panic t r h = cc
  finished_next (fail s e) t r h = cc
  finished_next (next s) t r h =
      let q = next_injective h in (ap (λ y. next (y.0)) q, sym (ap (λ y. y.1) q))

  -- The deltas of a build were processed to their end.
  abbrev HasDeltas : KogitoBuild → BuildRun → BuildRun → Type 0
  HasDeltas b s t =
      (r : BuildResources) × (deployed : List BuildConfig × List ImageStream) × (requested_resources
          v.cluster b s.shared
        ≡ next r)
      × (v.deployed b ≡ ok deployed)
      × (process_build_delta v.triggers v.delta_client b (v.compare r deployed) s.progress
          ≡ next t.progress)

  deltas_run_next :
      (s t : BuildRun) (x : Step GoError BuildProgress)
      → deltas_run s x ≡ next t
      → (x ≡ next t.progress) × (t.streams ≡ s.streams)
  unfolding deltas_run
  deltas_run_next s t panic h = cc
  deltas_run_next s t (fail p e) h = cc
  deltas_run_next s t (next p) h =
      let q = next_injective h in (ap (λ y. next y.progress) q, sym (ap (λ y. y.streams) q))

  compared_next :
      (b : KogitoBuild) (s t : BuildRun) (r : BuildResources)
      (x : Result GoError (List BuildConfig × List ImageStream))
      → compared_build b s r x ≡ next t
      → (deployed : List BuildConfig × List ImageStream) × (x ≡ ok deployed)
        × (process_build_delta v.triggers v.delta_client b (v.compare r deployed) s.progress
            ≡ next t.progress)
        × (t.streams ≡ s.streams)
  unfolding compared_build
  compared_next b s t r (err e) h = cc
  compared_next b s t r (ok deployed) h =
      let (p, w) = deltas_run_next s t _ h in (deployed, refl, p, w)

  requested_next :
      (b : KogitoBuild) (s t : BuildRun) (x : Step GoError BuildResources)
      → requested b s x ≡ next t
      → (r : BuildResources) × (deployed : List BuildConfig × List ImageStream) × (x ≡ next r)
        × (v.deployed b ≡ ok deployed)
        × (process_build_delta v.triggers v.delta_client b (v.compare r deployed) s.progress
            ≡ next t.progress)
        × (t.streams ≡ s.streams)
  unfolding requested
  requested_next b s t panic h = cc
  requested_next b s t (fail r e) h = cc
  requested_next b s t (next r) h =
      let (deployed, f, p, w) =
        compared_next b (record s { shared = r.shared }) t r (v.deployed b) h in
      (r, deployed, refl, f, p, w)

  process_checked_next :
      (s t : BuildRun) (x : Result GoError KogitoBuild)
      → process_checked s x ≡ next t
      → (t.streams ≡ s.streams) × (checked : KogitoBuild) × (x ≡ ok checked) × HasDeltas checked s t
  unfolding process_checked
  process_checked_next s t (err e) h = cc
  process_checked_next s t (ok b) h =
      let (r, deployed, f, g, p, w) =
        requested_next b s t (requested_resources v.cluster b s.shared) h in
      (w, b, refl, (r, deployed, f, g, p))

  abbrev pub IsProcessed : KogitoBuild → BuildRun → BuildRun → Type 0
  IsProcessed b s t =
      (t.streams.writes ≡ s.streams.writes)
      × HasStream v.server (builder_stream b)
      × HasStream v.server (runtime_stream b)
      × (checked : KogitoBuild) × (new_delta_processor b ≡ ok checked)
      × HasDeltas checked s t

  unrequeued :
      (b : KogitoBuild) (s t : BuildRun) (w : StreamWrites) (is_created : Bool)
      → w.created_any ≡ is_created
      → (if is_created
          then next (
            record s { streams = w },
            record { requeue = true; requeue_after = image_stream_creation_reconcile_timeout },
          )
          else finished (process_checked (record s { streams = w }) (new_delta_processor b)))
        ≡ next (t, zero_result)
      → (w.created_any ≡ false)
        × (process_checked (record s { streams = w }) (new_delta_processor b) ≡ next t)
  unrequeued b s t w true e h =
      let q = ap (λ (y : BuildRun × ReconcileResult). y.1.requeue) (next_injective h) in cc
  unrequeued b s t w false e h = (e, (finished_next _ t zero_result h).0)

  IsProcessed-after_streams :
      (b : KogitoBuild) (s t : BuildRun) (x : Step GoError StreamWrites)
      → create_required_kogito_image_streams v.server
          (builder_stream b)
          (runtime_stream b)
          s.streams
        ≡ x
      → after_streams b s x ≡ next (t, zero_result)
      → IsProcessed b s t
  unfolding after_streams
  IsProcessed-after_streams b s t panic e h = cc
  IsProcessed-after_streams b s t (fail w x) e h = cc
  IsProcessed-after_streams b s t (next w) e h =
      let (n, k) = unrequeued b s t w w.created_any refl h in
      let (ws, hb, hr) =
        create_required_kogito_image_streams-HasStream v.server (builder_stream b)
          (runtime_stream b) s.streams w e n in
      let (q, checked, f, deltas) =
        process_checked_next (record s { streams = w }) t (new_delta_processor b) k in
      (ap (λ x. x.writes) q ∙ ws, hb, hr, checked, f, deltas)

  -- A reconciliation that returns neither an error nor a request to be called again found both image
  -- streams with their tags, wrote none, and processed the deltas of the checked build to their end.
  pub reconcile_build-IsProcessed :
      (b : KogitoBuild) (s t : BuildRun)
      → reconcile_build b s ≡ next (t, zero_result)
      → IsProcessed (prepare b) s t
  unfolding reconcile_build
  reconcile_build-IsProcessed b s t h = IsProcessed-after_streams (prepare b) s t _ refl h
