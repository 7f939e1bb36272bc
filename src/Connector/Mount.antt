-- ===== src/Connector/Mount.antt =====
-- core/infrastructure/configmap.go and secret.go: mounting a config map or a secret on a deployment,
-- as environment or as files. The pod's first container takes the mounts.
pub mod Laws
pub mod Paths
pub mod Selector
use kogito_operator.Common.{
  String, ℕ, Bool, true, false, Option, none, some, List, [], ◌∷◌, ◌++◌, ◌==◌, if◌then◌else◌, any,
  is_empty, Result, ok, err, Step, next, fail, panic, ◌>>=◌,
}
use kogito_operator.Common.Dict.{Dict}
use kogito_operator.Client.{Reader, fetch_with_key}
use kogito_operator.Api.{NamespacedName}
use kogito_operator.Api.Workloads.{
  VolumeReference, Deployment, Container, EnvFromSource, config_map_ref, secret_ref, Volume,
  VolumeMount, VolumeSource, config_map_source, secret_source, ConfigMap,
}
use kogito_operator.Reconciliation.{GoError}

abbrev pub is_config_map : String → EnvFromSource → Bool
is_config_map cm_name (config_map_ref name) = name == cm_name
is_config_map cm_name (secret_ref name) = false

abbrev pub is_secret : String → EnvFromSource → Bool
is_secret secret_name (config_map_ref name) = false
is_secret secret_name (secret_ref name) = name == secret_name

-- `present` is the test of the loop, `source` what is appended behind it.
unfoldable pub add_env_from : (EnvFromSource → Bool) → EnvFromSource → Container → Container
add_env_from present source c =
    if any present c.env_from then c else record c { env_from = c.env_from ++ (source ∷ []) }

-- `Containers[0]` panics where there is no container.
unfoldable pub on_first :
    (Container → Container) → List Container → Deployment → Step GoError Deployment
on_first f [] d = panic
on_first f (c ∷ containers) d = next (record d { containers = f c ∷ containers })

-- `configMapHandler.MountAsEnvFrom`
unfoldable pub mount_as_env_from : String → Deployment → Step GoError Deployment
unfolding add_env_from on_first
mount_as_env_from cm_name d =
    on_first (add_env_from (is_config_map cm_name) (config_map_ref cm_name)) d.containers d

-- `secretHandler.MountAsEnvFrom`
unfoldable pub mount_secret_as_env_from : String → Deployment → Step GoError Deployment
unfolding add_env_from on_first
mount_secret_as_env_from secret_name d =
    on_first (add_env_from (is_secret secret_name) (secret_ref secret_name)) d.containers d

-- framework.ModeForPropertyFiles, 0644
abbrev pub mode_for_property_files : ℕ
mode_for_property_files = 0o644

abbrev pub default_mode : Option ℕ → ℕ
default_mode none = mode_for_property_files
default_mode (some mode) = mode

-- `append` if no volume has the name.
unfoldable pub add_volume : String → VolumeSource → Deployment → Deployment
add_volume name source d =
    if any (λ (v : Volume). v.name == name) d.volumes
    then d
    else record d { volumes = d.volumes ++ (record { name = name; source = source } ∷ []) }

unfoldable pub append_config_map_volume : VolumeReference → Deployment → Deployment
unfolding add_volume
append_config_map_volume r d =
    add_volume r.name (config_map_source r.name (default_mode r.file_mode) r.optional) d

unfoldable pub append_secret_volume : VolumeReference → Deployment → Deployment
unfolding add_volume
append_secret_volume r d =
    add_volume r.name (secret_source r.name (default_mode r.file_mode) r.optional) d

-- DefaultFileMountPath
abbrev pub default_file_mount_path : String
default_file_mount_path = "/home/kogito/config"

abbrev pub is_mounted : String → List VolumeMount → Bool
is_mounted mount_path mounts = any (λ (v : VolumeMount). v.mount_path == mount_path) mounts

-- `path_join` is Go's `path.Join`.
module _ (path_join : String → String → String) where
  abbrev pub path_of : VolumeReference → String → String
  path_of r file_name =
      path_join (if is_empty r.mount_path then default_file_mount_path else r.mount_path) file_name

  -- One round of the loop over the files.
  unfoldable pub mount_file : VolumeReference → String → List VolumeMount → List VolumeMount
  mount_file r file_name mounts =
      if is_mounted (path_of r file_name) mounts
      then mounts
      else mounts
        ++ (record { name = r.name; mount_path = path_of r file_name; sub_path = file_name } ∷ [])

  -- The files in the order in which the map gives them.
  unfoldable pub mount_files : VolumeReference → Dict String → List VolumeMount → List VolumeMount
  unfolding mount_file
  mount_files r [] mounts = mounts
  mount_files r ((file_name, _) ∷ files) mounts =
      mount_files r files (mount_file r file_name mounts)

  abbrev with_files : VolumeReference → Dict String → Container → Container
  with_files r files c = record c { volume_mounts = mount_files r files c.volume_mounts }

  -- A map without entries touches no container.
  mount_all : VolumeReference → Dict String → Deployment → Step GoError Deployment
  unfolding on_first mount_files
  mount_all r [] d = next d
  mount_all r (file ∷ files) d = on_first (with_files r (file ∷ files)) d.containers d

  -- `cm.Data` is a nil dereference where the object is not there.
  mounts_step :
      VolumeReference → Result GoError (Option ConfigMap) → Deployment → Step GoError Deployment
  unfolding mount_all
  mounts_step r (err e) d = fail d e
  mounts_step r (ok none) d = panic
  mounts_step r (ok (some cm)) d = mount_all r cm.file_data d

  -- `appendVolumeMountIntoDeployment`, of both handlers.
  unfoldable pub append_volume_mount_into_deployment :
      Reader ConfigMap → VolumeReference → Deployment → Step GoError Deployment
  unfolding mounts_step
  append_volume_mount_into_deployment c r d =
      mounts_step r (fetch_with_key c (record { namespace = d.namespace; name = r.name })) d

  -- `configMapHandler.MountAsVolume`
  unfoldable pub mount_as_volume :
      Reader ConfigMap → VolumeReference → Deployment → Step GoError Deployment
  unfolding append_volume_mount_into_deployment
  mount_as_volume c r d = append_volume_mount_into_deployment c r (append_config_map_volume r d)

  -- `secretHandler.MountAsVolume`
  unfoldable pub mount_secret_as_volume :
      Reader ConfigMap → VolumeReference → Deployment → Step GoError Deployment
  unfolding append_volume_mount_into_deployment append_secret_volume
  mount_secret_as_volume c r d = append_volume_mount_into_deployment c r (append_secret_volume r d)
