-- ===== src/Build/Managers/Configs.antt =====
-- The configurations of a build from sources.
use kogito_operator.Common.{
  ◌<>◌, ◌≡◌, refl, Bool, true, false, some, [], ◌∷◌, next, if◌then◌else◌, ◌==◌,
}
use kogito_operator.Images.Version.{latest_tag}
use kogito_operator.Build.Instance.{
  KogitoBuild, BuildConfig, image_source, image_change, get_build_builder_name,
  get_application_name, local_source_build_type,
}
use kogito_operator.Build.Config.{
  new_build_config, tag_reference, runner_source_path, get_builder_image_stream_output_to,
  decorator_for_runtime_builder, decorator_for_source_runtime_builder, decorator_for_custom_labels,
  decorator_for_source_builder, decorator_for_local_source_builder,
  decorator_for_remote_source_builder,
}
use kogito_operator.Build.Managers.{
  base_image, BuildCluster, get_builder_decorator, builder_config, runtime_config,
}

module _ (c : BuildCluster) where
  pub runtime_config_lem :
      (b : KogitoBuild)
      → (bc : BuildConfig) × (runtime_config c b ≡ next bc)
        × (bc.name ≡ b.name)
        × (bc.source ≡ image_source (get_builder_image_stream_output_to b) "." runner_source_path)
        × (bc.triggers ≡ image_change (get_builder_image_stream_output_to b) ∷ [])
        × (bc.output_to ≡ some (tag_reference "" (get_application_name b <> (":" <> latest_tag))))
  unfolding runtime_config new_build_config decorator_for_runtime_builder
      decorator_for_source_runtime_builder decorator_for_custom_labels
  runtime_config_lem b = (_, refl, refl, refl, refl, refl)

  builder_of :
      (b : KogitoBuild) (is_local : Bool)
      → (bc : BuildConfig) × (new_build_config c.version b (
            decorator_for_source_builder c.format_int (base_image c true)
            ∷ ((if is_local
                  then decorator_for_local_source_builder
                  else decorator_for_remote_source_builder)
                ∷ (decorator_for_custom_labels c.labels ∷ [])))
          ≡ next bc)
        × (bc.name ≡ get_build_builder_name b)
        × (bc.output_to ≡ some (get_builder_image_stream_output_to b))
  unfolding new_build_config decorator_for_source_builder decorator_for_local_source_builder
      decorator_for_remote_source_builder decorator_for_custom_labels
  builder_of b true = (_, refl, refl, refl)
  builder_of b false = (_, refl, refl, refl)

  pub builder_config_lem :
      (b : KogitoBuild)
      → (bc : BuildConfig) × (builder_config c b ≡ next bc)
        × (bc.name ≡ get_build_builder_name b)
        × (bc.output_to ≡ some (get_builder_image_stream_output_to b))
  unfolding builder_config get_builder_decorator
  builder_config_lem b = builder_of b (b.build_type == local_source_build_type)
