-- ===== src/Connector/Mount/Paths.antt =====
-- Which mount a container has at a path, behind the loop over the files of a config map.
use kogito_operator.Common.{
  String, ◌≡◌, refl, Bool, true, false, ◌||◌, Option, none, sym, ap, if◌then◌else◌, some, List, [],
  ◌∷◌, ◌++◌, ◌==◌, arith, eq_iff, subst, ◌∙◌, Bool-cases, inl, inr,
}
use mathlib.Core.Option.{or_else}
use kogito_operator.Common.Dict.{Dict}
use kogito_operator.Api.Workloads.{VolumeReference, VolumeMount}
use kogito_operator.Connector.Mount.{is_mounted, path_of, mount_file, mount_files}

-- The first mount at a path.
unfoldable pub mount_at : String → List VolumeMount → Option VolumeMount
mount_at p [] = none
mount_at p (m ∷ mounts) = if m.mount_path == p then some m else mount_at p mounts

mount_at-append :
    (p : String) (xs ys : List VolumeMount)
    → mount_at p (xs ++ ys) ≡ or_else (mount_at p xs) (mount_at p ys)
unfolding mount_at or_else
mount_at-append p [] ys = refl
mount_at-append p (m ∷ xs) ys = ground (arith, mount_at-append p xs ys)

-- Where a path is taken there is a mount at it.
mount_at-IsMounted :
    (p : String) (mounts : List VolumeMount)
    → is_mounted p mounts ≡ true
    → (m : VolumeMount) × (mount_at p mounts ≡ some m)
unfolding mount_at
mount_at-IsMounted p [] h = cc
mount_at-IsMounted p (m ∷ mounts) h = split (m.mount_path == p) (mount_at-IsMounted p mounts) h
  where
    split :
        (b : Bool)
        → (is_mounted p mounts ≡ true → (n : VolumeMount) × (mount_at p mounts ≡ some n))
        → (b || is_mounted p mounts) ≡ true
        → (n : VolumeMount) × ((if b then some m else mount_at p mounts) ≡ some n)
    split true others k = (m, refl)
    split false others k = others k

or_else-none : (o : Option VolumeMount) → or_else o none ≡ o
unfolding or_else
or_else-none none = refl
or_else-none (some m) = refl

or_else_assoc : (a b c : Option VolumeMount) → or_else (or_else a b) c ≡ or_else a (or_else b c)
unfolding or_else
or_else_assoc none b c = refl
or_else_assoc (some m) b c = refl

module _ (path_join : String → String → String) where
  abbrev mount_of : VolumeReference → String → VolumeMount
  mount_of r f = record { name = r.name; mount_path = path_of path_join r f; sub_path = f }

  -- The mount that the files of a reference have at a path: that of the first file that goes there.
  unfoldable pub file_at : VolumeReference → String → Dict String → Option VolumeMount
  file_at r p [] = none
  file_at r p ((f, _) ∷ files) =
      if path_of path_join r f == p
      then some (record { name = r.name; mount_path = path_of path_join r f; sub_path = f })
      else file_at r p files

  mount_at-mount_file :
      (r : VolumeReference) (f p : String) (mounts : List VolumeMount)
      → mount_at p (mount_file path_join r f mounts)
        ≡ or_else
            (mount_at p mounts)
            (if path_of path_join r f == p then some (mount_of r f) else none)
  unfolding mount_file
  mount_at-mount_file r f p mounts = elim (Bool-cases (is_mounted (path_of path_join r f) mounts)) [
    | inl e ↦ rw e (absorbed e)
    | inr e ↦
        rw e (mount_at-append p mounts (mount_of r f ∷ []) ∙ ap (or_else (mount_at p mounts)) only)
  ]
    where
      only :
          mount_at p (mount_of r f ∷ [])
          ≡ (if path_of path_join r f == p then some (mount_of r f) else none)
      only = unfold mount_at in refl

      absorbed :
          is_mounted (path_of path_join r f) mounts ≡ true
          → mount_at p mounts
            ≡ or_else
                (mount_at p mounts)
                (if path_of path_join r f == p then some (mount_of r f) else none)
      absorbed e = elim (Bool-cases (path_of path_join r f == p)) [
        | inl same ↦
            let (m, k) = mount_at-IsMounted p mounts (
              subst (λ q. is_mounted q mounts ≡ true) ((eq_iff (path_of path_join r f) p).0 same)
                e) in
            rw k (unfold or_else in refl)
        | inr other ↦ rw other (sym (or_else-none (mount_at p mounts)))
      ]

  pub mount_at-mount_files :
      (r : VolumeReference) (files : Dict String) (p : String) (mounts : List VolumeMount)
      → mount_at p (mount_files path_join r files mounts)
        ≡ or_else (mount_at p mounts) (file_at r p files)
  unfolding mount_files file_at
  mount_at-mount_files r [] p mounts = sym (or_else-none (mount_at p mounts))
  mount_at-mount_files r ((f, v) ∷ files) p mounts =
      mount_at-mount_files r files p (mount_file path_join r f mounts)
      ∙ ap (λ o. or_else o (file_at r p files)) (mount_at-mount_file r f p mounts)
      ∙ or_else_assoc (mount_at p mounts)
          (if path_of path_join r f == p then some (mount_of r f) else none) (file_at r p files)
      ∙ ap (or_else (mount_at p mounts)) (chosen (path_of path_join r f == p))
    where
      chosen :
          (b : Bool)
          → or_else (if b then some (mount_of r f) else none) (file_at r p files)
            ≡ (if b then some (mount_of r f) else file_at r p files)
      chosen true = unfold or_else in refl
      chosen false = unfold or_else in refl
