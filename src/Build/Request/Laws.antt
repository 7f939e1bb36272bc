-- ===== src/Build/Request/Laws.antt =====
-- What starting a new build has cancelled and instantiated.
use kogito_operator.Common.{String, List, [], ◌∷◌, if◌then◌else◌}
use kogito_operator.Build.Instance.{Build}
use kogito_operator.Build.Request.{is_active_phase}

-- The name of the first active build, if there is one.
abbrev pub first_active : List Build → List String
first_active [] = []
first_active (b ∷ items) =
    let rest = first_active items in if is_active_phase b.phase then b.name ∷ [] else rest
