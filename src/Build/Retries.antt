-- ===== src/Build/Retries.antt =====
-- `waitForBuildConfig` of core/kogitobuild/build.go: attempts until one succeeds.
use kogito_operator.Common.{
  ℕ, zero, suc, ◌+◌, ◌≤◌, ◌<◌, ◌≡◌, refl, ◌≢◌, ◌⊎◌, Option, none, some, leb, if◌then◌else◌, arith,
  subst, Bool-cases, Option-cases, inl, inr,
}
use kogito_operator.Reconciliation.{GoError}

-- How the loop ended: its error, and the number of attempts made.
pub record Attempts : Type 0 where
  pub error : Option GoError
  pub made : ℕ

-- `f i` is the answer of the attempt number i, counted from 0. `i >= (retries - 1)` is written
-- without the subtraction, which in Go may be negative. `report` is the text of the final error.
unfoldable pub attempts_from :
    (ℕ → GoError → GoError) → ℕ → (ℕ → Option GoError) → ℕ → ℕ → Option Attempts
attempts_from report zero f retries i = none
attempts_from report (suc fuel) f retries i =
    let rest = attempts_from report fuel f retries (i + 1) in
    elim (f i) [
      | none ↦ some (record { error = none; made = i + 1 })
      | some e ↦
          if leb retries (i + 1)
          then some (record { error = some (report retries e); made = i + 1 })
          else rest
    ]

-- At most `retries` attempts, and one if `retries` is 0.
unfoldable pub wait_for_build_config :
    (ℕ → GoError → GoError) → (ℕ → Option GoError) → ℕ → Option Attempts
unfolding attempts_from
wait_for_build_config report f retries = attempts_from report (suc retries) f retries 0

-- No attempt in a range succeeds.
abbrev pub AllFail : (ℕ → Option GoError) → ℕ → ℕ → Type 0
AllFail f from to = (j : ℕ) → from ≤ j → j < to → f j ≢ none

-- What the loop answers, from attempt i on: its last attempt is the number n.
abbrev pub Answers : (ℕ → Option GoError) → ℕ → ℕ → Attempts → Type 0
Answers f retries i a =
    (n : ℕ) × (a.made ≡ n + 1)
    × (i ≤ n)
    × ((n < retries) ⊎ (n ≡ i))
    × AllFail f i n
    × (((a.error ≡ none) × (f n ≡ none)) ⊎ ((a.error ≢ none) × (f n ≢ none) × (retries ≤ n + 1)))

module _ (report : ℕ → GoError → GoError) (f : ℕ → Option GoError) where
  AllFail-extend : (i n : ℕ) → f i ≢ none → AllFail f (i + 1) n → AllFail f i n
  AllFail-extend i n h rest j p q =
      let first_or_later : (i ≡ j) ⊎ (i + 1 ≤ j) = ground arith in
      elim first_or_later [ inl e ↦ subst (λ x. f x ≢ none) e h | inr l ↦ rest j l q ]

  attempts_from_lem :
      (fuel retries i : ℕ)
      → retries < fuel + i
      → 1 ≤ fuel
      → (a : Attempts) × (attempts_from report fuel f retries i ≡ some a) × Answers f retries i a
  unfolding attempts_from
  attempts_from_lem zero retries i h p = absurd (omega arith)
  attempts_from_lem (suc fuel) retries i h p = elim (Option-cases (f i)) [
    | inl e ↦ (
      record { error = none; made = i + 1 },
      rw (e, attempts_from) refl,
      (i, refl, omega arith, inr refl, λ j q r. absurd (omega arith), inl (refl, e)),
    )
    | inr (x, e) ↦ elim (Bool-cases (leb retries (i + 1))) [
      | inl l ↦ (
        record { error = some (report retries x); made = i + 1 },
        rw (e, l, attempts_from) refl,
        (
          i,
          refl,
          omega arith,
          inr refl,
          λ j q r. absurd (omega arith),
          inr (λ q. cc, λ q. cc, ground arith),
        ),
      )
      | inr l ↦
          let (a, answers, (n, made, from, at_most, failures, last)) =
            attempts_from_lem fuel retries (i + 1) (ground arith) (ground arith) in
          (
            a,
            rw (e, l, attempts_from) answers,
            (
              n,
              made,
              omega arith,
              inl (elim at_most [ inl x ↦ x | inr x ↦ ground arith ]),
              AllFail-extend i n (λ q. cc) failures,
              last,
            ),
          )
    ]
  ]

-- Whatever the build config's reads answer, `waitForBuildConfig` terminates: all its attempts but
-- the last failed, it makes one attempt, or more but at most `retries`, it reports
-- an error exactly when the last attempt failed, and then it has made at least `retries` attempts.
pub wait_for_build_config_lem :
    (report : ℕ → GoError → GoError) (f : ℕ → Option GoError) (retries : ℕ)
    → (a : Attempts) × (wait_for_build_config report f retries ≡ some a) × Answers f retries 0 a
unfolding wait_for_build_config
wait_for_build_config_lem report f retries =
    attempts_from_lem report f (suc retries) retries 0 (omega arith) (omega arith)
