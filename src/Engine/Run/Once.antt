-- ===== src/Engine/Run/Once.antt =====
-- The cache of the engine's inner loop is transparent.
use compose_lint.Prelude.{List, [], ap, refl, ◌∙◌, ◌∷◌, ◌≡◌}
use compose_lint.Models.{Finding}
use compose_lint.Units.{Unit'}
use compose_lint.Engine.{Cache, Result, Rule, check_unit}
use compose_lint.Engine.Cached.{IsFaithful, IsFaithful-nil, KeysOnly, Shared, check_unit-AsDirect}
use compose_lint.Engine.Run.{Grading, Input, Outcome, and_then, going, grade_units, step, stopped}

-- The loop over the units with no cache: every service's keys are graded anew.
abbrev pub direct_units : Input → Rule → List Unit' → Grading → Outcome
direct_units input rule [] g = going g
direct_units input rule (u ∷ us) g =
    and_then (step input.settings rule.id u (check_unit rule input.data' input.env_files u []).0 g)
      (direct_units input rule us)

module _ (input : Input) (rule : Rule) (ko : KeysOnly rule) (sh : Shared input.env_files) where
  and_then-path :
      (o p : Outcome) (k l : Grading → Outcome)
      → o ≡ p
      → ((g : Grading) → k g ≡ l g)
      → and_then o k ≡ and_then p l
  unfolding and_then
  and_then-path (going g) (going h) k l e f = let same : g ≡ h = cc in ap k same ∙ f h
  and_then-path (stopped g) (stopped h) k l e f = e
  and_then-path (going g) (stopped h) k l e f = absurd (cc)
  and_then-path (stopped g) (going h) k l e f = absurd (cc)

  from_cache :
      (us : List Unit') (graded : Cache) (g : Grading)
      → IsFaithful rule input.env_files ko sh graded
      → grade_units input rule us graded g ≡ direct_units input rule us g
  unfolding grade_units
  from_cache [] graded g h = refl
  from_cache (u ∷ us) graded g h =
      let (e, h') = check_unit-AsDirect rule input.env_files ko sh input.data' u graded h in
      and_then-path
        (step input.settings rule.id u (check_unit rule input.data' input.env_files u graded).0 g)
        (step input.settings rule.id u (check_unit rule input.data' input.env_files u []).0 g)
        (grade_units input rule us (check_unit rule input.data' input.env_files u graded).1)
        (direct_units input rule us)
        (ap (λ (r : Result (List Finding)). step input.settings rule.id u r g) e)
        λ g'. from_cache us (check_unit rule input.data' input.env_files u graded).1 g' h'

-- For a rule that keeps the contract of `check_env_file_keys`, and services that share a key set
-- when they share its identity, grading each key set once gives every unit exactly the findings,
-- crashes and stop that grading it anew for each service would.
pub grade_units-eq-direct :
    (input : Input) (rule : Rule) (us : List Unit') (g : Grading)
    → KeysOnly rule
    → Shared input.env_files
    → grade_units input rule us [] g ≡ direct_units input rule us g
grade_units-eq-direct input rule us g ko sh =
    from_cache input rule ko sh us [] g (IsFaithful-nil rule input.env_files ko sh)
