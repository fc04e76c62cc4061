-- ===== src/Engine/Cached.antt =====
-- Grading a shared `env_file:` key set once gives each service what grading it again would.
use compose_lint.Prelude.{
  Bool-cases, List, Option, Option-cases, String, [], arith, inl, inr, none, refl, some, ◌==◌, ◌∙◌,
  ◌∷◌, ◌≡◌,
}
use compose_lint.Value.{Value}
use compose_lint.Dict.{Dict, lookup}
use compose_lint.Models.{Finding}
use compose_lint.Engine.{
  Cache, EnvFileKey, Result, Rule, ServiceEnvFiles, also, cached, check_unit, contribution,
  env_file_findings, grade_template, ok, raised, with_env_files,
}
use compose_lint.Units.{Unit'}

-- The contract of `BaseRule.check_env_file_keys`: the result depends on the keys alone.
abbrev pub KeysOnly : Rule → Type 0
KeysOnly rule =
    (ks : List EnvFileKey) (c d : Value)
    → rule.check_env_file_keys "" ks c ≡ rule.check_env_file_keys "" ks d

-- Key sets with one identity are one tuple.
abbrev pub Shared : Dict ServiceEnvFiles → Type 0
Shared env_files =
    (j k : String) (c d : ServiceEnvFiles)
    → lookup j env_files ≡ some c
    → lookup k env_files ≡ some d
    → c.ident ≡ d.ident
    → c.available ≡ d.available

module _ (rule : Rule) (env_files : Dict ServiceEnvFiles) (keys_only : KeysOnly rule)
    (shared : Shared env_files) where
  -- What the cache holds for a key set in use is what the rule returns for it.
  abbrev pub IsFaithful : Cache → Type 0
  IsFaithful graded =
      (k : String) (c : ServiceEnvFiles) (fs : List Finding) (config : Value)
      → lookup k env_files ≡ some c
      → cached c.ident graded ≡ some fs
      → rule.check_env_file_keys "" c.available config ≡ ok fs

  pub IsFaithful-nil : IsFaithful []
  unfolding cached
  IsFaithful-nil k c fs config inuse e = absurd (cc)

  IsFaithful-cons :
      (k : String) (c : ServiceEnvFiles) (fs : List Finding) (config : Value) (graded : Cache)
      → lookup k env_files ≡ some c
      → rule.check_env_file_keys "" c.available config ≡ ok fs
      → IsFaithful graded
      → IsFaithful ((c.ident, fs) ∷ graded)
  unfolding cached
  IsFaithful-cons k c fs config graded inuse r h j d gs config' used e =
      elim (Bool-cases (d.ident == c.ident)) [
        | inl p ↦
            let same : d.available ≡ c.available = shared j k d c used inuse (ground arith) in
            let found : some fs ≡ some gs = rw p at e in
            rw same (keys_only c.available config' config ∙ r ∙ cc)
        | inr p ↦ h j d gs config' used (rw p at e)
      ]

  -- A call with the cache returns what a call without one does, and leaves a faithful cache.
  abbrev pub AsDirect : Result (List Finding) × Cache → Result (List Finding) × Cache → Type 0
  AsDirect p q = (p.0 ≡ q.0) × IsFaithful p.1

  grade_template-AsDirect :
      (name k : String) (c : ServiceEnvFiles) (config : Value) (graded : Cache)
      (r : Result (List Finding))
      → lookup k env_files ≡ some c
      → rule.check_env_file_keys "" c.available config ≡ r
      → IsFaithful graded
      → AsDirect (grade_template name c graded r) (grade_template name c [] r)
  unfolding grade_template
  grade_template-AsDirect name k c config graded (ok fs) inuse e h =
      (refl, IsFaithful-cons k c fs config graded inuse e h)
  grade_template-AsDirect name k c config graded (raised x) inuse e h = (refl, h)

  env_file_findings-AsDirect :
      (name k : String) (c : ServiceEnvFiles) (config : Value) (graded : Cache)
      → lookup k env_files ≡ some c
      → IsFaithful graded
      → AsDirect
          (env_file_findings rule name c config graded)
          (env_file_findings rule name c config [])
  unfolding env_file_findings
  env_file_findings-AsDirect name k c config graded inuse h =
      elim (Option-cases (cached c.ident graded)) [
        | inl e ↦
            rw (e, env_file_findings)
              (grade_template-AsDirect name k c config graded _ inuse refl h)
        | inr (fs, e) ↦
            rw (e, env_file_findings) (rw (h k c fs config inuse e, grade_template) (refl, h))
      ]

  also-AsDirect :
      (fs : List Finding) (p q : Result (List Finding) × Cache)
      → AsDirect p q
      → AsDirect (also fs p) (also fs q)
  also-AsDirect fs (ok gs, c) (ok hs, d) (e, h) = (cc, h)
  also-AsDirect fs (ok gs, c) (raised x, d) (e, h) = absurd (cc)
  also-AsDirect fs (raised x, c) (ok hs, d) (e, h) = absurd (cc)
  also-AsDirect fs (raised x, c) (raised y, d) (e, h) = (e, h)

  contribution-lookup :
      (o : Option String) (c : ServiceEnvFiles)
      → contribution env_files o ≡ some c
      → (k : String) × (lookup k env_files ≡ some c)
  unfolding contribution
  contribution-lookup none c e = absurd (cc)
  contribution-lookup (some k) c e = (k, ground arith)

  with_env_files-AsDirect :
      (u : Unit') (graded : Cache) (r : Result (List Finding))
      → IsFaithful graded
      → AsDirect (with_env_files rule env_files u graded r) (with_env_files rule env_files u [] r)
  unfolding with_env_files
  with_env_files-AsDirect u graded (raised e) h = (refl, h)
  with_env_files-AsDirect u graded (ok fs) h =
      elim (Option-cases (contribution env_files u.env_key)) [
        | inl e ↦ rw (e, with_env_files) (refl, h)
        | inr (c, e) ↦
            let (k, inuse) = contribution-lookup u.env_key c e in
            rw (e, with_env_files)
              (also-AsDirect fs (env_file_findings rule u.name c u.config graded)
                (env_file_findings rule u.name c u.config [])
                (env_file_findings-AsDirect u.name k c u.config graded inuse h))
      ]

  -- One unit, one step of the loop over the units.
  pub check_unit-AsDirect :
      (data' : Dict Value) (u : Unit') (graded : Cache)
      → IsFaithful graded
      → AsDirect (check_unit rule data' env_files u graded) (check_unit rule data' env_files u [])
  unfolding check_unit
  check_unit-AsDirect data' u graded h =
      with_env_files-AsDirect u graded (rule.check u.name u.config data' u.lines) h
