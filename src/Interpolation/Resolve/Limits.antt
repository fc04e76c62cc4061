-- ===== src/Interpolation/Resolve/Limits.antt =====
-- What `substitute_defaults` leaves unanswered, and how long its answers are.
use compose_lint.Prelude.{
  Bool-cases, Option, String, arith, if◌then◌else◌, inl, inr, is_some, ltb, none, not, not-ltb→le,
  refl, some, subst, suc, true, zero, ℕ, ◌+◌, ◌≡◌, ◌≤◌, ◌⊎◌,
}
use compose_lint.Text.{len}
use compose_lint.Text.Laws.{len-append}
use compose_lint.Dict.{Dict}
use compose_lint.Interpolation.{max_scan_len, max_substituted_len}
use compose_lint.Interpolation.Resolve.{
  and_rest, drop_escapes, exceeds_limits, has_no_default, has_reference, join_rest, knowable,
  max_levels, resolve_at, resolve_defaults, resolve_from, substitute_defaults,
}

-- The text resolves within the limits, to one in which a reference without a default is left.
abbrev pub LeavesReference : Option String → Type 0
LeavesReference none = ⊥
LeavesReference (some resolved) = has_no_default (drop_escapes resolved) ≡ true

told_apart : (o : Option String) → knowable o ≡ none → (not (is_some o) ≡ true) ⊎ LeavesReference o
unfolding knowable
told_apart none h = inl refl
told_apart (some resolved) h = elim (Bool-cases (has_no_default (drop_escapes resolved))) [
  | inl e ↦ inr e
  | inr e ↦ absurd (let q : some resolved ≡ none = rw (← h) (rw e refl) in cc)
]

given_up : (o : Option String) → not (is_some o) ≡ true → knowable o ≡ none
unfolding knowable
given_up none h = refl
given_up (some resolved) h = absurd (cc)

-- Of a text with a reference that `substitute_defaults` does not answer, `exceeds_limits` tells the
-- reasons apart: either it says that a limit was met, or the text resolves within the limits and a
-- reference without a default is left; and what it says is over a limit is never answered.
pub exceeds_limits-substitute_defaults :
    (value : String) (env : Dict String)
    → has_reference (drop_escapes value) ≡ true
    → (exceeds_limits value env ≡ true → substitute_defaults value env ≡ none)
      × (substitute_defaults value env ≡ none
          → (exceeds_limits value env ≡ true)
            ⊎ LeavesReference (resolve_defaults max_levels env value))
unfolding substitute_defaults exceeds_limits
exceeds_limits-substitute_defaults value env r = elim (Bool-cases (ltb max_scan_len (len value))) [
  | inl e ↦ rw e (rw r (λ h. refl, λ h. inl refl))
  | inr e ↦ rw e (
      rw r (
        given_up (resolve_defaults max_levels env value),
        told_apart (resolve_defaults max_levels env value),
      ))
]

-- A result that adds to `produced` stays within the limit.
abbrev Fits : ℕ → Option String → Type 0
Fits produced none = Unit
Fits produced (some r) = produced + len r ≤ max_substituted_len

join_rest-Fits :
    (produced : ℕ) (piece : String) (o : Option String)
    → Fits (produced + len piece) o
    → Fits produced (join_rest piece o)
unfolding join_rest
join_rest-Fits produced piece none h = tt
join_rest-Fits produced piece (some rest) h = omega (arith, h, len-append piece rest)

and_rest-Fits :
    (produced : ℕ) (o : Option (String × ℕ)) (rest : ℕ → ℕ → Option String)
    → ((k w : ℕ) → Fits (produced + w) (rest k w))
    → Fits produced (and_rest o rest)
unfolding and_rest
and_rest-Fits produced none rest h = tt
and_rest-Fits produced (some (piece, k)) rest h =
    join_rest-Fits produced piece (rest k (len piece)) (h k (len piece))

resolve_from-Fits :
    (inner : String → Option String) (env : Dict String) (value : String) (skip i produced : ℕ)
    (s : String)
    → Fits produced (resolve_from inner env value skip i produced s)
unfolding resolve_from
resolve_from-Fits inner env value skip i produced String.[] =
    elim (Bool-cases (ltb max_substituted_len produced)) [
      | inl e ↦ rw e tt
      | inr e ↦ rw e (omega (arith, not-ltb→le max_substituted_len produced e))
    ]
resolve_from-Fits inner env value (suc skip) i produced (String.◌∷◌ c s) =
    resolve_from-Fits inner env value skip (i + 1) produced s
resolve_from-Fits inner env value zero i produced (String.◌∷◌ c s) =
    and_rest-Fits produced
      (if ltb max_substituted_len produced then none else resolve_at inner env value i c s)
      (λ k w. resolve_from inner env value k (i + 1) (produced + w) s)
      λ k w. resolve_from-Fits inner env value k (i + 1) (produced + w) s

-- However its defaults nest and whatever the environment supplies, a text resolves to
-- `max_substituted_len` characters at most.
pub len-resolve_defaults :
    (levels : ℕ) (env : Dict String) (value r : String)
    → resolve_defaults levels env value ≡ some r
    → len r ≤ max_substituted_len
unfolding resolve_defaults
len-resolve_defaults zero env value r h = absurd (cc)
len-resolve_defaults (suc levels) env value r h =
    let fits : Fits 0 (some r) =
      subst (Fits 0) h (resolve_from-Fits (resolve_defaults levels env) env value 0 0 0 value) in
    omega (arith, fits)
