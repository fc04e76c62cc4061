-- ===== src/Engine/Quote/Names.antt =====
-- The alternatives of `_service_pattern`: none is short, and the longest comes first.
use compose_lint.Prelude.{
  All, All-weaken, Bool-cases, List, String, [], arith, false, if◌then◌else◌, inl, inr, leb, str_eq,
  ◌∷◌, ◌≤◌,
}
use compose_lint.Text.{len}
use compose_lint.Dict.{Dict, has_key, put, set_default}
use compose_lint.Value.{Value}
use compose_lint.Engine.Quote.{
  EnvValues, insert_longest, longest_first, max_walk, name_pieces, name_values, pieces, quoted_from,
  service_pattern, walk,
}

-- Each value is one that a finding quotes.
unfoldable pub Quotable : Dict String → Type 0
Quotable names = All (λ p. quoted_from ≤ len p.0) names

-- The longest values first.
unfoldable pub Descending : Dict String → Type 0
Descending [] = Unit
Descending (p ∷ ps) = All (λ q. len q.0 ≤ len p.0) ps × Descending ps

put-Quotable :
    (k v : String) (d : Dict String) → quoted_from ≤ len k → Quotable d → Quotable (put k v d)
unfolding Quotable put
put-Quotable k v [] h q = (h, tt)
put-Quotable k v ((j, w) ∷ d) h (l, q) = elim (Bool-cases (str_eq j k)) [
  | inl e ↦ rw e (l, q)
  | inr e ↦ rw e (l, put-Quotable k v d h q)
]

name_pieces-Quotable :
    (ps : List String) (name : String) (d : Dict String)
    → Quotable d
    → Quotable (name_pieces ps name d)
unfolding name_pieces set_default
name_pieces-Quotable [] name d q = q
name_pieces-Quotable (p ∷ ps) name d q =
    name_pieces-Quotable ps name (if leb quoted_from (len p) then set_default p name d else d)
      (elim (Bool-cases (leb quoted_from (len p))) [
        | inl e ↦ rw e (elim (Bool-cases (has_key p d)) [
          | inl k ↦ rw k q
          | inr k ↦ rw k (put-Quotable p name d (ground arith) q)
        ])
        | inr e ↦ rw e q
      ])

name_values-Quotable :
    (used names : Dict String) → Quotable names → Quotable (name_values used names)
unfolding name_values
name_values-Quotable [] names q = q
name_values-Quotable ((name, value) ∷ used) names q =
    let ps = pieces false value in
    name_values-Quotable used (name_pieces (value ∷ ps.0 ∷ ps.1) name names)
      (name_pieces-Quotable (value ∷ ps.0 ∷ ps.1) name names q)

module _ (P : String × String → Type 0) where
  insert_longest-All :
      (p : String × String) (d : Dict String) → P p → All P d → All P (insert_longest p d)
  unfolding insert_longest
  insert_longest-All p [] h a = (h, tt)
  insert_longest-All p (q ∷ qs) h (b, a) = elim (Bool-cases (leb (len q.0) (len p.0))) [
    | inl e ↦ rw e (h, (b, a))
    | inr e ↦ rw e (b, insert_longest-All p qs h a)
  ]

  longest_first-All : (d : Dict String) → All P d → All P (longest_first d)
  unfolding longest_first
  longest_first-All [] a = a
  longest_first-All (p ∷ ps) (h, a) =
      insert_longest-All p (longest_first ps) h (longest_first-All ps a)

insert_longest-Descending :
    (p : String × String) (d : Dict String) → Descending d → Descending (insert_longest p d)
unfolding insert_longest Descending
insert_longest-Descending p [] s = (tt, tt)
insert_longest-Descending p (q ∷ qs) (a, s) = elim (Bool-cases (leb (len q.0) (len p.0))) [
  | inl e ↦ rw e (
    (
      ground arith,
      All-weaken (λ r. len r.0 ≤ len q.0) (λ r. len r.0 ≤ len p.0) qs (λ r l. ground arith) a,
    ),
    (a, s),
  )
  | inr e ↦ rw e (
    insert_longest-All (λ r. len r.0 ≤ len q.0) p qs (ground arith) a,
    insert_longest-Descending p qs s,
  )
]

longest_first-Descending : (d : Dict String) → Descending (longest_first d)
unfolding longest_first Descending
longest_first-Descending [] = tt
longest_first-Descending (p ∷ ps) =
    insert_longest-Descending p (longest_first ps) (longest_first-Descending ps)

pub service_pattern-Quotable :
    (config : Value) (env : EnvValues) → Quotable (service_pattern config env)
unfolding service_pattern Quotable
service_pattern-Quotable config env =
    let used = walk max_walk env (config ∷ []) [] in
    longest_first-All (λ p. quoted_from ≤ len p.0) (name_values used [])
      (name_values-Quotable used [] tt)

pub service_pattern-Descending :
    (config : Value) (env : EnvValues) → Descending (service_pattern config env)
unfolding service_pattern
service_pattern-Descending config env =
    longest_first-Descending (name_values (walk max_walk env (config ∷ []) []) [])
