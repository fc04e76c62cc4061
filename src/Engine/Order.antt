-- ===== src/Engine/Order.antt =====
-- `findings.sort(key=lambda f: (f.line is None, f.line or 0))`, and `filter_findings`.
pub mod Stable
use compose_lint.Prelude.{
  Bool, List, Option, [], false, if◌then◌else◌, leb, none, not, select, some, true, ℕ, ◌&&◌, ◌∷◌,
}
use compose_lint.Models.{Finding, Severity, severity_ge}

unfoldable pub line_le : Option ℕ → Option ℕ → Bool
line_le (some a) (some b) = leb a b
line_le (some a) none = true
line_le none (some b) = false
line_le none none = true

unfoldable pub insert_finding : Finding → List Finding → List Finding
unfolding line_le
insert_finding f [] = f ∷ []
insert_finding f (g ∷ gs) =
    let rest = insert_finding f gs in if line_le f.line g.line then f ∷ g ∷ gs else g ∷ rest

-- `findings.sort(...)`, a stable sort in the standard library, as an insertion sort by that key.
unfoldable pub sort_findings : List Finding → List Finding
unfolding insert_finding
sort_findings [] = []
sort_findings (f ∷ fs) = insert_finding f (sort_findings fs)

-- filter_findings
unfoldable pub filter_findings : List Finding → Severity → List Finding
unfolding severity_ge
filter_findings fs threshold = select (λ f. severity_ge f.severity threshold && not f.suppressed) fs
