-- ===== src/Samples/Patches.antt =====
-- A file, its lines, and the fixes to it.
use mathlib.Core.List.{Permᴰ}
use compose_lint.Merge.Equal.{value_eq}
use compose_lint.Prelude.{
  List, String, [], arith, drop, false, if◌then◌else◌, length, ltb, none, refl, some, suc, take,
  true, ℕ, ◌+◌, ◌↔◌, ◌∷◌, ◌≡◌, ◌⊎◌,
}
use compose_lint.Text.{append, decimal}
use compose_lint.Value.{Value, str}
use compose_lint.Models.{TextEdit}
use compose_lint.SourceLines.{find_ambiguous_break, joined, line_starts, split_lines}
use compose_lint.Edits.{line_at, line_indent, value_is_shared}
use compose_lint.Edits.Blocks.{block_span, is_anchored_or_merged, is_compact}
use compose_lint.Edits.Security.{disabled_profile_indexes, no_new_privileges_effective}
use compose_lint.Edits.Scalars.{mapping_scalar_span, sequence_scalar_span}
use compose_lint.Fix.Splice.{
  Span, apply_edits, out_of_range, overlapping, span_le, spans_of, spliced,
}
use compose_lint.Dict.{Dict, lookup}
use compose_lint.Edits.Blocks.Span.{EndsAt, block_span_lem, ends_here}
use compose_lint.Edits.Replace.{replace_lines, trimmed}
use compose_lint.Engine.{ok}
use compose_lint.Fix.Conflict.{FlatSpan, is_refused, refused_units}
use compose_lint.Fix.Conflict.Sweep.{refused_pairwise, refused_units-pairwise}
use compose_lint.Fix.Drift.{chain_fuel, inherit, structural_drift}
use compose_lint.Fix.Drift.Claims.{inherit-stable}
use compose_lint.Fix.Drift.Preserved.{Preserves, structural_drift_iff}
use compose_lint.Fix.Splice.Lines.{apply_edits-replace_lines}
use compose_lint.Fix.Splice.Order.{apply_edits-perm, without_message}
use compose_lint.Fix.Splice.Weave.{AllApart, apply_edits_lem, weave}
use compose_lint.Samples.{mapping}
use compose_lint.Sorting.{sort_by}

-- A service whose security profiles are both off, and one that keeps to itself.
abbrev file : String
file =
    "services:\n  web:\n    image: nginx\n    security_opt:\n      - seccomp:unconfined\n      # keep\n\n  db:\n    image: redis"

abbrev file_lines : List String
file_lines =
    "services:\n" ∷ "  web:\n" ∷ "    image: nginx\n" ∷ "    security_opt:\n"
    ∷ "      - seccomp:unconfined\n" ∷ "      # keep\n" ∷ "\n" ∷ "  db:\n" ∷ "    image: redis" ∷ []

split_test : split_lines file ≡ file_lines
unfolding split_lines
split_test = refl

crlf_test : split_lines "a\r\n\rb" ≡ "a\r\n" ∷ "\r" ∷ "b" ∷ []
unfolding split_lines
crlf_test = refl

ambiguous_test :
    find_ambiguous_break "a\r\nb\rc" ≡ some (2, "U+000D CARRIAGE RETURN outside a CRLF pair")
unfolding find_ambiguous_break
ambiguous_test = refl

span_test : block_span file_lines 2 ≡ (2, 5)
unfolding block_span
span_test = refl

compact_test : block_span ("ports:\n" ∷ "- 80\n" ∷ "- 81\n" ∷ "image: x\n" ∷ []) 1 ≡ (1, 3)
unfolding block_span
compact_test = refl

anchored_test : is_anchored_or_merged ("web: &a\n" ∷ "  image: x\n" ∷ []) 1 ≡ true
unfolding is_anchored_or_merged
anchored_test = refl

merged_test : is_anchored_or_merged ("web:\n" ∷ "  <<: *a\n" ∷ "  image: x\n" ∷ []) 1 ≡ true
unfolding is_anchored_or_merged
merged_test = refl

scalar_test : sequence_scalar_span "  - 8080:80  # web\n" ≡ some ("8080:80", 5)
unfolding sequence_scalar_span
scalar_test = refl

quoted_test : mapping_scalar_span "  tmpfs: \"/run:exec\"\n" "tmpfs" ≡ some ("/run:exec", 11)
unfolding mapping_scalar_span
quoted_test = refl

shared_test : value_is_shared "ports: !tag &p # *q\n" ≡ true
unfolding value_is_shared
shared_test = refl

security_test :
    disabled_profile_indexes (str "seccomp=unconfined" ∷ str "label:disable" ∷ str "seccomp:x" ∷ [])
    ≡ 1 ∷ []
unfolding disabled_profile_indexes
security_test = refl

flag_test :
    no_new_privileges_effective (str "no-new-privileges" ∷ str "no-new-privileges=F" ∷ []) ≡ false
unfolding no_new_privileges_effective
flag_test = refl

-- Two insertions at one point and a replacement, in no order.
abbrev insertion : String → TextEdit
insertion text = record {
  start_line = 3;
  start_col = 1;
  end_line = 3;
  end_col = 1;
  replacement = text;
  caveat = none;
}

abbrev pinning : TextEdit
pinning = record {
  start_line = 3;
  start_col = 12;
  end_line = 3;
  end_col = 17;
  replacement = "nginx:1";
  caveat = some "pinned";
}

abbrev three_edits : List TextEdit
three_edits = pinning ∷ insertion "    user: x\n" ∷ insertion "    init: true\n" ∷ []

splice_test :
    apply_edits "services:\n  web:\n    image: nginx\n" three_edits
    ≡ spliced "services:\n  web:\n    init: true\n    user: x\n    image: nginx:1\n"
unfolding apply_edits
splice_test = refl

overlap_test :
    apply_edits "a\n" (
      record {
        start_line = 1;
        start_col = 1;
        end_line = 2;
        end_col = 1;
        replacement = "";
        caveat = none;
      }
      ∷ record {
        start_line = 1;
        start_col = 2;
        end_line = 2;
        end_col = 1;
        replacement = "";
        caveat = none;
      }
      ∷ [])
    ≡ overlapping 1 2
unfolding apply_edits
overlap_test = refl

misplaced_test :
    apply_edits "a" (insertion "x" ∷ [])
    ≡ out_of_range "edit names line 3, outside the file's 1 line(s)"
unfolding apply_edits decimal
misplaced_test = refl

other_order : List TextEdit
other_order = insertion "    user: x\n" ∷ pinning ∷ insertion "    init: true\n" ∷ []

apply_edits-perm_example :
    without_message (apply_edits file three_edits) ≡ without_message (apply_edits file other_order)
unfolding other_order
apply_edits-perm_example = apply_edits-perm file (Permᴰ.swap refl refl)

abbrev three_spans : List Span
three_spans =
    record { begin = 28; end = 33; replacement = "nginx:1" }
    ∷ record { begin = 17; end = 17; replacement = "    user: x\n" }
    ∷ record { begin = 17; end = 17; replacement = "    init: true\n" }
    ∷ []

three_placed : spans_of (line_starts file) three_edits ≡ ok three_spans
unfolding spans_of line_starts
three_placed = refl

apply_edits_lem_example :
    (AllApart three_spans
      → apply_edits file three_edits ≡ spliced (weave 0 file (sort_by span_le three_spans)))
    × ((out : String) → apply_edits file three_edits ≡ spliced out → AllApart three_spans)
apply_edits_lem_example = apply_edits_lem file three_edits three_spans three_placed (omega arith)

apply_edits-replace_lines_example :
    apply_edits file (replace_lines (split_lines file) 3 3 "    image: httpd\n" none ∷ [])
    ≡ spliced (
        append (joined (take 2 (split_lines file))) (
          append
            (if ltb 3 (length (split_lines file))
              then "    image: httpd\n"
              else trimmed "    image: httpd\n" (line_at (split_lines file) 3))
            (joined (drop 3 (split_lines file)))))
apply_edits-replace_lines_example =
    apply_edits-replace_lines file 3 3 "    image: httpd\n" none (omega arith) (omega arith)
      (rw split_test (omega arith))

block_span_lem_example :
    ((block_span file_lines 2).0 ≡ 2)
    × ((((block_span file_lines 2).1 ≡ 2)
          × (ends_here
                (is_compact file_lines 2)
                (line_indent (line_at file_lines 2))
                (drop 2 file_lines)
              ≡ true))
        ⊎ ((k : ℕ) × ((block_span file_lines 2).1 ≡ 2 + suc k)
            × EndsAt
                (is_compact file_lines 2)
                (line_indent (line_at file_lines 2))
                (drop 2 file_lines)
                k))
block_span_lem_example = block_span_lem file_lines 2

abbrev four_spans : List FlatSpan
four_spans =
    record { begin = 5; end = 9; unit = 0; replacement = "" }
    ∷ record { begin = 20; end = 20; unit = 3; replacement = "x" }
    ∷ record { begin = 9; end = 9; unit = 1; replacement = "y" }
    ∷ record { begin = 20; end = 20; unit = 2; replacement = "z" }
    ∷ []

refused_test : refused_units four_spans ≡ 0 ∷ 1 ∷ []
unfolding refused_units
refused_test = refl

refused_units-pairwise_example :
    is_refused 1 (refused_units four_spans) ≡ refused_pairwise 1 four_spans
refused_units-pairwise_example = refused_units-pairwise four_spans 1

inherit-stable_example :
    inherit
      (chain_fuel (("a", "b") ∷ ("b", "a") ∷ []) + 3)
      (("a", "b") ∷ ("b", "a") ∷ [])
      (("b", "ports" ∷ []) ∷ [])
      ("a" ∷ [])
      (lookup "a" (("a", "b") ∷ ("b", "a") ∷ []))
      ("user" ∷ [])
    ≡ inherit
        (chain_fuel (("a", "b") ∷ ("b", "a") ∷ []))
        (("a", "b") ∷ ("b", "a") ∷ [])
        (("b", "ports" ∷ []) ∷ [])
        ("a" ∷ [])
        (lookup "a" (("a", "b") ∷ ("b", "a") ∷ []))
        ("user" ∷ [])
inherit-stable_example =
    inherit-stable (("a", "b") ∷ ("b", "a") ∷ []) (("b", "ports" ∷ []) ∷ []) 3 "a" ("user" ∷ [])

-- The document before and after `image:` of `web` was pinned.
abbrev before_fix : Dict Value
before_fix =
    (
      "services",
      mapping (
          ("web", mapping (("image", str "nginx") ∷ ("user", str "x") ∷ []))
          ∷ ("db", mapping (("image", str "redis") ∷ []))
          ∷ []),
    )
    ∷ []

abbrev after_fix : Dict Value
after_fix =
    (
      "services",
      mapping (
          ("web", mapping (("image", str "nginx:1") ∷ ("user", str "x") ∷ []))
          ∷ ("db", mapping (("image", str "redis") ∷ []))
          ∷ []),
    )
    ∷ []

kept_test : structural_drift before_fix after_fix (("web", "image" ∷ []) ∷ []) ≡ none
unfolding structural_drift value_eq
kept_test = refl

drift_test :
    structural_drift before_fix after_fix [] ≡ some "computed fix altered untouched service 'web'"
unfolding structural_drift value_eq
drift_test = refl

structural_drift_iff_example :
    (structural_drift before_fix after_fix (("web", "image" ∷ []) ∷ []) ≡ none)
    ↔ Preserves before_fix after_fix (("web", "image" ∷ []) ∷ [])
structural_drift_iff_example =
    structural_drift_iff before_fix after_fix (("web", "image" ∷ []) ∷ [])
