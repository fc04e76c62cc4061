-- ===== src/Lib.antt =====
-- compose-lint: a linter of Docker Compose files for security settings. This library models its core
-- and proves what the parts promise each other.
--
-- A document is parsed, its `${VAR}` references are resolved, its overlays are merged onto it, and
-- the containers that it deploys are graded, rule by rule and unit by unit; the findings are graded
-- in their turn against `.compose-lint.yml`, sorted, and filtered by a threshold. The parts:
--
--   Value, Dict, Text       the values of a parsed document, Python's `dict` with text keys and the
--                           `str` methods that the program calls; `as_scalar_text` of
--                           src/compose_lint/_scalar.py and `as_bool` of src/compose_lint/rules/_bool.py
--   Models                  src/compose_lint/models.py: Severity, Finding, Diagnostic
--   Lines, Units            src/compose_lint/_units.py: `UnitLines`, and the units of a document
--                           (`units`, `count_units`, `container_specs`, the hooks, `unit_notes`)
--   Engine                  src/compose_lint/engine.py: what is asked of a rule and how its findings
--                           are graded; Engine.Order the sort and `filter_findings`; Engine.Quote
--                           `_quote_references`, whose pattern is tried from the left; Engine.Run the loop of `run_rules`
--   Interpolation           src/compose_lint/rules/_interpolation.py: braces, heads and precedence;
--                           Interpolation.Resolve `_resolve_defaults` and `substitute_defaults`;
--                           Interpolation.Names `reference_names`
--   Merge                   src/compose_lint/_merge.py: Merge.Equal Python's `==`, Merge.Keys the
--                           identities, Merge.Record the provenance, Merge.Sequences, Merge.Forms and
--                           Merge.Values the strategies, Merge.Documents the fold
--   Extends                 src/compose_lint/parser.py: `_resolve_in_file_extends`, over that merge
--   EnvFile                 src/compose_lint/_env_file.py: lines and entries of a `.env`, and
--                           EnvFile.Resolve their expansion in order
--   Rules                   src/compose_lint/rules/: Rules.Caps the shared capability scan and CL-0006,
--                           Rules.Caps.Tiers CL-0011, 0024, 0027, 0028, 0029 and 0030, Rules.Image
--                           CL-0004 and CL-0019, Rules.Settings CL-0002, 0007, 0008, 0010, 0014 and
--                           0018, Rules.Registry the rules in order
--   SourceLines             src/compose_lint/_lines.py: what a line is, and where each one begins
--   Edits                   src/compose_lint/_yaml_edit.py: how the fixers read the lines of a file;
--                           Edits.Blocks the extent of a block, Edits.Replace the edit of whole
--                           lines, Edits.Scalars the scalar of a line, Edits.Security `security_opt`
--   Fix                     src/compose_lint/fix.py: Fix.Splice `apply_edits`, Fix.Conflict the sweep
--                           over the spans, Fix.Coordinate `_coordinate_security_opt`, Fix.Collect
--                           and Fix.Collect.Settle `collect_edits`, Fix.Drift `_structural_drift` and
--                           `_with_inherited_claims`, Fix.Verify `verify_apply`
--   Check                   src/compose_lint/cli.py: the channels and the exit code of `_run_check`
--   Sorting                 `sorted` by a total order
--   Samples                 tests and examples
--
-- State is passed along: the engine's is the findings and the crashes so far (`Grading`), a crash of
-- a rule is a `Result`, and the limit error is an `Outcome` that stops the loops. A merge passes its
-- `Recorder`. A rule is a record of its two methods, so the engine's theorems hold of any rules; the
-- registry's hold of those modelled here. The prelude is that of native numbers, with Boolean tests.
--
-- Bounds: no loop of the program is cut short. The walk of `_service_pattern` takes the program's
-- own `_MAX_WALK` as its fuel; `substitute` takes the length of the text, of which each round
-- consumes a character; `_resolve_defaults` recurses over the levels that `_MAX_NESTING` leaves,
-- and its loop over the text itself; `reference_names` and `expand` have one more than the length
-- of their text, and recurse into shorter texts only, where the program's recursion has no bound
-- but the interpreter's stack; a merge recurses over the overriding value; the chain of `extends:`
-- has one for each service with a base, and two more, that of `_resolve` one for each service and
-- one more. `decimal` has the number itself.
--
-- What is left out: the interpreter's stack, so a `RecursionError` on text nested deeper than it
-- holds; keys are texts, as the parser makes them; floats and dates are their `str()`; the case
-- mapping is that of ASCII; two objects are told apart by value, so an alias of a large entry
-- counts as another entry. The memo of `merge_values`, the node set of the walk and the caches of
-- `split_lines` and `extends_targets`, and the memo of `_resolve`, do not appear: they only save
-- work. A fixer is a record of its `fix` and of the keys that it writes, as a rule is of its
-- methods, so the theorems on fixes hold of any fixers; a set of keys is a list, and where the
-- program names one member of a set in a message, the first is taken; `sorted` and `list.sort` are
-- insertion sorts. The parser that a patched file is given to is a parameter. `_output.inline`
-- escapes the newline alone. The metadata, the rules' own fixers and the remaining rules, the
-- rendering of diffs, the YAML reader, the configuration, the selection of files, the formatters
-- and the rest of the command line are not modelled.
pub mod Prelude
pub mod Text
pub mod Dict
pub mod Value
pub mod Models
pub mod Lines
pub mod Units
pub mod Sorting
pub mod SourceLines
pub mod Edits
pub mod Fix
pub mod Engine
pub mod Interpolation
pub mod Merge
pub mod EnvFile
pub mod Extends
pub mod Rules
pub mod Check
pub mod Samples
