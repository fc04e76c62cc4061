-- ===== src/Samples/Dotenv.antt =====
-- A small `.env`.
use compose_lint.Prelude.{List, String, [], false, map, none, refl, true, ◌∷◌, ◌≡◌}
use compose_lint.EnvFile.{join_multiline_values, scan}
use compose_lint.EnvFile.Lines.{broken, broken-join_multiline_values, texts_of}
use compose_lint.EnvFile.Resolve.{resolve}
use compose_lint.EnvFile.Resolve.Disjoint.{IsDisjoint, resolve-IsDisjoint}

abbrev text : String
text =
    "export BASE=/srv # here\nNOTE=\"two\nCOMPOSE_FILE=decoy.yml\nlines\"\nSOCK=${BASE}/docker.sock\nBASE=$UNKNOWN\nnot an entry\n"

abbrev lines : List String
lines = "NOTE=\"two" ∷ "COMPOSE_FILE=decoy.yml" ∷ "lines\"" ∷ "A=1" ∷ []

grouped_lines :
    join_multiline_values lines
    ≡ (1, "NOTE=\"two\nCOMPOSE_FILE=decoy.yml\nlines\"") ∷ (4, "A=1") ∷ []
unfolding join_multiline_values
grouped_lines = refl

scanned_keys : map (λ e. e.key) (scan false text).0 ≡ "BASE" ∷ "NOTE" ∷ "SOCK" ∷ "BASE" ∷ []
unfolding scan
scanned_keys = refl

-- The last binding of a key that cannot be resolved takes its value away.
resolved_text :
    (resolve none true [] (scan false text).0).values
    ≡ ("NOTE", "two\nCOMPOSE_FILE=decoy.yml\nlines") ∷ ("SOCK", "/srv/docker.sock") ∷ []
unfolding scan resolve
resolved_text = refl

broken-join_multiline_values_example :
    broken (texts_of (join_multiline_values lines)) ≡ broken lines
broken-join_multiline_values_example = broken-join_multiline_values lines

resolve-IsDisjoint_example : IsDisjoint (resolve none true [] (scan false text).0)
resolve-IsDisjoint_example = resolve-IsDisjoint none true (scan false text).0
