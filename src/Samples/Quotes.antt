-- ===== src/Samples/Quotes.antt =====
-- A `.env` whose secret reaches a finding.
use compose_lint.Prelude.{[], refl, ◌∷◌, ◌≡◌}
use compose_lint.Value.{Value, str}
use compose_lint.Engine.Quote.{EnvValues, quote_text, service_pattern}
use compose_lint.Engine.Quote.Leftmost.{Quoted, quote_text-Quoted}
use compose_lint.Samples.{mapping}

abbrev secret : Value
secret = mapping (("image", str "registry.example:hunter2hunter2") ∷ [])

abbrev substituted : EnvValues
substituted =
    (
      "registry.example:hunter2hunter2",
      ("HOST", "registry.example") ∷ ("TOKEN", "hunter2hunter2") ∷ ("PART", "registry") ∷ [],
    )
    ∷ []

quote_text-secret :
    quote_text
      (service_pattern secret substituted)
      "image registry.example:hunter2hunter2 of registry"
    ≡ "image ${HOST}:${TOKEN} of ${PART}"
unfolding quote_text service_pattern
quote_text-secret = refl

quote_text-Quoted_example :
    Quoted
      (service_pattern secret substituted)
      "image registry.example:hunter2"
      (quote_text (service_pattern secret substituted) "image registry.example:hunter2")
quote_text-Quoted_example = quote_text-Quoted secret substituted "image registry.example:hunter2"
