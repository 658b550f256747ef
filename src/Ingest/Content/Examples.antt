-- ===== src/Ingest/Content/Examples.antt =====
-- The content of a job card, with numbers printed as themselves.
use at_protocol_infrastructu.Prelude.{refl, [], ◌∷◌, String, string_eq}
use at_protocol_infrastructu.Prelude.Assoc.{lookup}
use at_protocol_infrastructu.Ingest.Content.{Record, text, leaf, text_at, content_of, ◌+++◌}
use at_protocol_infrastructu.Ingest.Content.Parts.{IsPart, job_card-shows}

abbrev card : Record String
card =
    ("taskType", leaf (text "translate"))
    ∷ ("description", leaf (text "A page"))
    ∷ ("deadline", leaf (text "Friday"))
    ∷ []

job_card-shows_example :
    IsPart
      ("Type: " +++ "translate")
      (content_of (λ n. "") (λ z. "") (λ s. s) "com.dashofextra.marketplace.jobCard" card)
    × IsPart "A page"
        (content_of (λ n. "") (λ z. "") (λ s. s) "com.dashofextra.marketplace.jobCard" card)
    × IsPart
        ("Deadline: " +++ "Friday")
        (content_of (λ n. "") (λ z. "") (λ s. s) "com.dashofextra.marketplace.jobCard" card)
unfolding text_at lookup
job_card-shows_example =
    job_card-shows (λ n. "") (λ z. "") (λ s. s) card "translate" "A page" "Friday" refl refl refl
