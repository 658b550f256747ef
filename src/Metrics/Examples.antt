-- ===== src/Metrics/Examples.antt =====
-- The registry that is a list of names.
use at_protocol_infrastructu.Prelude.{◌≡◌, refl, false, List, [], map, String, string_eq}
use at_protocol_infrastructu.Prelude.Assoc.{contains}
use at_protocol_infrastructu.Channel.{running, panicked}
use at_protocol_infrastructu.Metrics.{Desc, fields, new}
use at_protocol_infrastructu.Metrics.Listed.{listed, listed-RegistryLaws, everywhere}
use at_protocol_infrastructu.Metrics.Names.{new_once}

new_once_example :
    (m : List (String × String)) × (t : List String) × (new listed [] ≡ running (m, t))
    × (map (λ f. f.0) m ≡ map (λ f. f.0) fields)
    × (new listed t ≡ panicked)
unfolding contains listed-RegistryLaws
new_once_example =
    new_once listed listed-RegistryLaws [] (everywhere (λ f. tt) fields)
      (everywhere (λ (f : String × Desc). refl {a = false}) fields)
