-- ===== src/Metrics/Listed.antt =====
-- A registry that is a list of names.
use at_protocol_infrastructu.Prelude.{
  ◌≡◌, true, false, List, [], ◌∷◌, String, string_eq, All, arith, if◌then◌else◌,
}
use at_protocol_infrastructu.Prelude.Assoc.{contains}
use at_protocol_infrastructu.Prelude.Result.{ok, err}
use at_protocol_infrastructu.Metrics.{Desc, Registry}
use at_protocol_infrastructu.Metrics.Names.{RegistryLaws}

abbrev pub listed : Registry
listed = record {
  State = List String;
  Collector = String;
  register = λ d s.
      if contains s d.name
      then (err "duplicate metrics collector registration attempted", s)
      else (ok d.name, d.name ∷ s);
}

listed_fresh :
    (d : Desc) (s : List String)
    → contains s d.name ≡ false
    → (c : String) × ((listed.register d s).0 ≡ ok c) × ((listed.register d s).1 ≡ d.name ∷ s)
listed_fresh d s h = (d.name, ground arith, ground arith)

listed_duplicate :
    (d : Desc) (s : List String)
    → contains s d.name ≡ true
    → (e : String) × ((listed.register d s).0 ≡ err e)
listed_duplicate d s h = ("duplicate metrics collector registration attempted", ground arith)

unfoldable pub listed-RegistryLaws : RegistryLaws listed
unfolding listed_fresh listed_duplicate
listed-RegistryLaws = record {
  names = λ s. s;
  IsValid = λ d. Unit {0};
  fresh = λ d s v h. listed_fresh d s h;
  duplicate = λ d s h. listed_duplicate d s h;
}

pub everywhere : {A : Type 0} {P : A → Type 0} → ((x : A) → P x) → (xs : List A) → All P xs
everywhere h [] = tt
everywhere h (x ∷ xs) = (h x, everywhere h xs)
