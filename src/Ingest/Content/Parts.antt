-- ===== src/Ingest/Content/Parts.antt =====
-- A job card shows every part that it has.
use text.Mathlib.TextLemmas.{nil-append, append-nil, append_assoc}
use at_protocol_infrastructu.Prelude.{
  ℕ, ◌≡◌, refl, ap, sym, ◌∙◌, ◌⊎◌, inl, inr, some, List, [], ◌∷◌, ◌++◌, String, string_eq,
}
use at_protocol_infrastructu.Prelude.Int.{ℤ}
use at_protocol_infrastructu.Ingest.Content.{
  Record, text_at, join, details, part, card_parts, job_card, content_of, ◌+++◌, price_found,
  sla_part,
}
use at_protocol_infrastructu.Prelude.Assoc.{lookup}

-- `s` stands somewhere in `t`.
abbrev pub IsPart : String → String → Type 0
IsPart s t = (before : String) × (after : String) × (t ≡ before +++ s +++ after)

abbrev pub Mem : String → List String → Type 0
Mem s [] = ⊥
Mem s (x ∷ xs) = (s ≡ x) ⊎ Mem s xs

whole : (s : String) → IsPart s s
whole s = ("", "", sym (nil-append (s +++ "") ∙ append-nil s))

IsPart-left : (s t u : String) → IsPart s t → IsPart s (t +++ u)
IsPart-left s t u (a, b, e) =
    (a, b +++ u, rw e (append_assoc a (s +++ b) u ∙ ap (◌+++◌ a) (append_assoc s b u)))

IsPart-right : (s t u : String) → IsPart s u → IsPart s (t +++ u)
IsPart-right s t u (a, b, e) = (t +++ a, b, rw e (sym (append_assoc t a (s +++ b))))

IsPart-join : (sep s : String) (xs : List String) → Mem s xs → IsPart s (join sep xs)
unfolding join
IsPart-join sep s [] m = absurd m
IsPart-join sep s (x ∷ []) (inl e) = rw e (whole x)
IsPart-join sep s (x ∷ []) (inr m) = elim m [ ]
IsPart-join sep s (x ∷ y ∷ rest) (inl e) = rw e (IsPart-left x x _ (whole x))
IsPart-join sep s (x ∷ y ∷ rest) (inr m) =
    IsPart-right s x _ (IsPart-right s sep _ (IsPart-join sep s (y ∷ rest) m))

IsPart-details : (s : String) (xs : List String) → Mem s xs → IsPart s (details xs)
unfolding details
IsPart-details s [] m = absurd m
IsPart-details s (x ∷ xs) m = IsPart-right s " | " _ (IsPart-join " | " s (x ∷ xs) m)

Mem-right : (s : String) (xs ys : List String) → Mem s ys → Mem s (xs ++ ys)
Mem-right s [] ys m = m
Mem-right s (x ∷ xs) ys m = inr (Mem-right s xs ys m)

Mem-left : (s : String) (xs ys : List String) → Mem s xs → Mem s (xs ++ ys)
Mem-left s [] ys m = absurd m
Mem-left s (x ∷ xs) ys (inl e) = inl e
Mem-left s (x ∷ xs) ys (inr m) = inr (Mem-left s xs ys m)

module _ {F : Type 0} (of_uint : ℕ → F) (of_int : ℤ → F) (print : F → String) where
  card-IsPart :
      (rec : Record F) (s : String)
      → Mem s (card_parts of_uint of_int print rec)
      → IsPart s (job_card of_uint of_int print rec)
  unfolding job_card
  card-IsPart rec s m =
      IsPart-right s _ _ (IsPart-right s " " _ (IsPart-right s _ _ (IsPart-details s _ m)))

  deadline_in_parts :
      (rec : Record F) (deadline : String)
      → text_at "deadline" rec ≡ some deadline
      → Mem ("Deadline: " +++ deadline) (card_parts of_uint of_int print rec)
  unfolding card_parts
  deadline_in_parts rec deadline l =
      let shown : List String = part "Deadline: " (text_at "deadline" rec) in
      let found : Mem ("Deadline: " +++ deadline) shown = rw l (inl refl) in
      Mem-left _ _ (sla_part rec) (
        Mem-right _
          (part "Type: " (text_at "taskType" rec)
            ++ price_found of_uint of_int print (lookup "pricing" rec))
          shown found)

  -- The content of a job card with a task type, a description and a deadline shows all three of
  -- them, the task type and the deadline under their labels, whatever else the record has.
  pub job_card-shows :
      (rec : Record F) (task description deadline : String)
      → text_at "taskType" rec ≡ some task
      → text_at "description" rec ≡ some description
      → text_at "deadline" rec ≡ some deadline
      → (let shown = content_of of_uint of_int print "com.dashofextra.marketplace.jobCard" rec in
          IsPart ("Type: " +++ task) shown
          × IsPart description shown
          × IsPart ("Deadline: " +++ deadline) shown)
  unfolding content_of
  job_card-shows rec task description deadline t d l = (
    card-IsPart rec _ (unfold card_parts in rw t (inl refl)),
    unfold job_card in
        rw d (IsPart-right _ _ _ (IsPart-right _ " " _ (IsPart-left _ _ _ (whole description)))),
    card-IsPart rec _ (deadline_in_parts rec deadline l),
  )
