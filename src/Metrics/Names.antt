-- ===== src/Metrics/Names.antt =====
-- No two collectors share a name, so `New` does not panic; a second call would.
use text.Mathlib.TextEquality.{eq_iff}
use at_protocol_infrastructu.Prelude.{
  ◌≡◌, ◌≢◌, refl, ap, ◌∙◌, Bool, true, false, not, ◌||◌, ◌&&◌, List, [], ◌∷◌, ◌++◌, map, String,
  string_eq, All, arith,
}
use at_protocol_infrastructu.Prelude.Assoc.{contains}
use at_protocol_infrastructu.Prelude.Result.{Result, ok, err}
use at_protocol_infrastructu.Channel.{running, panicked}
use at_protocol_infrastructu.Metrics.{Desc, Registry, fields, promauto, register_fields, new}

-- The documented behaviour of `Register` on a valid description: it fails exactly where the name is
-- registered already.
pub record RegistryLaws (r : Registry) : Type 1 where
  pub names : r.State → List String
  pub IsValid : Desc → Type 0
  pub fresh :
      (d : Desc) (s : r.State)
      → IsValid d
      → contains (names s) d.name ≡ false
      → (c : r.Collector) × ((r.register d s).0 ≡ ok c)
        × (names (r.register d s).1 ≡ d.name ∷ names s)
  pub duplicate :
      (d : Desc) (s : r.State)
      → contains (names s) d.name ≡ true
      → (e : String) × ((r.register d s).0 ≡ err e)

later : (x k : String) (ns : List String) → contains ns k ≡ true → contains (x ∷ ns) k ≡ true
unfolding contains
later x k ns h = ground arith

at_head : (x : String) (ns : List String) → contains (x ∷ ns) x ≡ true
unfolding contains
at_head x ns = ground (arith, (eq_iff x x).1 refl)

-- No name is registered before, and none comes twice.
unfoldable pub free : List String → List (String × Desc) → Bool
free known [] = true
free known ((field, d) ∷ rest) = not (contains known d.name) && free (d.name ∷ known) rest

contains-append :
    (xs ys : List String) (n : String) → contains (xs ++ ys) n ≡ (contains xs n || contains ys n)
unfolding contains
contains-append [] ys n = refl
contains-append (x ∷ xs) ys n = ground (arith, contains-append xs ys n)

-- Names that are free among themselves are free beside others that hold none of them.
free-append :
    (xs known : List String) (ds : List (String × Desc))
    → All (λ f. contains known f.1.name ≡ false) ds
    → free xs ds ≡ true
    → free (xs ++ known) ds ≡ true
unfolding free
free-append xs known [] h e = refl
free-append xs known ((field, d) ∷ rest) h e =
    ground (arith, contains-append xs known d.name, free-append (d.name ∷ xs) known rest h.1)

-- The names of the relay's collectors are distinct.
fields_distinct : free [] fields ≡ true
unfolding free contains
fields_distinct = refl

module _ (r : Registry) (l : RegistryLaws r) where
  made :
      (x : Result String r.Collector × r.State) (c : r.Collector)
      → x.0 ≡ ok c
      → promauto r x ≡ running (c, x.1)
  unfolding promauto
  made (ok a, t) c q = ground arith
  made (err a, t) c q = absurd (cc)

  refused :
      (x : Result String r.Collector × r.State) (e : String) → x.0 ≡ err e → promauto r x ≡ panicked
  unfolding promauto
  refused (ok a, t) e q = absurd (cc)
  refused (err a, t) e q = refl

  -- What a run of registrations leaves: a collector for each field, and all names registered.
  record Registered (ds : List (String × Desc)) (s : r.State)
      (x : List (String × r.Collector) × r.State) : Type 0 where
    made_fields : map (λ f. f.0) x.0 ≡ map (λ f. f.0) ds
    kept : (n : String) → contains (l.names s) n ≡ true → contains (l.names x.1) n ≡ true
    registered : All (λ f. contains (l.names x.1) f.1.name ≡ true) ds

  register_fields-Registered :
      (ds : List (String × Desc)) (s : r.State) (known : List String)
      → l.names s ≡ known
      → All (λ f. l.IsValid f.1) ds
      → free known ds ≡ true
      → (x : List (String × r.Collector) × r.State) × (register_fields r ds s ≡ running x)
        × Registered ds s x
  unfolding register_fields free
  register_fields-Registered [] s known n v e =
      (([], s), refl, record { made_fields = refl; kept = λ n h. h; registered = tt })
  register_fields-Registered ((field, d) ∷ rest) s known n v e =
      let (c, done, grown) = l.fresh d s v.0 (ap (λ k. contains k d.name) n ∙ first_free) in
      let ((m, t), ran, g) =
        register_fields-Registered rest (r.register d s).1 (d.name ∷ known)
          (grown ∙ ap (◌∷◌ d.name) n) v.1 rest_free in
      (
        ((field, c) ∷ m, t),
        rw (made (r.register d s) c done, ran) refl,
        record {
          made_fields = ap (◌∷◌ field) g.made_fields;
          kept = λ k h. g.kept k (ap (λ ns. contains ns k) grown ∙ later d.name k (l.names s) h);
          registered = (
            g.kept d.name (ap (λ ns. contains ns d.name) grown ∙ at_head d.name (l.names s)),
            g.registered,
          );
        },
      )
    where
      first_free : contains known d.name ≡ false
      first_free = ground arith

      rest_free : free (d.name ∷ known) rest ≡ true
      rest_free = ground arith

  taken_panics :
      (ds : List (String × Desc)) (t : r.State)
      → ds ≢ []
      → All (λ f. contains (l.names t) f.1.name ≡ true) ds
      → register_fields r ds t ≡ panicked
  unfolding register_fields
  taken_panics [] t some h = absurd (some refl)
  taken_panics ((field, d) ∷ rest) t some h =
      let (e, failed) = l.duplicate d t h.0 in rw (refused (r.register d t) e failed) refl

  -- On a registry that has none of the names, if the library accepts each description: New makes a
  -- collector for every field, and calling it a second time panics.
  pub new_once :
      (s : r.State)
      → All (λ f. l.IsValid f.1) fields
      → All (λ f. contains (l.names s) f.1.name ≡ false) fields
      → (m : List (String × r.Collector)) × (t : r.State) × (new r s ≡ running (m, t))
        × (map (λ f. f.0) m ≡ map (λ f. f.0) fields)
        × (new r t ≡ panicked)
  unfolding new
  new_once s valid absent =
      let ((m, t), ran, g) =
        register_fields-Registered fields s (l.names s) refl valid
          (free-append [] (l.names s) fields absent fields_distinct) in
      (m, t, ran, g.made_fields, taken_panics fields t (λ q. cc) g.registered)
