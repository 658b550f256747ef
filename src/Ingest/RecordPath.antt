-- ===== src/Ingest/RecordPath.antt =====
-- The collection of a record path, "app.bsky.feed.post" of "app.bsky.feed.post/abc123", as the
-- ingest side (`bytes.IndexByte`) and the replay (`strings.Index`) both cut it off.
use Prim.Native.Char.{code}
use Prim.Native.String
use text.Mathlib.TextLemmas.{nil-append, cons-append}
use at_protocol_infrastructu.Prelude.{
  ℕ, zero, suc, ◌≡◌, ◌≢◌, refl, ap, Option, none, some, String, arith, ◌==◌, nat_eq, ltb,
  if◌then◌else◌,
}

-- The index of the first slash.
index_slash : String → Option ℕ
index_slash String.[] = none
index_slash (String.◌∷◌ c s) =
    let rest = index_slash s in
    if code c == b'/' then some 0 else elim rest [ none ↦ none | some i ↦ some (suc i) ]

-- `s[:n]`
prefix : ℕ → String → String
prefix zero s = String.[]
prefix (suc n) String.[] = String.[]
prefix (suc n) (String.◌∷◌ c s) = String.◌∷◌ c (prefix n s)

cut : Option ℕ → String → String
cut none path = String.[]
cut (some i) path = if ltb 0 i then prefix i path else String.[]

unfoldable pub record_type_of : String → String
unfolding index_slash prefix cut
record_type_of path = cut (index_slash path) path

abbrev pub HasNoSlash : String → Type 0
HasNoSlash String.[] = Unit
HasNoSlash (String.◌∷◌ c s) = (code c ≢ b'/') × HasNoSlash s

abbrev size : String → ℕ
size String.[] = 0
size (String.◌∷◌ c s) = suc (size s)

-- A path of the form "collection/key".
abbrev pub path_of : String → String → String
path_of collection key = String.◌++◌ collection (String.◌∷◌ "/" key)

index_slash-path_of :
    (collection key : String)
    → HasNoSlash collection
    → index_slash (path_of collection key) ≡ some (size collection)
unfolding index_slash
index_slash-path_of String.[] key h = rw nil-append
index_slash-path_of (String.◌∷◌ c s) key h =
    rw cons-append (ground (arith, index_slash-path_of s key h.1, h.0))

prefix-path_of :
    (collection key : String) → prefix (size collection) (path_of collection key) ≡ collection
unfolding prefix
prefix-path_of String.[] key = refl
prefix-path_of (String.◌∷◌ c s) key = rw cons-append (ap (String.◌∷◌ c) (prefix-path_of s key))

-- The collection that is cut off "collection/key" is the collection, if that has no slash of its
-- own.
record_type_of-path_of :
    (collection key : String)
    → HasNoSlash collection
    → record_type_of (path_of collection key) ≡ collection
unfolding record_type_of
record_type_of-path_of String.[] key h = rw nil-append
record_type_of-path_of (String.◌∷◌ c s) key h =
    rw (index_slash-path_of (String.◌∷◌ c s) key h, cut)
      (ground (arith, prefix-path_of (String.◌∷◌ c s) key))

index_slash-none : (path : String) → HasNoSlash path → index_slash path ≡ none
unfolding index_slash
index_slash-none String.[] h = refl
index_slash-none (String.◌∷◌ c s) h = ground (arith, index_slash-none s h.1, h.0)

-- A path with no slash has no collection.
pub record_type_of-no_slash : (path : String) → HasNoSlash path → record_type_of path ≡ ""
unfolding record_type_of
record_type_of-no_slash path h = rw (index_slash-none path h, cut)
