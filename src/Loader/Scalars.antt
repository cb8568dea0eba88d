-- ===== src/Loader/Scalars.antt =====
-- catalog/loader.py: scalars of the document.
use blastoise.Base.{
  Bool, true, false, ◌&&◌, ◌||◌, Option, some, none, List, [], ◌∷◌, any, leb, Text, codes, Result,
  ok, raise, value_error, ◌>>=◌, if◌then◌else◌, list_eq, nat_eq, strip, is_space, drop_prefix,
}
use blastoise.Catalog.{VersionRange, covers}
use blastoise.Loader.Documents.{
  Yaml, null, boolean, integer, string, sequence, element, no_more, items, require,
}
use blastoise.Loader.Spellings.{member_named}

-- `_enum`.
unfoldable pub enum {ℓ} : {A : Type ℓ} → List (Text × A) → Yaml → Result A
enum members (string t) = elim (member_named t members) [ none ↦ raise value_error | some a ↦ ok a ]
enum members _ = raise value_error

-- `_bool`.
unfoldable pub bool : Yaml → Result Bool
bool (boolean b) = ok b
bool _ = raise value_error

-- `_bool` of a key with a default. A missing key and `null` differ: `present` tells them apart.
unfoldable pub bool_or : Bool → Bool → Yaml → Result Bool
unfolding bool
bool_or present default y = if present then bool y else ok default

-- `not value.strip()`.
abbrev pub is_blank : Text → Bool
is_blank t = elim (strip is_space t) [ [] ↦ true | _ ∷ _ ↦ false ]

-- `_opt_str`.
unfoldable pub opt_str : Yaml → Result (Option Text)
opt_str null = ok none
opt_str (string t) = if is_blank t then raise value_error else ok (some t)
opt_str _ = raise value_error

-- `_parse_versions`.
unfoldable pub parse_versions : VersionRange → Yaml → Result VersionRange
parse_versions domain (sequence (element (integer lo) (element (integer hi) no_more))) =
    require (leb lo hi) >>= λ _. require (covers domain lo && covers domain hi) >>= λ _.
    ok (record { lowest = lo; highest = hi })
parse_versions domain _ = raise value_error

abbrev source_text : Yaml → Option Text
source_text (string t) = if is_blank t then none else some t
source_text _ = none

unfoldable pub source_texts : List Yaml → Result (List Text)
source_texts [] = ok []
source_texts (y ∷ ys) = elim (source_text y) [
  | none ↦ raise value_error
  | some t ↦ source_texts ys >>= λ ts. ok (t ∷ ts)
]

-- `source`: a text, or a list of texts that is not empty.
unfoldable pub parse_source : Yaml → Result (List Text)
unfolding source_texts
parse_source (string t) = source_texts (string t ∷ [])
parse_source (sequence (element y ys)) = source_texts (y ∷ items ys)
parse_source _ = raise value_error

abbrev starts_with : Text → Text → Bool
starts_with prefix t = elim (drop_prefix prefix t) [ none ↦ false | some rest ↦ true ]

-- Some source starts with one of `_SOURCE_PREFIXES`.
unfoldable pub has_citation : List Text → Bool
has_citation sources =
    any
      (λ s.
        starts_with (codes "doc:") s
        || (starts_with (codes "src:") s || starts_with (codes "release:") s))
      sources
