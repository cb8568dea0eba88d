-- ===== src/Loader/Documents.antt =====
-- A YAML document as `yaml.safe_load` decodes it: the input of catalog/loader.py. Integers are natural
-- numbers and keys are texts; a value of any other type is `other_value`.
use blastoise.Base.{
  ℕ, Bool, true, false, List, [], ◌∷◌, all, Text, Result, ok, raise, value_error, contains,
  if◌then◌else◌, ◌==◌, list_eq, nat_eq,
}

mutual
  pub data Yaml : Type 0 where
    null : Yaml
    boolean : Bool → Yaml
    integer : ℕ → Yaml
    string : Text → Yaml
    sequence : Sequence → Yaml
    mapping : Mapping → Yaml
    other_value : Yaml

  pub data Sequence : Type 0 where
    no_more : Sequence
    element : Yaml → Sequence → Sequence

  pub data Mapping : Type 0 where
    empty : Mapping
    pair : (key : Text) (value : Yaml) → Mapping → Mapping

abbrev pub items : Sequence → List Yaml
items no_more = []
items (element y ys) = y ∷ items ys

abbrev pub pairs : Mapping → List (Text × Yaml)
pairs empty = []
pairs (pair k v m) = (k, v) ∷ pairs m

abbrev pub keys : Mapping → List Text
keys empty = []
keys (pair k v m) = k ∷ keys m

-- `raw.get(key)`; a missing key reads as `null`.
unfoldable pub get : Text → Mapping → Yaml
get key empty = null
get key (pair k v m) = if k == key then v else get key m

-- `raise _fail(...)` unless the condition holds.
abbrev pub require : Bool → Result (Unit {0})
require true = ok tt
require false = raise value_error

abbrev pub as_mapping : Yaml → Result Mapping
as_mapping (mapping m) = ok m
as_mapping _ = raise value_error

abbrev pub as_sequence : Yaml → Result (List Yaml)
as_sequence (sequence s) = ok (items s)
as_sequence _ = raise value_error

-- Every text of the one list stands in the other.
abbrev pub within : List Text → List Text → Bool
within ks names = all (λ k. contains k names) ks
