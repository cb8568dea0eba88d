-- ===== src/Loader/Relations.antt =====
-- catalog/loader.py `_parse_affected` and `_parse_when`.
use blastoise.Base.{
  Bool, true, false, not, List, [], ◌∷◌, map, Text, codes, Result, ok, raise, value_error,
  type_error, ◌>>=◌, contains, if◌then◌else◌, list_eq, nat_eq,
}
use blastoise.Ir.{Value, flag, number, text, opaque}
use blastoise.Catalog.{LockMode, Role, target, AffectedRelation, When, Expected, equals, member_of}
use blastoise.Loader.Documents.{
  Yaml, null, boolean, integer, string, sequence, mapping, other_value, empty, pair, pairs, keys,
  items, get, as_mapping, require, within,
}
use blastoise.Loader.Spellings.{lock_modes, known_roles, is_unresolvable}
use blastoise.Loader.Scalars.{enum, bool_or}

abbrev relation_keys : List Text
relation_keys =
    codes "role" ∷ codes "lock_mode" ∷ codes "optional" ∷ codes "statically_resolvable" ∷ []

-- A list or a mapping cannot be looked up in `KNOWN_ROLES`: `in` raises a `TypeError`.
abbrev role_text : Yaml → Result Text
role_text (string t) = ok t
role_text (sequence ys) = raise type_error
role_text (mapping m) = raise type_error
role_text _ = raise value_error

-- A role that the code knows and that was not given before.
unfoldable pub parse_role : List Text → Yaml → Result (Text × Role)
parse_role seen y = role_text y >>= λ name. enum known_roles (string name) >>= λ role.
    require (not (contains name seen)) >>= λ _. ok (name, role)

abbrev differ : Bool → Bool → Bool
differ a b = if a then not b else b

unfoldable pub parse_relation : List Text → Yaml → Result (Text × AffectedRelation)
unfolding parse_role
parse_relation seen y = as_mapping y >>= λ m. require (within (keys m) relation_keys) >>= λ _.
    parse_role seen (get (codes "role") m) >>= λ named.
    enum lock_modes (get (codes "lock_mode") m) >>= λ mode.
    bool_or (contains (codes "optional") (keys m)) false (get (codes "optional") m) >>= λ optional.
    bool_or (contains (codes "statically_resolvable") (keys m)) (not (is_unresolvable named.1))
      (get (codes "statically_resolvable") m)
    >>= λ resolvable. require (differ (is_unresolvable named.1) resolvable) >>= λ _. ok (
      named.0,
      record {
        role = named.1;
        lock_mode = mode;
        optional = optional;
        statically_resolvable = resolvable;
      },
    )

unfoldable pub parse_relations : List Text → List Yaml → Result (List AffectedRelation)
unfolding parse_relation
parse_relations seen [] = ok []
parse_relations seen (y ∷ ys) =
    parse_relation seen y >>= λ rel. parse_relations (rel.0 ∷ seen) ys >>= λ rels. ok (rel.1 ∷ rels)

unfoldable pub parse_affected : LockMode → Yaml → Result (List AffectedRelation)
unfolding parse_relations
parse_affected default_mode null = ok (
    record {
      role = target;
      lock_mode = default_mode;
      optional = false;
      statically_resolvable = true;
    }
    ∷ [])
parse_affected default_mode (sequence s) = parse_relations [] (items s)
parse_affected default_mode _ = raise value_error

abbrev scalar : Yaml → Value
scalar null = Value.null
scalar (boolean b) = flag b
scalar (integer n) = number n
scalar (string t) = text t
scalar (sequence _) = opaque
scalar (mapping _) = opaque
scalar other_value = opaque

abbrev expected : Yaml → Expected
expected (sequence s) = member_of (map scalar (items s))
expected y = equals (scalar y)

unfoldable pub parse_predicates : List Text → List (Text × Yaml) → Result When
parse_predicates names [] = ok []
parse_predicates names ((key, value) ∷ rest) = require (contains key names) >>= λ _.
    parse_predicates names rest >>= λ more. ok ((key, expected value) ∷ more)

unfoldable pub parse_when : List Text → Yaml → Result When
unfolding parse_predicates
parse_when names null = ok []
parse_when names (mapping empty) = raise value_error
parse_when names (mapping (pair k v m)) = parse_predicates names ((k, v) ∷ pairs m)
parse_when names _ = raise value_error
