-- ===== src/Classify/Names.antt =====
-- classify.py: names, options and constants of a parse tree.
use blastoise.Base.{
  ℤ, Bool, true, false, ◌&&◌, ◌||◌, not, Option, some, none, List, [], ◌∷◌, map, Text, codes,
  contains, lower_char, ◌==◌, list_eq, nat_eq, pos, negsuc,
}
use blastoise.Ir.{QualifiedName, DefaultInfo, Volatility}
use blastoise.Sql.{
  Name, string, not_string, strings, RangeVar, Node, type_cast, a_const, TypeName, DefElem, no_arg,
  string_arg, integer_arg, boolean_arg, other_arg, Pglast,
}
use blastoise.Volatility.{expression_volatility, unknown_function_keys}

abbrev pub lower : Text → Text
lower t = map lower_char t

-- `_qname`.
unfoldable pub qname : Option RangeVar → Option QualifiedName
qname none = none
qname (some r) = elim r.relname [
  | none ↦ none
  | some relname ↦ some (record { name = relname; schema = r.schemaname })
]

-- `_targets`.
unfoldable pub targets : List (Option RangeVar) → List QualifiedName
targets [] = []
targets (r ∷ rs) = let rest = targets rs in elim (qname r) [ none ↦ rest | some name ↦ name ∷ rest ]

-- `_qname_from_strings`: the last two parts.
unfoldable pub qname_from_strings : List Text → Option QualifiedName
qname_from_strings [] = none
qname_from_strings (name ∷ []) = some (record { name = name; schema = none })
qname_from_strings (schema ∷ name ∷ []) = some (record { name = name; schema = some schema })
qname_from_strings (part ∷ schema ∷ name ∷ rest) = qname_from_strings (schema ∷ name ∷ rest)

-- `(name,) if name is not None else ()`.
unfoldable pub one_target : Option QualifiedName → List QualifiedName
one_target none = []
one_target (some name) = name ∷ []

-- The texts among the items that are there and not empty.
unfoldable pub nonempty_strings : List Name → List Text
nonempty_strings [] = []
nonempty_strings (string (some (c ∷ cs)) ∷ items) = (c ∷ cs) ∷ nonempty_strings items
nonempty_strings (string (some []) ∷ items) = nonempty_strings items
nonempty_strings (string none ∷ items) = nonempty_strings items
nonempty_strings (not_string ∷ items) = nonempty_strings items

-- `_SERIAL_TYPE_NAMES`.
unfoldable pub serial_type_names : List Text
serial_type_names =
    codes "serial"
    ∷ codes "serial2"
    ∷ codes "serial4"
    ∷ codes "serial8"
    ∷ codes "bigserial"
    ∷ codes "smallserial"
    ∷ []

unfoldable pub is_serial_type : Option TypeName → Bool
is_serial_type none = false
is_serial_type (some t) = elim (strings t.names) [
  | [] ↦ false
  | name ∷ more ↦ elim more [ [] ↦ contains (lower name) serial_type_names | _ ∷ _ ↦ false ]
]

abbrev text_or_empty : Option Text → Text
text_or_empty none = []
text_or_empty (some t) = t

abbrev nonzero : ℤ → Bool
nonzero (pos n) = not (n == 0)
nonzero (negsuc n) = true

-- `_defelem_enabled`: a bare option is on.
unfoldable pub defelem_enabled : DefElem → Bool
defelem_enabled elem = elim elem.arg [
  | no_arg ↦ true
  | string_arg sval ↦
      contains (lower (text_or_empty sval))
        (codes "true" ∷ codes "on" ∷ codes "yes" ∷ codes "1" ∷ [])
  | integer_arg ival ↦ nonzero ival
  | boolean_arg boolval ↦ boolval
  | other_arg ↦ true
]

-- `elem.defname == name`.
abbrev pub named : Option Text → Text → Bool
named none name = false
named (some defname) name = defname == name

-- Some option of the name is on.
unfoldable pub option_enabled : Text → List DefElem → Bool
option_enabled name [] = false
option_enabled name (e ∷ es) = named e.defname name && defelem_enabled e || option_enabled name es

unfoldable pub is_null_constant : Node → Bool
is_null_constant (type_cast arg others) = is_null_constant arg
is_null_constant (a_const isnull) = isnull
is_null_constant _ = false

-- `_default_info`. An empty node is `None`, which `_deparse` leaves alone.
unfoldable pub default_info : Pglast → Node → DefaultInfo
default_info pglast expr =
    let volatility = expression_volatility none expr in
    record {
      volatility = volatility;
      expression = elim expr [ Node.absent ↦ none | other ↦ pglast.deparse other ];
      unknown_functions = elim volatility [
        | Volatility.unknown ↦ unknown_function_keys expr
        | _ ↦ []
      ];
    }
