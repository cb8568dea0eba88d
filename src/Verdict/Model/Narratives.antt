-- ===== src/Verdict/Model/Narratives.antt =====
-- verdict/narrow.py: what a narrowing tells the reader, and the phrase that engine.py looks for.
use blastoise.Base.{
  ℕ, ◌/◌, ◌%◌, Bool, true, false, ◌&&◌, ◌||◌, not, Option, some, none, List, [], ◌∷◌, ◌++◌, Text,
  codes, String, contains, nat_eq, nat_beq, leb, ltb, if◌then◌else◌, drop_prefix, length,
}
use blastoise.Ir.{Volatility}
use blastoise.Live.{known, IndexFacts}
use blastoise.Live.Canonical.{print_natural, hex_digit}

-- `part in text`
unfoldable pub is_within : Text → Text → Bool
is_within part [] = elim (drop_prefix part []) [ none ↦ false | some _ ↦ true ]
is_within part (c ∷ cs) =
    let later = is_within part cs in
    elim (drop_prefix part (c ∷ cs)) [ none ↦ later | some _ ↦ true ]

-- One character of `repr`. Outside Latin-1 every character is taken as printable.
repr_char : (quote : ℕ) → ℕ → Text
repr_char quote c =
    if nat_beq c quote || nat_beq c b'\\'
    then b'\\' ∷ c ∷ []
    else if nat_beq c 9
    then codes "\\t"
    else if nat_beq c 10
    then codes "\\n"
    else if nat_beq c 13
    then codes "\\r"
    else if ltb c 32 || leb 127 c && leb c 160 || nat_beq c 173
    then codes "\\x" ++ (hex_digit (c / 16) ∷ hex_digit (c % 16) ∷ [])
    else c ∷ []

repr_chars : (quote : ℕ) → Text → Text
unfolding repr_char
repr_chars quote [] = quote ∷ []
repr_chars quote (c ∷ cs) = repr_char quote c ++ repr_chars quote cs

-- `repr` of a str: in single quotes, unless it holds one and no double quote.
repr : Text → Text
unfolding repr_chars
repr text =
    let quote : ℕ = if contains b'\'' text && not (contains b'"' text) then b'"' else b'\'' in
    quote ∷ repr_chars quote text

-- The narrative of a narrowing, a constructor for each text, with what it is filled with.
-- `no_narrative` is the empty text.
pub data Narrative : Type 0 where
  no_narrative : Narrative
  not_a_domain unconstrained_domain : (column_type : Text) → Narrative
  constrained_domain : (column_type : Text) (constraints : Option ℕ) (not_null : Bool) → Narrative
  default_volatile : Narrative
  default_decided : Volatility → Narrative → Narrative
  no_table_rewrite : (reason : Text) (dependent : ℕ) → Narrative
  no_table_rewrite_but_rebuilds : (reason column : Text) (rebuilt : List IndexFacts) → Narrative
  conditional_rewrite table_rewritten : (reason : Text) → Narrative
  already_not_null nothing_proves : (column : Text) → Narrative
  constraint_proves : (constraint column : Text) → Narrative
  already_validated : (constraint : Text) → Narrative
  foreign_key_validation foreign_key_drop :
      (constraint : Text) (referenced : Option Text) → Narrative
  scans_this_table only_this_table : (constraint contype : Text) → Narrative
  absent : (constraint : Option Text) (missing_ok : Bool) → Narrative
  columns_not_null : Narrative
  virtual_generated stored_generated : (column : Text) → Narrative

upper_volatility : Volatility → Text
upper_volatility Volatility.constant = codes "CONSTANT"
upper_volatility Volatility.immutable = codes "IMMUTABLE"
upper_volatility Volatility.stable = codes "STABLE"
upper_volatility Volatility.volatile = codes "VOLATILE"
upper_volatility Volatility.unknown = codes "UNKNOWN"

or_none : Option ℕ → Text
or_none none = codes "None"
or_none (some n) = print_natural n []

repr_or_none : Option Text → Text
unfolding repr
repr_or_none none = codes "None"
repr_or_none (some t) = repr t

-- `referenced_table or 'unresolved'`
or_unresolved : Option Text → Text
or_unresolved none = codes "unresolved"
or_unresolved (some []) = codes "unresolved"
or_unresolved (some (c ∷ cs)) = c ∷ cs

shape : IndexFacts → Text
shape ix =
    if ix.partial
    then codes "partial"
    else if ix.has_expressions
    then codes "expression"
    else ix.method

described : IndexFacts → Text
unfolding shape
described ix =
    let size : Text = elim ix.size_bytes [
      | known (some n) ↦ codes ", " ++ print_natural n (codes " bytes")
      | _ ↦ []
    ] in
    ix.name ++ (codes " (" ++ (shape ix ++ (size ++ codes ")")))

all_described : List IndexFacts → Text
unfolding described
all_described [] = []
all_described (ix ∷ []) = described ix
all_described (ix ∷ iy ∷ rest) = described ix ++ (codes ", " ++ all_described (iy ∷ rest))

reused : ℕ → Text
reused dependent =
    if ltb 0 dependent
    then codes "; "
      ++ print_natural dependent
          (codes " dependent plain btree index(es) are reused (CheckIndexCompatible), not rebuilt")
    else codes "; no index depends on the column"

-- `live: `, a name, and what is said of it.
said : String → Text → String → Text
said before name after = codes before ++ (name ++ codes after)

-- The text of a narrative.
unfoldable pub render : Narrative → Text
unfolding said reused all_described or_unresolved repr_or_none or_none upper_volatility repr
render no_narrative = []
render (not_a_domain t) =
    said "live: type " (repr t)
      " is not a domain — the fast default path applies (value stored in attmissingval, no rewrite)"
render (unconstrained_domain t) =
    said "live: type " (repr t) " is an unconstrained domain — the fast default path applies"
render (constrained_domain t constraints not_null) =
    said "live: type " (repr t) " is a domain with "
    ++ (or_none constraints
        ++ (codes " CHECK constraint(s)"
            ++ ((if not_null then codes " and NOT NULL" else [])
                ++ codes " — the fast path is disabled and the table is rewritten")))
render default_volatile =
    codes
      "live: pg_proc.provolatile decides the default VOLATILE — every existing row is rewritten with a freshly evaluated value"
render (default_decided v n) =
    said "live: pg_proc.provolatile decides the default " (upper_volatility v)
      " (fast path eligible)"
    ++ (codes "; " ++ render n)
render (no_table_rewrite reason dependent) =
    said "live: no table rewrite — " reason "" ++ reused dependent
render (no_table_rewrite_but_rebuilds reason column rebuilt) =
    said "live: no table rewrite — " reason " — but "
    ++ (print_natural (length rebuilt) (codes " dependent index(es) on ")
        ++ (repr column
            ++ (codes
                  " cannot be reused and are rebuilt under ACCESS EXCLUSIVE while the statement holds the table lock: "
                ++ all_described rebuilt)))
render (conditional_rewrite reason) = said "live: conditional rewrite — " reason ""
render (table_rewritten reason) = said "live: the table is rewritten — " reason ""
render (already_not_null column) = said "live: column " (repr column) " is already NOT NULL — no-op"
render (nothing_proves column) =
    said "live: no valid constraint proves " (repr column)
      " NOT NULL — the full verification scan runs under ACCESS EXCLUSIVE"
render (constraint_proves constraint column) =
    said "live: valid constraint " (repr constraint) " already proves "
    ++ said "" (repr column)
        " NOT NULL — the verification scan is skipped (NotNullImpliedByRelConstraints, PG 12+)"
render (already_validated constraint) =
    said "live: constraint " (repr constraint) " is already validated — no-op"
render (foreign_key_validation constraint referenced) =
    said "live: " (repr constraint)
      " is a FOREIGN KEY — validation scans this table and takes ROW SHARE on the referenced table "
    ++ said "(" (or_unresolved referenced) ")"
render (foreign_key_drop constraint referenced) =
    said "live: " (repr constraint)
      " is a FOREIGN KEY — dropping it also takes ACCESS EXCLUSIVE on the referenced table "
    ++ said "(" (or_unresolved referenced) ") to remove its trigger"
render (scans_this_table constraint contype) =
    said "live: " (repr constraint) " is contype "
    ++ said "" (repr contype) " — validation scans only this table"
render (only_this_table constraint contype) =
    said "live: " (repr constraint) " is contype "
    ++ said "" (repr contype) " — only this table is locked"
render (absent constraint missing_ok) =
    said "live: " (repr_or_none constraint) " does not exist — "
    ++ (if missing_ok
        then codes "constraint absent: IF EXISTS makes this a no-op"
        else codes "constraint absent: the statement would error")
render columns_not_null =
    codes
      "live: every column of the table is already NOT NULL — no implicit SET NOT NULL scan can occur"
render (virtual_generated column) =
    said "live: column " (repr column) " is VIRTUAL generated — catalog-only change, nothing stored"
render (stored_generated column) =
    said "live: column " (repr column)
      " is STORED generated — every row is rewritten with the new expression"

-- `"no table rewrite" in narrative`
unfoldable pub says_no_table_rewrite : Narrative → Bool
unfolding is_within
says_no_table_rewrite n = is_within (codes "no table rewrite") (render n)
