-- ===== src/Verdict/Safety/Spelling.antt =====
-- The spelling that `probe_name` of verdict/probes.py gives a relation can be read back.
use blastoise.Base.{
  ℕ, ◌≡◌, refl, sym, ap, ◌∙◌, Bool, true, false, ◌&&◌, ◌||◌, Option, some, none, [], ◌∷◌, ◌++◌, all,
  arith, Text, nat_beq, nat_beq_iff, if◌then◌else◌, Bool-cases, inl, inr, is_lower, is_digit,
}
use blastoise.Ir.{QualifiedName}
use blastoise.Verdict.Probes.{is_safe_identifier, double_quotes, quote_part, probe_name}

abbrev is_part_char : ℕ → Bool
is_part_char d = is_lower d || (is_digit d || (nat_beq d b'_' || nat_beq d b'$'))

abbrev push : ℕ → Option (Text × Text) → Option (Text × Text)
push c none = none
push c (some (text, rest)) = some (c ∷ text, rest)

-- The inside of a quoted part. `pending` is set behind a quote that may close it.
scan : (pending : Bool) → Text → Option (Text × Text)
scan true [] = some ([], [])
scan false [] = none
scan true (c ∷ cs) =
    let rest = scan false cs in if nat_beq c b'"' then push b'"' rest else some ([], c ∷ cs)
scan false (c ∷ cs) =
    let closed = scan true cs in
    let rest = scan false cs in if nat_beq c b'"' then closed else push c rest

take_part : Text → Text × Text
take_part [] = ([], [])
take_part (c ∷ cs) = let r = take_part cs in if is_part_char c then (c ∷ r.0, r.1) else ([], c ∷ cs)

-- One part and what follows it, as the server reads them.
read_part : Text → Option (Text × Text)
unfolding scan take_part
read_part [] = none
read_part (c ∷ cs) = if nat_beq c b'"' then scan false cs else some (take_part (c ∷ cs))

-- What may follow a part: nothing, or a dot.
abbrev Follows : Text → Type 0
Follows [] = Unit
Follows (c ∷ cs) = c ≡ b'.'

and_left : (a b : Bool) → (a && b) ≡ true → a ≡ true
and_left a b h = ground arith

and_right : (a b : Bool) → (a && b) ≡ true → b ≡ true
and_right a b h = ground arith

double_quotes-quote :
    (c : ℕ) (cs : Text)
    → nat_beq c b'"' ≡ true
    → double_quotes (c ∷ cs) ≡ b'"' ∷ b'"' ∷ double_quotes cs
unfolding double_quotes
double_quotes-quote c cs t = rw t refl

double_quotes-other :
    (c : ℕ) (cs : Text) → nat_beq c b'"' ≡ false → double_quotes (c ∷ cs) ≡ c ∷ double_quotes cs
unfolding double_quotes
double_quotes-other c cs n = rw n refl

scan-other :
    (c : ℕ) (cs : Text) → nat_beq c b'"' ≡ false → scan false (c ∷ cs) ≡ push c (scan false cs)
unfolding scan
scan-other c cs n = rw n refl

scan-double_quotes :
    (part rest : Text)
    → Follows rest
    → scan false (double_quotes part ++ (b'"' ∷ rest)) ≡ some (part, rest)
unfolding scan double_quotes
scan-double_quotes [] [] f = refl
scan-double_quotes [] (c ∷ cs) f = rw f refl
scan-double_quotes (c ∷ cs) rest f = elim (Bool-cases (nat_beq c b'"')) [
  | inl t ↦
      ap (λ text. scan false (text ++ (b'"' ∷ rest))) (double_quotes-quote c cs t)
      ∙ (ap (push b'"') (scan-double_quotes cs rest f)
          ∙ ap (λ d. some (d ∷ cs, rest)) (sym ((nat_beq_iff c b'"').0 t)))
  | inr n ↦
      ap (λ text. scan false (text ++ (b'"' ∷ rest))) (double_quotes-other c cs n)
      ∙ (scan-other c (double_quotes cs ++ (b'"' ∷ rest)) n
          ∙ ap (push c) (scan-double_quotes cs rest f))
]

take_part-other :
    (c : ℕ) (cs : Text)
    → is_part_char c ≡ true
    → take_part (c ∷ cs) ≡ (c ∷ (take_part cs).0, (take_part cs).1)
unfolding take_part
take_part-other c cs t = rw t refl

take_part-safe :
    (part rest : Text)
    → all is_part_char part ≡ true
    → Follows rest
    → take_part (part ++ rest) ≡ (part, rest)
unfolding take_part is_lower is_digit
take_part-safe [] [] h f = refl
take_part-safe [] (c ∷ cs) h f = rw f refl
take_part-safe (c ∷ cs) rest h f =
    take_part-other c (cs ++ rest) (and_left (is_part_char c) (all is_part_char cs) h)
    ∙ ap (λ r. (c ∷ r.0, r.1))
        (take_part-safe cs rest (and_right (is_part_char c) (all is_part_char cs) h) f)

-- A safe identifier starts with no quote, and has the characters of a part.
safe-IsPart :
    (c : ℕ) (cs : Text)
    → is_safe_identifier (c ∷ cs) ≡ true
    → (nat_beq c b'"' ≡ false) × (all is_part_char (c ∷ cs) ≡ true)
unfolding is_safe_identifier is_lower is_digit
safe-IsPart c cs h = ground arith

read_part-safe :
    (part rest : Text)
    → is_safe_identifier part ≡ true
    → Follows rest
    → read_part (part ++ rest) ≡ some (part, rest)
unfolding read_part is_safe_identifier
read_part-safe [] rest h f = cc
read_part-safe (c ∷ cs) rest h f =
    let (other, safe) = safe-IsPart c cs h in
    rw other (ap some (take_part-safe (c ∷ cs) rest safe f))

read_part-quoted :
    (part rest : Text)
    → Follows rest
    → read_part (b'"' ∷ (double_quotes part ++ (b'"' ∷ rest))) ≡ some (part, rest)
unfolding read_part
read_part-quoted part rest f = scan-double_quotes part rest f

append_assoc : (a b c : Text) → (a ++ b) ++ c ≡ a ++ (b ++ c)
append_assoc [] b c = refl
append_assoc (x ∷ a) b c = ap (λ text. x ∷ text) (append_assoc a b c)

quote_part-append :
    (part rest : Text)
    → is_safe_identifier part ≡ false
    → quote_part part ++ rest ≡ b'"' ∷ (double_quotes part ++ (b'"' ∷ rest))
unfolding quote_part
quote_part-append part rest n =
    rw n (ap (λ text. b'"' ∷ text) (append_assoc (double_quotes part) (b'"' ∷ []) rest))

read_part-quote_part :
    (part rest : Text) → Follows rest → read_part (quote_part part ++ rest) ≡ some (part, rest)
unfolding quote_part
read_part-quote_part part rest f = elim (Bool-cases (is_safe_identifier part)) [
  | inl t ↦ ap (λ text. read_part (text ++ rest)) (rw t refl) ∙ read_part-safe part rest t f
  | inr n ↦ ap read_part (quote_part-append part rest n) ∙ read_part-quoted part rest f
]

-- A relation read back from its spelling.
read_schema : Text → Option (Text × Text) → Option QualifiedName
read_schema schema none = none
read_schema schema (some (name, [])) = some (record { name = name; schema = some schema })
read_schema schema (some (name, c ∷ cs)) = none

read_rest : Option (Text × Text) → Option QualifiedName
unfolding read_schema
read_rest none = none
read_rest (some (name, [])) = some (record { name = name; schema = none })
read_rest (some (schema, c ∷ cs)) = read_schema schema (read_part cs)

append-nil : (a : Text) → a ++ [] ≡ a
append-nil [] = refl
append-nil (x ∷ a) = ap (λ text. x ∷ text) (append-nil a)

read_part-whole : (part : Text) → read_part (quote_part part) ≡ some (part, [])
read_part-whole part =
    ap read_part (sym (append-nil (quote_part part))) ∙ read_part-quote_part part [] tt

read_rest-probe_name :
    (name : Text) (schema : Option Text)
    → read_rest (read_part (probe_name (record { name = name; schema = schema })))
      ≡ some (record { name = name; schema = schema })
unfolding probe_name read_rest
read_rest-probe_name name none = ap read_rest (read_part-whole name)
read_rest-probe_name name (some schema) =
    ap read_rest (read_part-quote_part schema (b'.' ∷ quote_part name) refl)
    ∙ ap (read_schema schema) (read_part-whole name)

some-injective : (q r : QualifiedName) → some q ≡ some r → q ≡ r
some-injective q r h = cc

-- Two relations with one spelling for the server are one relation, whatever characters their names
-- and schemas hold.
pub probe_name-injective : (q r : QualifiedName) → probe_name q ≡ probe_name r → q ≡ r
probe_name-injective q r h = some-injective q r (
    sym (read_rest-probe_name q.name q.schema)
    ∙ (ap (λ text. read_rest (read_part text)) h ∙ read_rest-probe_name r.name r.schema))
