-- ===== src/Parser/Completeness.antt =====
-- Every source that the SQL parser accepts becomes a script, with a statement for each of its own.
use blastoise.Base.{
  ℕ, zero, suc, ◌-◌, ◌≤◌, ◌≡◌, refl, Option, some, none, List, [], ◌∷◌, length, Text, is_space,
  length-strip, Defined, arith,
}
use blastoise.Ir.{ParsedStatement, SourceSpan}
use blastoise.Sql.{Pglast, accepted, RawStmt, Statement}
use blastoise.Classify.{classify_statement}
use blastoise.Classify.Termination.{Shrinks, classify_statement-ends}
use blastoise.Parser.Locations.{take, drop, find_char}
use blastoise.Parser.Files.{span_of, text_at, classify_all, script_of, parse_migration}

length-take : (n : ℕ) (t : Text) → length (take n t) ≤ length t
unfolding take
length-take zero t = omega arith
length-take (suc n) [] = omega arith
length-take (suc n) (c ∷ cs) = omega (arith, length-take n cs)

length-drop : (n : ℕ) (t : Text) → length (drop n t) ≤ length t
unfolding drop
length-drop zero t = omega arith
length-drop (suc n) [] = omega arith
length-drop (suc n) (c ∷ cs) = omega (arith, length-drop n cs)

length-text_at : (source : Text) (span : SourceSpan) → length (text_at source span) ≤ length source
unfolding text_at
length-text_at source span =
    let from = drop span.start source in
    omega (
      arith,
      length-strip is_space (take (span.end - span.start) from),
      length-take (span.end - span.start) from,
      length-drop span.start source,
    )

-- The statements of the raw statements, without the empty ones.
abbrev pub statements_of : List RawStmt → List Statement
statements_of [] = []
statements_of (raw ∷ raws) = elim raw.stmt [
  | none ↦ statements_of raws
  | some stmt ↦ stmt ∷ statements_of raws
]

value {ℓ} : {A : Type ℓ} (o : Option A) → Defined o → (a : A) × (o ≡ some a)
value none h = absurd h
value (some a) h = (a, refl)

module _ (pglast : Pglast) (shrinks : Shrinks pglast) (source : Text) where
  abbrev Complete : List RawStmt → Type 0
  Complete raws =
      (ss : List ParsedStatement) × (classify_all pglast source raws ≡ some ss)
      × (length ss ≡ length (statements_of raws))

  one_more :
      (raw : RawStmt) (raws : List RawStmt) (o : Option Statement)
      → raw.stmt ≡ o
      → Complete raws
      → Complete (raw ∷ raws)
  unfolding classify_all
  one_more raw raws none e (ss, found, count) = (ss, rw e found, rw e count)
  one_more raw raws (some stmt) e (ss, found, count) =
      let span = span_of source raw in
      let (s, done) =
        value (classify_statement pglast (suc (length source)) stmt (text_at source span) span) (
          classify_statement-ends pglast shrinks (suc (length source)) stmt (text_at source span)
            span (omega (arith, length-text_at source span))) in
      (s ∷ ss, rw (e, done, found) refl, rw e (omega (arith, count)))

  classify_all-Complete : (raws : List RawStmt) → Complete raws
  unfolding classify_all
  classify_all-Complete [] = ([], refl, refl)
  classify_all-Complete (raw ∷ raws) = one_more raw raws raw.stmt refl (classify_all-Complete raws)

  -- A source without a NUL that the SQL parser accepts becomes the script of its statements, one for
  -- each statement of the parser, whatever DO blocks it holds.
  pub parse_migration-accepted :
      (raws : List RawStmt)
      → find_char 0 source ≡ none
      → pglast.parse_sql source ≡ accepted raws
      → (ss : List ParsedStatement) × (parse_migration pglast source ≡ script_of ss)
        × (length ss ≡ length (statements_of raws))
  unfolding parse_migration
  parse_migration-accepted raws no_nul e =
      let (ss, found, count) = classify_all-Complete raws in
      (ss, rw (no_nul, e, found, parse_migration) refl, count)
