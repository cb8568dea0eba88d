-- ===== src/Classify/Termination.antt =====
-- `classify_statement` ends: the queries of a DO block are shorter than the block.
use blastoise.Base.{
  ℕ, zero, suc, ◌<◌, ◌≡◌, Bool, Option, some, List, [], ◌∷◌, length, All, Text, codes, if_both,
  strip, is_space, length-strip, Defined, Defined-bind, Defined-either, arith, ◌==◌, list_eq,
  nat_eq,
}
use blastoise.Ir.{ParsedStatement, SourceSpan}
use blastoise.Sql.{
  Pglast, RawStmt, Parsed, ParseError, accepted, refused, Statement, Json, of_class,
}
use blastoise.Classify.Plpgsql.{collect_plpgsql_queries}
use blastoise.Classify.Blocks.{
  Body, classify_raws, classify_entries, classify_body, classify_do, classify_statement,
  language_from,
}

-- `parse_plpgsql` returns the text of a function body in parts: each query is shorter than the
-- statement that it stands in.
pub record Shrinks (pglast : Pglast) : Type 0 where
  pub shorter :
      (sql : Text) (blocks : Json)
      → pglast.parse_plpgsql sql ≡ some blocks
      → All (λ e. length e.0 < length sql) (collect_plpgsql_queries pglast blocks).0

-- One rule for the outcome of a parse.
Parsed-either {ℓ} :
    {B : Type ℓ} (o : Parsed) (f : ParseError → Option B) (k : List RawStmt → Option B)
    → ((e : ParseError) → Defined (f e))
    → ((raws : List RawStmt) → Defined (k raws))
    → Defined {A = B} (elim o [ refused e ↦ f e | accepted raws ↦ k raws ])
Parsed-either (refused e) f k h g = h e
Parsed-either (accepted raws) f k h g = g raws

module _ (pglast : Pglast) (n : ℕ)
    (classify : Statement → Text → SourceSpan → Option ParsedStatement)
    (ends : (stmt : Statement) (sql : Text) (span : SourceSpan)
      → length sql < n
      → Defined (classify stmt sql span))
    (span : SourceSpan) where
  classify_raws-ends :
      (raws : List RawStmt) (query : Text) (guarded : Bool) (b : Body)
      → length query < n
      → Defined (classify_raws pglast classify span raws query guarded b)
  unfolding classify_raws
  classify_raws-ends [] query guarded b h = tt
  classify_raws-ends (raw ∷ raws) query guarded b h =
      Defined-either raw.stmt _ _ (classify_raws-ends raws query guarded b h) λ stmt e.
        Defined-bind (classify stmt (strip is_space query) span) _
          (ends stmt (strip is_space query) span (omega (arith, length-strip is_space query)))
          λ s. classify_raws-ends raws query guarded _ h

  classify_entries-ends :
      (entries : List (Text × Bool)) (b : Body)
      → All (λ e. length e.0 < n) entries
      → Defined (classify_entries pglast classify span entries b)
  unfolding classify_entries
  classify_entries-ends [] b h = tt
  classify_entries-ends ((query, guarded) ∷ entries) b h =
      Parsed-either (pglast.parse_sql query) _ _ (λ e. classify_entries-ends entries _ h.1)
        λ raws.
          Defined-bind (classify_raws pglast classify span raws query guarded b) _
            (classify_raws-ends raws query guarded b h.0) λ b'. classify_entries-ends entries b' h.1

  classify_body-ends :
      (sql : Text)
      → ((blocks : Json)
          → pglast.parse_plpgsql sql ≡ some blocks
          → All (λ e. length e.0 < n) (collect_plpgsql_queries pglast blocks).0)
      → Defined (classify_body pglast classify span sql)
  unfolding classify_body
  classify_body-ends sql h = Defined-either (pglast.parse_plpgsql sql) _ _ tt λ blocks e.
      Defined-bind (classify_entries pglast classify span _ _) _
        (classify_entries-ends (collect_plpgsql_queries pglast blocks).0 _ (h blocks e)) λ b. tt

module _ (pglast : Pglast) (shrinks : Shrinks pglast) where
  -- With more fuel than the text is long, every statement is classified, however deep DO blocks
  -- stand in one another.
  pub classify_statement-ends :
      (fuel : ℕ) (stmt : Statement) (sql : Text) (span : SourceSpan)
      → length sql < fuel
      → Defined (classify_statement pglast fuel stmt sql span)
  unfolding classify_statement classify_do
  classify_statement-ends zero stmt sql span h = absurd (omega arith)
  classify_statement-ends (suc fuel) (Statement.do_stmt args) sql span h =
      if_both Defined (language_from (codes "plpgsql") (of_class args) == codes "plpgsql")
        (Defined-bind (classify_body pglast (classify_statement pglast fuel) span sql) _
          (classify_body-ends pglast (length sql) (classify_statement pglast fuel)
            (λ stmt text at lt. classify_statement-ends fuel stmt text at (omega arith)) span sql
            (shrinks.shorter sql))
          λ found. tt)
        tt
  classify_statement-ends (suc fuel) stmt sql span h = tt
