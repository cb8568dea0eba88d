-- ===== src/Loader/Breakpoints.antt =====
-- What catalog/loader.py `_check_breakpoints` promises of the rows.
use blastoise.Base.{ℕ, ◌-◌, ◌<◌, true, false, not, ◌≡◌, List, all, Any, arith}
use blastoise.Catalog.{covers, VersionBreakpoint, CatalogEntry}
use blastoise.Loader.Tables.{StatementRows, ActionRows}
use blastoise.Loader.Catalogs.{rows_in, spans, check_breakpoints}
use blastoise.Loader.Checks.{all-Any}

not-spans :
    (v : ℕ) (e : CatalogEntry)
    → not (spans v e) ≡ true
    → 0 < v
    → covers e.pg_versions v ≡ true
    → covers e.pg_versions (v - 1) ≡ false
not-spans v e h p c = ground arith

-- Where the check passes, no row of the kind of a breakpoint is for a version on each side of it: a
-- row that covers the version of the breakpoint does not cover the version before.
pub check_breakpoints-separated :
    (breakpoints : List VersionBreakpoint) (statements : StatementRows) (actions : ActionRows)
    (bp : VersionBreakpoint) (e : CatalogEntry)
    → check_breakpoints breakpoints statements actions ≡ true
    → Any (λ b. b ≡ bp) breakpoints
    → Any (λ f. f ≡ e) (rows_in statements actions bp.kind)
    → 0 < bp.version
    → covers e.pg_versions bp.version ≡ true
    → covers e.pg_versions (bp.version - 1) ≡ false
unfolding check_breakpoints
check_breakpoints-separated breakpoints statements actions bp e h b r p c =
    not-spans bp.version e
      (all-Any (λ f. not (spans bp.version f)) e (rows_in statements actions bp.kind)
        (all-Any
          (λ (x : VersionBreakpoint).
            all (λ f. not (spans x.version f)) (rows_in statements actions x.kind))
          bp breakpoints h b)
        r)
      p c
