-- ===== src/Parser/Boundaries.antt =====
-- parser.py `_group_transactions`: the shape of every group.
use blastoise.Base.{
  ℕ, suc, ◌+◌, ◌<◌, ◌≡◌, refl, Bool, true, false, Option, some, none, List, [], ◌∷◌, ◌++◌, length,
  All, All-append, All-map, if_both, if_cases, subst, arith,
}
use blastoise.Ir.{ParsedStatement, head, details}
use blastoise.Parser.Transactions.{
  Grouping, flush, Boundary, begins, commits, rolls_back, no_boundary, boundary, Warning, chained,
  open_block, warn, close_block, move, group_step, group_from, no_groups, finish,
  group_transactions,
}
use blastoise.Parser.GroupShape.{
  After, All-lt-le, IsGroup, IsGroup-le, IsGrouping, flush-IsGrouping, groups-flush, is_some,
}

open_block-IsGrouping :
    (n m line : ℕ) (c : Option ℕ) (r : Bool) (g : Grouping)
    → n < m
    → IsGrouping m (flush c r g)
    → IsGrouping m (open_block n line (flush c r g))
unfolding open_block flush
open_block-IsGrouping n m line c r g lt h = record {
  groups = h.groups;
  in_file = tt;
  opened = refl;
  after = tt;
  opener = λ d. (lt, tt);
}

After-suc :
    (n : ℕ) (o : Option ℕ)
    → (is_some o ≡ true → After o (n ∷ []))
    → is_some o ≡ true
    → After o (suc n ∷ [])
After-suc n none h e = tt
After-suc n (some o) h e = (omega (arith, (h refl).0), tt)

warn-IsGrouping : (n : ℕ) (w : Warning) (g : Grouping) → IsGrouping n g → IsGrouping n (warn w g)
unfolding warn
warn-IsGrouping n w g h = record {
  groups = h.groups;
  in_file = h.in_file;
  opened = h.opened;
  after = h.after;
  opener = h.opener;
}

IsGrouping-suc : (n : ℕ) (g : Grouping) → IsGrouping n g → IsGrouping (suc n) g
IsGrouping-suc n g h = record {
  groups =
      All-map (IsGroup n) (IsGroup (suc n)) (IsGroup-le n (suc n) (omega arith)) g.groups h.groups;
  in_file = All-lt-le n (suc n) (omega arith) g.current h.in_file;
  opened = h.opened;
  after = h.after;
  opener = After-suc n g.opened_by h.opener;
}

close_block-IsGrouping :
    (n line : ℕ) (r chain : Bool) (g : Grouping)
    → IsGrouping n g
    → IsGrouping (suc n) (close_block n line r chain g)
unfolding close_block
close_block-IsGrouping n line r chain g h =
    if_cases (IsGrouping (suc n)) g.in_explicit
      (λ e.
        let shut = flush-IsGrouping n (suc n) (omega arith) (some n) r g h (refl, omega arith, e) in
        if_both (IsGrouping (suc n)) chain
          (open_block-IsGrouping n (suc n) line (some n) r g (omega arith) shut) shut)
      (λ e. IsGrouping-suc n _ (warn-IsGrouping n _ g h))

After-append :
    (n : ℕ) (o : Option ℕ) (is : List ℕ)
    → After o is
    → (is_some o ≡ true → After o (n ∷ []))
    → After o (is ++ n ∷ [])
After-append n none is h k = tt
After-append n (some o) is h k = All-append (λ i. o < i) is (n ∷ []) h (k refl)

move-IsGrouping :
    (b : Boundary) (n line : ℕ) (chain : Bool) (g : Grouping)
    → IsGrouping n g
    → IsGrouping (suc n) (move b n line chain g)
unfolding move
move-IsGrouping begins n line chain g h =
    if_both (IsGrouping (suc n)) g.in_explicit (IsGrouping-suc n _ (warn-IsGrouping n _ g h)) (
      open_block-IsGrouping n (suc n) line none false g (omega arith)
        (flush-IsGrouping n (suc n) (omega arith) none false g h refl))
move-IsGrouping commits n line chain g h = close_block-IsGrouping n line false chain g h
move-IsGrouping rolls_back n line chain g h = close_block-IsGrouping n line true chain g h
move-IsGrouping no_boundary n line chain g h = record {
  groups =
      All-map (IsGroup n) (IsGroup (suc n)) (IsGroup-le n (suc n) (omega arith)) g.groups h.groups;
  in_file =
      All-append (λ i. i < suc n) g.current (n ∷ [])
        (All-lt-le n (suc n) (omega arith) g.current h.in_file) (omega arith, tt);
  opened = h.opened;
  after = After-append n g.opened_by g.current h.after h.opener;
  opener = After-suc n g.opened_by h.opener;
}

group_from-IsGrouping :
    (index : ℕ) (ss : List ParsedStatement) (g : Grouping)
    → IsGrouping index g
    → IsGrouping (index + length ss) (group_from index ss g)
unfolding group_from group_step
group_from-IsGrouping index [] g h = subst (λ (n : ℕ). IsGrouping n g) (omega arith) h
group_from-IsGrouping index (s ∷ ss) g h =
    subst (λ (n : ℕ). IsGrouping n (group_from (suc index) ss (group_step index s g))) (omega arith)
      (group_from-IsGrouping (suc index) ss (group_step index s g) (
        move-IsGrouping (boundary (head s).kind) index (head s).span.line (chained (details s)) g
          h))

-- Every group of a file has the shape `IsGroup`: its members are statements of the file, between
-- the statement that opens it and the one that closes it; it is explicit exactly where one opens
-- it, only an explicit group is closed or rolled back, and one that is not explicit has members.
pub group_transactions-IsGroup :
    (ss : List ParsedStatement) → All (IsGroup (length ss)) (group_transactions ss).0
unfolding group_transactions finish
group_transactions-IsGroup ss =
    let start : IsGrouping 0 no_groups = record {
      groups = tt;
      in_file = tt;
      opened = refl;
      after = tt;
      opener = λ d. tt;
    } in
    let last = group_from 0 ss no_groups in
    let h : IsGrouping (length ss) last =
      subst (λ (n : ℕ). IsGrouping n last) (omega arith)
        (group_from-IsGrouping 0 ss no_groups start) in
    groups-flush (length ss) (length ss) (omega arith) none false _
      (if_both (IsGrouping (length ss)) last.in_explicit (warn-IsGrouping (length ss) _ last h) h)
      refl
