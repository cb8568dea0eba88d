-- ===== src/Parser/Grouping.antt =====
-- parser.py `_group_transactions` against an abstract session: which explicit transaction is open
-- when a statement runs.
use blastoise.Base.{
  ℕ, suc, ◌≡◌, refl, sym, ap, ◌∙◌, Bool, true, false, Option, some, none, List, [], ◌∷◌, ◌++◌,
  if◌then◌else◌, Bool-cases, if_both, inl, inr, arith,
}
use mathlib.Core.List.{append_assoc, append-nil}
use blastoise.Ir.{TransactionGroup, ParsedStatement, head, details}
use blastoise.Parser.Transactions.{
  Warning, Grouping, flush, Boundary, begins, commits, rolls_back, no_boundary, boundary, chained,
  open_block, warn, close_block, move, group_step, group_from, no_groups, finish,
  group_transactions,
}

-- The index of the statement that opened the block, while one is open. BEGIN inside a block and
-- COMMIT or ROLLBACK outside have no effect; AND CHAIN opens the next block at once.
abbrev after_close : ℕ → Bool → Option ℕ → Option ℕ
after_close index chain none = none
after_close index chain (some o) = if chain then some index else none

abbrev after_begin : ℕ → Option ℕ → Option ℕ
after_begin index none = some index
after_begin index (some o) = some o

abbrev session_move : Boundary → ℕ → Bool → Option ℕ → Option ℕ
session_move begins index chain session = after_begin index session
session_move commits index chain session = after_close index chain session
session_move rolls_back index chain session = after_close index chain session
session_move no_boundary index chain session = session

abbrev runs : Boundary → ℕ → Option ℕ → List (ℕ × Option ℕ)
runs no_boundary index session = (index, session) ∷ []
runs _ index session = []

-- Each statement that is no boundary, in order, with the block in which it runs.
abbrev pub session_runs : ℕ → List ParsedStatement → Option ℕ → List (ℕ × Option ℕ)
session_runs index [] session = []
session_runs index (s ∷ ss) session =
    runs (boundary (head s).kind) index session
    ++ session_runs (suc index) ss
        (session_move (boundary (head s).kind) index (chained (details s)) session)

abbrev in_block : Option ℕ → List ℕ → List (ℕ × Option ℕ)
in_block opened [] = []
in_block opened (i ∷ is) = (i, opened) ∷ in_block opened is

-- The members of the groups, in order, with what opened their group.
abbrev pub members : List TransactionGroup → List (ℕ × Option ℕ)
members [] = []
members (t ∷ ts) = in_block t.opened_by t.statement_indices ++ members ts

members-append : (ts us : List TransactionGroup) → members (ts ++ us) ≡ members ts ++ members us
members-append [] us = refl
members-append (t ∷ ts) us = simp (members-append ts us, append_assoc)

in_block-append :
    (opened : Option ℕ) (is js : List ℕ)
    → in_block opened (is ++ js) ≡ in_block opened is ++ in_block opened js
in_block-append opened [] js = refl
in_block-append opened (i ∷ is) js = ap (λ r. (i, opened) ∷ r) (in_block-append opened is js)

abbrev view : Grouping → List (ℕ × Option ℕ)
view g = members g.groups ++ in_block g.opened_by g.current

abbrev is_open : Option ℕ → Bool
is_open none = false
is_open (some o) = true

abbrev Consistent : Grouping → Type 0
Consistent g = g.in_explicit ≡ is_open g.opened_by

members-flush : (c : Option ℕ) (r : Bool) (g : Grouping) → members (flush c r g).groups ≡ view g
unfolding flush
members-flush c r g = elim (Bool-cases g.in_explicit) [
  | inl t ↦ rw t (members-append g.groups _ ∙ simp (append-nil))
  | inr f ↦ go g.current refl f
]
  where
    go :
        (is : List ℕ)
        → g.current ≡ is
        → g.in_explicit ≡ false
        → members (flush c r g).groups ≡ view g
    go [] e f = rw (f, e) (simp (append-nil))
    go (i ∷ is) e f = rw (f, e) (members-append g.groups _ ∙ simp (append-nil))

record Simulates (b : Boundary) (index : ℕ) (chain : Bool) (g h : Grouping) : Type 0 where
  seen : view h ≡ view g ++ runs b index g.opened_by
  session : h.opened_by ≡ session_move b index chain g.opened_by
  consistent : Consistent h

view-open_block :
    (index line : ℕ) (c : Option ℕ) (r : Bool) (g : Grouping)
    → view (open_block index line (flush c r g)) ≡ view g
unfolding open_block flush
view-open_block index line c r g = append-nil _ ∙ unfold flush in members-flush c r g

view-flush : (c : Option ℕ) (r : Bool) (g : Grouping) → view (flush c r g) ≡ view g
unfolding flush
view-flush c r g = append-nil _ ∙ unfold flush in members-flush c r g

view-close_block :
    (index line : ℕ) (r chain : Bool) (g : Grouping)
    → view (close_block index line r chain g) ≡ view g
unfolding close_block warn
view-close_block index line r true g =
    if_both (λ h. view h ≡ view g) g.in_explicit (view-open_block index line (some index) r g) refl
view-close_block index line r false g =
    if_both (λ h. view h ≡ view g) g.in_explicit (view-flush (some index) r g) refl

opened_by-close_block :
    (index line : ℕ) (r chain : Bool) (g : Grouping)
    → Consistent g
    → ((close_block index line r chain g).opened_by ≡ after_close index chain g.opened_by)
      × Consistent (close_block index line r chain g)
unfolding close_block warn open_block flush
opened_by-close_block index line r chain g k = go g.opened_by refl
  where
    go :
        (o : Option ℕ)
        → g.opened_by ≡ o
        → ((close_block index line r chain g).opened_by ≡ after_close index chain g.opened_by)
          × Consistent (close_block index line r chain g)
    go none e = (ground arith, ground arith)
    go (some o) e = (ground arith, ground arith)

view-warn : (w : Warning) (g : Grouping) → view (warn w g) ≡ view g
unfolding warn
view-warn w g = refl

opened_by-move :
    (index line : ℕ) (chain : Bool) (g : Grouping)
    → Consistent g
    → ((move begins index line chain g).opened_by ≡ after_begin index g.opened_by)
      × Consistent (move begins index line chain g)
unfolding move warn open_block flush
opened_by-move index line chain g k = go g.opened_by refl
  where
    go :
        (o : Option ℕ)
        → g.opened_by ≡ o
        → ((move begins index line chain g).opened_by ≡ after_begin index g.opened_by)
          × Consistent (move begins index line chain g)
    go none e = (ground arith, ground arith)
    go (some o) e = (ground arith, ground arith)

move-Simulates :
    (b : Boundary) (index line : ℕ) (chain : Bool) (g : Grouping)
    → Consistent g
    → Simulates b index chain g (move b index line chain g)
unfolding move
move-Simulates begins index line chain g k = record {
  seen =
      if_both (λ h. view h ≡ view g) g.in_explicit (view-warn _ g)
        (view-open_block index line none false g)
      ∙ sym (append-nil (view g));
  session = (opened_by-move index line chain g k).0;
  consistent = (opened_by-move index line chain g k).1;
}
move-Simulates commits index line chain g k = record {
  seen = view-close_block index line false chain g ∙ sym (append-nil (view g));
  session = (opened_by-close_block index line false chain g k).0;
  consistent = (opened_by-close_block index line false chain g k).1;
}
move-Simulates rolls_back index line chain g k = record {
  seen = view-close_block index line true chain g ∙ sym (append-nil (view g));
  session = (opened_by-close_block index line true chain g k).0;
  consistent = (opened_by-close_block index line true chain g k).1;
}
move-Simulates no_boundary index line chain g k = record {
  seen =
      ap (λ r. members g.groups ++ r) (in_block-append g.opened_by g.current (index ∷ []))
      ∙ sym (append_assoc (members g.groups) _ _);
  session = refl;
  consistent = k;
}

view-group_from :
    (index : ℕ) (ss : List ParsedStatement) (g : Grouping)
    → Consistent g
    → view (group_from index ss g) ≡ view g ++ session_runs index ss g.opened_by
unfolding group_from group_step
view-group_from index [] g k = sym (append-nil (view g))
view-group_from index (s ∷ ss) g k =
    let b = boundary (head s).kind in
    let chain = chained (details s) in
    let next = group_step index s g in
    let sim = move-Simulates b index (head s).span.line chain g k in
    view-group_from (suc index) ss next sim.consistent
    ∙ rw (sim.seen, sim.session) (append_assoc (view g) _ _)

members-finish : (g : Grouping) → members (finish g).0 ≡ view g
unfolding finish warn
members-finish g =
    if_both (λ h. members (flush none false h).groups ≡ view g) g.in_explicit
      (members-flush none false _) (members-flush none false g)

-- The groups hold every statement that is no boundary, once and in order, and each stands in the
-- group of the block that is open when it runs, or in a group outside explicit blocks where none
-- is.
pub group_transactions-session :
    (ss : List ParsedStatement) → members (group_transactions ss).0 ≡ session_runs 0 ss none
unfolding group_transactions
group_transactions-session ss =
    members-finish (group_from 0 ss no_groups) ∙ view-group_from 0 ss no_groups refl
