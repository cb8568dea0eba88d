-- ===== src/Parser/GroupShape.antt =====
-- The shape of the groups of parser.py `_group_transactions`, and how a group is closed.
use blastoise.Base.{
  ◌⊎◌, inl, inr, ℕ, ◌<◌, ◌≡◌, refl, sym, Bool, true, false, Option, some, none, List, [], ◌∷◌, All,
  All-append, All-map, if_cases, not, ◌≤◌, subst, arith,
}
use blastoise.Ir.{TransactionGroup}
use blastoise.Parser.Transactions.{Grouping, is_empty, flush, or_test}

abbrev pub After : Option ℕ → List ℕ → Type 0
After none is = Unit
After (some o) is = All (λ i. o < i) is

abbrev Before : ℕ → Option ℕ → List ℕ → Type 0
Before n none is = Unit
Before n (some c) is = (c < n) × All (λ i. i < c) is

abbrev pub is_some : Option ℕ → Bool
is_some none = false
is_some (some o) = true

-- The members are statements of the file. A group is explicit exactly where a statement opened it,
-- and then its members come after that statement; one that a statement closed is explicit, and its
-- members come before that statement; one that is not explicit has members, and was not rolled
-- back.
pub record IsGroup (n : ℕ) (t : TransactionGroup) : Type 0 where
  pub in_file : All (λ i. i < n) t.statement_indices
  pub opened : t.explicit ≡ is_some t.opened_by
  pub after : After t.opened_by t.statement_indices
  pub before : Before n t.closed_by t.statement_indices
  pub closed : (is_some t.closed_by ≡ false) ⊎ (t.explicit ≡ true)
  pub rolled : (t.rolled_back ≡ false) ⊎ (is_some t.closed_by ≡ true)
  pub inhabited : (t.explicit ≡ true) ⊎ (is_empty t.statement_indices ≡ false)

pub record IsGrouping (n : ℕ) (g : Grouping) : Type 0 where
  pub groups : All (IsGroup n) g.groups
  pub in_file : All (λ i. i < n) g.current
  pub opened : g.in_explicit ≡ is_some g.opened_by
  pub after : After g.opened_by g.current
  pub opener : is_some g.opened_by ≡ true → After g.opened_by (n ∷ [])

module _ (n m : ℕ) (le : n ≤ m) where
  pub All-lt-le : (is : List ℕ) → All (λ i. i < n) is → All (λ i. i < m) is
  All-lt-le is h = All-map (λ i. i < n) (λ i. i < m) (λ i below. omega arith) is h

  Before-le : (c : Option ℕ) (is : List ℕ) → Before n c is → Before m c is
  Before-le none is h = tt
  Before-le (some c) is h = (omega (arith, h.0), h.1)

  pub IsGroup-le : (t : TransactionGroup) → IsGroup n t → IsGroup m t
  IsGroup-le t h = record {
    in_file = All-lt-le t.statement_indices h.in_file;
    opened = h.opened;
    after = h.after;
    before = Before-le t.closed_by t.statement_indices h.before;
    closed = h.closed;
    rolled = h.rolled;
    inhabited = h.inhabited;
  }

  -- The statement that closes a block, where there is one, is the one at hand.
  abbrev Closes : Option ℕ → Bool → Grouping → Type 0
  Closes none r g = r ≡ false
  Closes (some c) r g = (c ≡ n) × (n < m) × (g.in_explicit ≡ true)

  abbrev flushed : Option ℕ → Bool → Grouping → TransactionGroup
  flushed c r g = record {
    explicit = g.in_explicit;
    statement_indices = g.current;
    opened_by = g.opened_by;
    closed_by = c;
    rolled_back = r;
  }

  flushed-IsGroup :
      (c : Option ℕ) (r : Bool) (g : Grouping)
      → IsGrouping n g
      → Closes c r g
      → or_test g.in_explicit (not (is_empty g.current)) ≡ true
      → IsGroup m (flushed c r g)
  flushed-IsGroup none r g h k e = record {
    in_file = All-lt-le g.current h.in_file;
    opened = h.opened;
    after = h.after;
    before = tt;
    closed = inl refl;
    rolled = inl k;
    inhabited = ground arith;
  }
  flushed-IsGroup (some c) r g h k e = record {
    in_file = All-lt-le g.current h.in_file;
    opened = h.opened;
    after = h.after;
    before = (
      omega (arith, k.0, k.1),
      subst (λ (d : ℕ). All (λ i. i < d) g.current) (sym (k.0)) h.in_file,
    );
    closed = inr k.2;
    rolled = inr refl;
    inhabited = inl k.2;
  }

  pub groups-flush :
      (c : Option ℕ) (r : Bool) (g : Grouping)
      → IsGrouping n g
      → Closes c r g
      → All (IsGroup m) (flush c r g).groups
  unfolding flush
  groups-flush c r g h k =
      let kept = All-map (IsGroup n) (IsGroup m) IsGroup-le g.groups h.groups in
      if_cases (All (IsGroup m)) (or_test g.in_explicit (not (is_empty g.current)))
        (λ e. All-append (IsGroup m) g.groups _ kept (flushed-IsGroup c r g h k e, tt)) (λ e. kept)

  pub flush-IsGrouping :
      (c : Option ℕ) (r : Bool) (g : Grouping)
      → IsGrouping n g
      → Closes c r g
      → IsGrouping m (flush c r g)
  unfolding flush
  flush-IsGrouping c r g h k = record {
    groups = unfold flush in groups-flush c r g h k;
    in_file = tt;
    opened = refl;
    after = tt;
    opener = λ d. tt;
  }
