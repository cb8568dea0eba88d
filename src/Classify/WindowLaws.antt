-- ===== src/Classify/WindowLaws.antt =====
-- classify.py `_has_key_window` against the conjuncts of the WHERE clause.
use blastoise.Base.{
  ◌≡◌, refl, ap, sym, ◌∙◌, ◌↔◌, ◌⊎◌, inl, inr, Bool, true, false, ◌||◌, List, [], ◌∷◌, ◌++◌, any,
  Text, contains, list_eq, nat_eq, list_beq_iff, Bool-cases, arith,
}
use blastoise.Sql.{
  Name, Node, Nodes, end, node, absent, a_expr, ExprKind, bool_expr, and_expr, or_expr, not_expr,
}
use blastoise.Classify.Windows.{
  Window, operator_name, Bound, lower_bound, upper_bound, no_bound, bound_of, bounded, add_bound,
  is_between, collect, collect_args, no_window, has_key_window,
}
use blastoise.Classify.Conjuncts.{
  between_term, bounds_above, bounds_below, conjuncts, conjuncts_of, low_side, opposite,
}

-- A window after a list of terms.
record Follows (ns : List Node) (w w' : Window) : Type 0 where
  low : (c : Text) → contains c w'.low ≡ (any (bounds_below c) ns || contains c w.low)
  high : (c : Text) → contains c w'.high ≡ (any (bounds_above c) ns || contains c w.high)
  between : w'.between ≡ (any between_term ns || w.between)

add_low :
    (b : Bound) (lexpr rexpr : Node) (w : Window) (c : Text)
    → contains c (add_bound (bounded b lexpr rexpr) w).low
      ≡ (low_side b c lexpr rexpr || contains c w.low)
unfolding add_bound bounded
add_low lower_bound lexpr rexpr w c = ground arith
add_low upper_bound lexpr rexpr w c = ground arith
add_low no_bound lexpr rexpr w c = refl

add_high :
    (b : Bound) (lexpr rexpr : Node) (w : Window) (c : Text)
    → contains c (add_bound (bounded b lexpr rexpr) w).high
      ≡ (low_side (opposite b) c lexpr rexpr || contains c w.high)
unfolding add_bound bounded
add_high lower_bound lexpr rexpr w c = ground arith
add_high upper_bound lexpr rexpr w c = ground arith
add_high no_bound lexpr rexpr w c = refl

add_between :
    (b : Bound) (lexpr rexpr : Node) (w : Window)
    → (add_bound (bounded b lexpr rexpr) w).between ≡ w.between
unfolding add_bound bounded
add_between lower_bound lexpr rexpr w = ground arith
add_between upper_bound lexpr rexpr w = ground arith
add_between no_bound lexpr rexpr w = refl

any-append : (p : Node → Bool) (ns ms : List Node) → any p (ns ++ ms) ≡ (any p ns || any p ms)
any-append p [] ms = refl
any-append p (n ∷ ns) ms = ground (arith, any-append p ns ms)

regroup : (a b old : Bool) (p : Bool) → p ≡ (a || b) → (b || (a || old)) ≡ (p || old)
regroup true true old p e = ground arith
regroup true false old p e = ground arith
regroup false b old p e = ground arith

Follows-append :
    (ns ms : List Node) (w w' w'' : Window)
    → Follows ns w w'
    → Follows ms w' w''
    → Follows (ns ++ ms) w w''
Follows-append ns ms w w' w'' f g = record {
  low = λ c.
      g.low c
      ∙ ap (λ (b : Bool). any (bounds_below c) ms || b) (f.low c)
      ∙ regroup (any (bounds_below c) ns) (any (bounds_below c) ms) (contains c w.low) _
          (any-append (bounds_below c) ns ms);
  high = λ c.
      g.high c
      ∙ ap (λ (b : Bool). any (bounds_above c) ms || b) (f.high c)
      ∙ regroup (any (bounds_above c) ns) (any (bounds_above c) ms) (contains c w.high) _
          (any-append (bounds_above c) ns ms);
  between =
      g.between
      ∙ ap (λ (b : Bool). any between_term ms || b) f.between
      ∙ regroup (any between_term ns) (any between_term ms) w.between _
          (any-append between_term ns ms);
}

unchanged : (w : Window) → Follows [] w w
unchanged w = record { low = λ c. refl; high = λ c. refl; between = refl }

drop_false : (a b : Bool) → (a || b) ≡ (a || false || b)
drop_false true b = refl
drop_false false b = refl

term-Follows :
    (kind : ExprKind) (name : List Name) (lexpr rexpr : Node) (w : Window)
    → Follows (a_expr kind name lexpr rexpr ∷ []) w (collect (a_expr kind name lexpr rexpr) w)
unfolding collect
term-Follows kind name lexpr rexpr w = elim (Bool-cases (is_between kind lexpr)) [
  | inl t ↦ record { low = λ c. rw t; high = λ c. rw t; between = rw t }
  | inr f ↦
      let b = bound_of (operator_name name) in
      record {
        low = λ c.
            rw f (
              add_low b lexpr rexpr w c ∙ drop_false (low_side b c lexpr rexpr) (contains c w.low));
        high = λ c. rw f (
            add_high b lexpr rexpr w c
            ∙ drop_false (low_side (opposite b) c lexpr rexpr) (contains c w.high));
        between = rw f (add_between b lexpr rexpr w);
      }
]

mutual
  unfolding collect conjuncts

  collect-Follows : (n : Node) (w : Window) → Follows (conjuncts n) w (collect n w)
  collect-Follows (bool_expr and_expr args) w = collect_args-Follows args w
  collect-Follows (a_expr kind name lexpr rexpr) w = term-Follows kind name lexpr rexpr w
  collect-Follows (bool_expr or_expr args) w = record {
    low = λ c. refl;
    high = λ c. refl;
    between = refl;
  }
  collect-Follows (bool_expr not_expr args) w = record {
    low = λ c. refl;
    high = λ c. refl;
    between = refl;
  }
  collect-Follows absent w = record { low = λ c. refl; high = λ c. refl; between = refl }
  collect-Follows _ w = record { low = λ c. refl; high = λ c. refl; between = refl }

  collect_args-Follows : (ns : Nodes) (w : Window) → Follows (conjuncts_of ns) w (collect_args ns w)
  collect_args-Follows end w = unchanged w
  collect_args-Follows (node n ns) w =
      Follows-append (conjuncts n) (conjuncts_of ns) w (collect n w) (collect_args ns (collect n w))
        (collect-Follows n w) (collect_args-Follows ns (collect n w))

some_common :
    (p : Text → Bool) (xs : List Text)
    → any p xs ≡ true
    → (c : Text) × (contains c xs ≡ true) × (p c ≡ true)
some_common p [] h = cc
some_common p (x ∷ xs) h = elim (Bool-cases (p x)) [
  | inl t ↦ (x, rw ((list_beq_iff x x).1 refl) refl, t)
  | inr f ↦ let (c, m, k) = some_common p xs (rw f at h) in (c, ground arith, k)
]

any-contains :
    (p : Text → Bool) (c : Text) (xs : List Text)
    → contains c xs ≡ true
    → p c ≡ true
    → any p xs ≡ true
any-contains p c [] h k = cc
any-contains p c (x ∷ xs) h k = elim (Bool-cases (list_eq.same c x)) [
  | inl t ↦ rw (← (list_beq_iff c x).0 t, k) refl
  | inr f ↦ ground (arith, any-contains p c xs (rw f at h) k)
]

or_false : (b : Bool) → (b || false) ≡ b
or_false true = refl
or_false false = refl

pub has_key_window_lem :
    (n : Node)
    → (has_key_window n ≡ true) ↔ (
        (any between_term (conjuncts n) ≡ true)
        ⊎ ((c : Text) × (any (bounds_below c) (conjuncts n) ≡ true)
            × (any (bounds_above c) (conjuncts n) ≡ true)))
unfolding has_key_window
has_key_window_lem n =
    let ns = conjuncts n in
    let w = collect n no_window in
    let f = collect-Follows n no_window in
    let common = any (λ c. contains c w.high) w.low in
    (
      λ h. elim (Bool-cases w.between) [
        | inl t ↦ inl (sym (f.between ∙ or_false (any between_term ns)) ∙ t)
        | inr no_between ↦
            let (c, m, k) = some_common (λ c. contains c w.high) w.low (rw no_between at h) in
            inr (
              c,
              sym (f.low c ∙ or_false (any (bounds_below c) ns)) ∙ m,
              sym (f.high c ∙ or_false (any (bounds_above c) ns)) ∙ k,
            )
      ],
      λ h. elim h [
        | inl t ↦ rw (f.between ∙ or_false (any between_term ns) ∙ t) refl
        | inr q ↦
            let all : common ≡ true =
              any-contains (λ c. contains c w.high) q.0 w.low
                (f.low q.0 ∙ or_false (any (bounds_below q.0) ns) ∙ q.1)
                (f.high q.0 ∙ or_false (any (bounds_above q.0) ns) ∙ q.2) in
            elim (Bool-cases w.between) [ inl t ↦ rw t refl | inr no_between ↦ rw no_between all ]
      ],
    )
