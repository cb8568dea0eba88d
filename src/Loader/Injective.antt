-- ===== src/Loader/Injective.antt =====
-- The kinds as keys of the dictionaries of catalog/loader.py: a kind is known by its value.
use blastoise.Base.{
  Bool, true, ◌≡◌, inl, inr, some, first, List, [], ◌∷◌, All, Any, arith, subst, sym, ap, ◌∙◌,
  list_eq, nat_eq, Bool-cases,
}
use blastoise.Ir.{StatementKind, AlterTableActionKind}
use blastoise.Loader.Spellings.{
  statement_kinds, action_kinds, same_statement, same_action, statement_kind_of, action_kind_of,
}
use blastoise.Loader.Tables.{find_kind}
use blastoise.Loader.Members.{
  statement_kind_of-statement_kind_value, action_kind_of-action_kind_value,
}

first-Any :
    {K : Type 0} (p : K → Bool) (xs : List K) (k : K) → first p xs ≡ some k → Any (λ x. x ≡ k) xs
first-Any p [] k h = absurd (ground arith)
first-Any p (x ∷ xs) k h = elim (Bool-cases (p x)) [
  | inl t ↦ inl (ground arith)
  | inr f ↦ inr (first-Any p xs k (rw f at h))
]

pub statement-listed : (k : StatementKind) → Any (λ l. l ≡ k) statement_kinds
unfolding statement_kind_of
statement-listed k = first-Any _ statement_kinds k (statement_kind_of-statement_kind_value k)

pub action-listed : (k : AlterTableActionKind) → Any (λ l. l ≡ k) action_kinds
unfolding action_kind_of
action-listed k = first-Any _ action_kinds k (action_kind_of-action_kind_value k)

some-same : {K : Type 0} (k l : K) → some k ≡ some l → k ≡ l
some-same k l h = cc

-- Two kinds with one value are one kind.
pub same_statement-injective : (k l : StatementKind) → same_statement k l ≡ true → k ≡ l
same_statement-injective k l h = some-same k l (
    sym (statement_kind_of-statement_kind_value k)
    ∙ ap statement_kind_of ((list_eq.same_iff _ _).0 h)
    ∙ statement_kind_of-statement_kind_value l)

pub same_action-injective : (k l : AlterTableActionKind) → same_action k l ≡ true → k ≡ l
same_action-injective k l h = some-same k l (
    sym (action_kind_of-action_kind_value k)
    ∙ ap action_kind_of ((list_eq.same_iff _ _).0 h)
    ∙ action_kind_of-action_kind_value l)

-- What is found in a dictionary has what all its entries have.
pub find_kind-All :
    {K A : Type 0} (same : K → K → Bool)
    → ((k l : K) → same k l ≡ true → k ≡ l)
    → (P : K × A → Type 0) (k : K) (a : A) (table : List (K × A)) → find_kind same k table ≡ some a
    → All P table
    → P (k, a)
unfolding find_kind
find_kind-All same exact P k a [] h ps = absurd (ground arith)
find_kind-All same exact P k a ((l, b) ∷ rest) h ps = elim (Bool-cases (same l k)) [
  | inl t ↦
      subst (λ x. P (x, a)) (exact l k t) (subst (λ y. P (l, y)) (some-same b a (rw t at h)) ps.0)
  | inr f ↦ find_kind-All same exact P k a rest (rw f at h) ps.1
]
