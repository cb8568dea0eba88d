-- ===== src/Regex/Ends.antt =====
-- How the places where a match of `Regex` can end are put together.
use blastoise.Base.{
  ℕ, zero, suc, ◌≤◌, ◌≡◌, ◌↔◌, ◌⊎◌, sym, ◌∙◌, inl, inr, Bool, true, false, not, List, [], ◌∷◌, ◌++◌,
  length, Any, Text, arith, Bool-cases,
}
use blastoise.Regex.{
  CharClass, in_class, Regex, nothing, start, stop, one, both, many, Place, is_empty, at_stop,
  from_all, rounds, ends, is_match,
}

Any-append :
    {A : Type 0} (P : A → Type 0) (xs ys : List A) → Any P (xs ++ ys) ↔ (Any P xs ⊎ Any P ys)
Any-append P [] ys = ground arith
Any-append P (x ∷ xs) ys = ground (arith, Any-append P xs ys)

Any-from_all :
    (P : Place → Type 0) (f : Place → List Place) (ps : List Place)
    → Any P (from_all f ps) ↔ Any (λ p. Any P (f p)) ps
unfolding from_all
Any-from_all P f [] = ground arith
Any-from_all P f (p ∷ ps) = ground (arith, Any-append P (f p) (from_all f ps), Any-from_all P f ps)

pub Any-iff :
    {A : Type 0} (P Q : A → Type 0) (xs : List A) → ((x : A) → P x ↔ Q x) → Any P xs ↔ Any Q xs
Any-iff P Q [] f = ground arith
Any-iff P Q (x ∷ xs) f = let one = f x in ground (arith, Any-iff P Q xs f)

-- Some match that begins at the place ends where the rest has a property.
abbrev pub Leads : Regex → (Text → Type 0) → Place → Type 0
Leads r K p = Any (λ q. K q.1) (ends r p)

-- The next character has a property, and what follows it another; and characters of the property
-- come, as many as one likes.
abbrev pub OneThen : (ℕ → Type 0) → (Text → Type 0) → Text → Type 0
OneThen C K [] = ⊥
OneThen C K (c ∷ cs) = C c × K cs

abbrev pub ManyThen : (ℕ → Type 0) → (Text → Type 0) → Text → Type 0
ManyThen C K [] = K []
ManyThen C K (c ∷ cs) = K (c ∷ cs) ⊎ (C c × ManyThen C K cs)

-- What a pattern asks of the text at a place, given what is asked of the rest.
pub record Means (r : Regex) (T : (Text → Type 0) → Text → Type 0) : Type 1 where
  pub leads : (K : Text → Type 0) (p : Place) → Leads r K p ↔ T K p.1

-- At most so many rounds.
abbrev pub RoundsThen : ((Text → Type 0) → Text → Type 0) → ℕ → (Text → Type 0) → Text → Type 0
RoundsThen T zero K t = K t
RoundsThen T (suc n) K t = K t ⊎ T (RoundsThen T n K) t

pub both-Leads :
    (r s : Regex) (K L : Text → Type 0)
    → ((q : Place) → Leads s K q ↔ L q.1)
    → (p : Place) → Leads (both r s) K p ↔ Leads r L p
unfolding ends
both-Leads r s K L later p =
    let split = Any-from_all (λ q. K q.1) (ends s) (ends r p) in
    let after = Any-iff (λ q. Leads s K q) (λ q. L q.1) (ends r p) later in
    (λ h. after.0 (split.0 h), λ h. split.1 (after.1 h))

module _ {r : Regex} {T : (Text → Type 0) → Text → Type 0} (means : Means r T) where
  pub both-Means :
      {s : Regex} {U : (Text → Type 0) → Text → Type 0}
      → Means s U
      → Means (both r s) (λ K t. T (U K) t)
  both-Means {s} {U} later = record {
    leads = λ K p.
        let split = both-Leads r s K (U K) (later.leads K) p in
        let first = means.leads (U K) p in (λ h. first.0 (split.0 h), λ h. split.1 (first.1 h));
  }

  pub rounds-Means :
      (K : Text → Type 0) (n : ℕ) (p : Place)
      → Any (λ q. K q.1) (rounds (ends r) n p) ↔ RoundsThen T n K p.1
  unfolding rounds
  rounds-Means K zero p = ground arith
  rounds-Means K (suc n) p =
      let split = Any-from_all (λ q. K q.1) (rounds (ends r) n) (ends r p) in
      let after =
        Any-iff (λ q. Any (λ q. K q.1) (rounds (ends r) n q)) (λ q. RoundsThen T n K q.1) (ends r p)
          (rounds-Means K n) in
      let first = means.leads (RoundsThen T n K) p in
      (
        λ h. elim h [ inl k ↦ inl k | inr k ↦ inr (first.0 (after.0 (split.0 k))) ],
        λ h. elim h [ inl k ↦ inl k | inr k ↦ inr (split.1 (after.1 (first.1 k))) ],
      )

module _ (k : CharClass) (C : ℕ → Type 0) (is : (c : ℕ) → (in_class k c ≡ true) ↔ C c) where
  none_of : (c : ℕ) → in_class k c ≡ false → ¬ (C c)
  none_of c n = λ h. let e : false ≡ true = sym n ∙ (is c).1 h in cc

  one-OneThen : (K : Text → Type 0) (p : Place) → Leads (one k) K p ↔ OneThen C K p.1
  unfolding ends
  one-OneThen K (b, []) = ground arith
  one-OneThen K (b, c ∷ cs) = elim (Bool-cases (in_class k c)) [
    | inl e ↦ let h = (is c).0 e in rw e ground arith
    | inr n ↦ let no = none_of c n in rw n (λ h. absurd h, λ h. absurd (no h.0))
  ]

  rounds-ManyThen :
      (K : Text → Type 0) (n : ℕ) (b : Bool) (t : Text)
      → length t ≤ n
      → Any (λ q. K q.1) (rounds (ends (one k)) n (b, t)) ↔ ManyThen C K t
  unfolding rounds ends from_all
  rounds-ManyThen K zero b [] h = ground arith
  rounds-ManyThen K (suc n) b [] h = ground arith
  rounds-ManyThen K zero b (c ∷ cs) h = absurd (omega arith)
  rounds-ManyThen K (suc n) b (c ∷ cs) h = elim (Bool-cases (in_class k c)) [
    | inl e ↦
        let yes = (is c).0 e in
        let later = rounds-ManyThen K n false cs (omega arith) in
        rw e ground
          (arith, later, Any-append (λ (q : Place). K q.1) (rounds (ends (one k)) n (false, cs)) [])
    | inr m ↦
        let no = none_of c m in
        rw m (
          λ x. elim x [ inl y ↦ inl y | inr y ↦ absurd y ],
          λ x. elim x [ inl y ↦ inl y | inr y ↦ absurd (no y.0) ],
        )
  ]

  pub one-Means : Means (one k) (OneThen C)
  one-Means = record { leads = one-OneThen }

  pub many-Means : Means (many (one k)) (ManyThen C)
  unfolding ends
  many-Means = record { leads = λ K (b, t). rounds-ManyThen K (length t) b t (omega arith) }

pub start-Means :
    (r : Regex) (K : Text → Type 0) (t : Text)
    → Leads (both start r) K (true, t) ↔ Leads r K (true, t)
unfolding ends from_all
start-Means r K t = ground (arith, Any-append (λ q. K q.1) (ends r (true, t)) [])

-- There is a match where the rest of a match need not have any property.
pub is_match-Leads : (r : Regex) (t : Text) → (is_match r t ≡ true) ↔ Leads r (λ u. Unit) (true, t)
unfolding is_match
is_match-Leads r t =
    elim (ends r (true, t)) as (λ ps. (not (is_empty ps) ≡ true) ↔ Any (λ q. Unit) ps) [
      | [] ↦ ground arith
      | p ∷ ps ↦ ground arith
    ]

pub stop-Leads : (q : Place) → Leads stop (λ u. Unit) q ↔ (at_stop q.1 ≡ true)
unfolding ends
stop-Leads q = ground arith

pub nothing-Means : Means nothing (λ K t. K t)
unfolding ends
nothing-Means = record { leads = λ K p. ground arith }
