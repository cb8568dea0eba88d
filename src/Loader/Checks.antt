-- ===== src/Loader/Checks.antt =====
-- What a check of the loader leaves behind it: lemmas on results.
use blastoise.Base.{
  Bool, true, false, ◌≡◌, refl, Option, some, none, List, [], ◌∷◌, all, All, Any, inl, inr, arith,
  Result, ◌>>=◌, OkHas, subst,
}
use blastoise.Loader.Documents.{require}

pub require-true : (b : Bool) → OkHas (λ _. b ≡ true) (require b)
require-true true = refl
require-true false = tt

module _ {ℓ} {A : Type ℓ} where
  -- A check before the rest of a computation.
  pub require-then :
      (b : Bool) (P : A → Type 0) (m : Result A)
      → (b ≡ true → OkHas P m)
      → OkHas P (require b >>= λ _. m)
  require-then true P m h = h refl
  require-then false P m h = tt

module _ {A : Type 0} where
  pub all-Any :
      (p : A → Bool) (x : A) (xs : List A) → all p xs ≡ true → Any (λ y. y ≡ x) xs → p x ≡ true
  all-Any p x [] h i = absurd i
  all-Any p x (y ∷ ys) h (inl e) = subst (λ z. p z ≡ true) e (ground arith)
  all-Any p x (y ∷ ys) h (inr i) = all-Any p x ys (ground arith) i

  pub all-All : (p : A → Bool) (xs : List A) → all p xs ≡ true → All (λ x. p x ≡ true) xs
  all-All p [] h = tt
  all-All p (x ∷ xs) h = (ground arith, all-All p xs (ground arith))

module _ {ℓ κ} {A : Type ℓ} {B : Type κ} where
  -- Both branches on an option, with the outcome.
  pub option_case :
      (P : B → Type 0) (o : Option A) (x : B) (k : A → B)
      → (o ≡ none → P x)
      → ((a : A) → o ≡ some a → P (k a))
      → P (elim o [ none ↦ x | some a ↦ k a ])
  option_case P none x k h f = h refl
  option_case P (some a) x k h f = f a refl
