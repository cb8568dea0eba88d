-- ===== src/Base/Results.antt =====
-- Code that may raise: the exceptions that the modelled code raises, and the chain of such steps.
use mathlib.Core.Path.{◌≡◌, refl, subst}
use mathlib.Core.List.{List, [], ◌∷◌}
use blastoise.Base.Lists.{All}

pub data Error : Type 0 where
  lookup_error key_error value_error index_error assertion_error parse_error type_error : Error

pub data Result {ℓ} (A : Type ℓ) : Type ℓ where
  ok : A → Result A
  raise : Error → Result A

infixl 5 ◌>>=◌
abbrev pub ◌>>=◌ {ℓ κ} : {A : Type ℓ} {B : Type κ} → Result A → (A → Result B) → Result B
ok a >>= f = f a
raise e >>= f = raise e

-- A loop that appends `f x` for every `x`, and stops at the first exception.
abbrev pub traverse {ℓ κ} : {A : Type ℓ} {B : Type κ} → (A → Result B) → List A → Result (List B)
traverse f [] = ok []
traverse f (x ∷ xs) = f x >>= λ y. traverse f xs >>= λ ys. ok (y ∷ ys)

module _ {ℓ} {A : Type ℓ} where
  -- A property of the result, where there is one.
  abbrev pub OkHas : (A → Type 0) → Result A → Type 0
  OkHas P (ok x) = P x
  OkHas P (raise e) = Unit

  -- There is a result, and it has the property.
  abbrev pub Succeeds : (A → Type 0) → Result A → Type 0
  Succeeds P (ok x) = P x
  Succeeds P (raise e) = ⊥

module _ {ℓ κ} {A : Type ℓ} {B : Type κ} where
  pub OkHas-bind :
      (R : A → Type 0) (P : B → Type 0) (m : Result A) (f : A → Result B)
      → OkHas R m
      → ((x : A) → R x → OkHas P (f x))
      → OkHas P (m >>= f)
  OkHas-bind R P (ok x) f h k = k x h
  OkHas-bind R P (raise e) f h k = tt

  -- The rest of a computation after one step, of which nothing is known.
  pub OkHas-after :
      (P : B → Type 0) (m : Result A) (f : A → Result B)
      → ((x : A) → m ≡ ok x → OkHas P (f x))
      → OkHas P (m >>= f)
  OkHas-after P (ok x) f k = k x refl
  OkHas-after P (raise e) f k = tt

  pub Succeeds-bind :
      (R : A → Type 0) (P : B → Type 0) (m : Result A) (f : A → Result B)
      → Succeeds R m
      → ((x : A) → R x → Succeeds P (f x))
      → Succeeds P (m >>= f)
  Succeeds-bind R P (ok x) f h k = k x h
  Succeeds-bind R P (raise e) f h k = absurd h

module _ {ℓ} {A : Type ℓ} where
  pub OkHas-map :
      (P Q : A → Type 0) → ((x : A) → P x → Q x) → (m : Result A) → OkHas P m → OkHas Q m
  OkHas-map P Q f (ok x) h = f x h
  OkHas-map P Q f (raise e) h = tt

  pub ok-has : (P : A → Type 0) (m : Result A) (x : A) → m ≡ ok x → OkHas P m → P x
  ok-has P m x e h = subst (OkHas P) e h

  pub OkHas-any : (m : Result A) → OkHas (λ x. Unit) m
  OkHas-any (ok x) = tt
  OkHas-any (raise e) = tt

module _ {ℓ κ} {A : Type ℓ} {B : Type κ} where
  pub traverse-All :
      (P : B → Type 0) (f : A → Result B) (xs : List A)
      → ((x : A) → OkHas P (f x))
      → OkHas (All P) (traverse f xs)
  traverse-All P f [] h = tt
  traverse-All P f (x ∷ xs) h =
      OkHas-bind P (All P) (f x) _ (h x)
        λ y p. OkHas-bind (All P) (All P) (traverse f xs) _ (traverse-All P f xs h) λ ys ps. (p, ps)
