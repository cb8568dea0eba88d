-- ===== src/Base/Options.antt =====
-- That an optional result is there, and lengths of parts of a text.
use Prim.Native.Nat.{ℕ, ◌+◌, ◌≤◌}
use mathlib.Core.Path.{◌≡◌, refl, ap, ◌∙◌}
use mathlib.Core.Bool.{Bool}
use mathlib.Core.Option.{Option, none, some}
use mathlib.Core.List.{List, [], ◌∷◌, ◌++◌, reverse, reverse-append}
use native.Mathlib.Omega.{arith}
use blastoise.Base.Lists.{length}
use blastoise.Base.Texts.{Text}
use blastoise.Base.Strings.{lstrip, strip}

abbrev pub Defined {ℓ} : {A : Type ℓ} → Option A → Type 0
Defined none = ⊥
Defined (some a) = Unit

module _ {ℓ κ} {A : Type ℓ} {B : Type κ} where
  pub Defined-bind :
      (o : Option A) (k : A → Option B)
      → Defined o
      → ((a : A) → Defined (k a))
      → Defined {A = B} (elim o [ none ↦ none | some a ↦ k a ])
  Defined-bind none k h f = absurd h
  Defined-bind (some a) k h f = f a

  pub Defined-either :
      (o : Option A) (x : Option B) (k : A → Option B)
      → Defined x
      → ((a : A) → o ≡ some a → Defined (k a))
      → Defined {A = B} (elim o [ none ↦ x | some a ↦ k a ])
  Defined-either none x k h f = h
  Defined-either (some a) x k h f = f a refl

  -- A property of every branch on an option.
  pub either_case :
      (P : B → Type 0) (o : Option A) (x : B) (k : A → B)
      → P x
      → ((a : A) → P (k a))
      → P (elim o [ none ↦ x | some a ↦ k a ])
  either_case P none x k h f = h
  either_case P (some a) x k h f = f a

module _ {ℓ} {A : Type ℓ} where
  pub length-append : (xs ys : List A) → length (xs ++ ys) ≡ length xs + length ys
  length-append [] ys = omega arith
  length-append (x ∷ xs) ys = omega (arith, length-append xs ys)

  pub length-reverse : (xs : List A) → length (reverse xs) ≡ length xs
  length-reverse [] = refl
  length-reverse (x ∷ xs) =
      ap length (reverse-append (x ∷ []) xs)
      ∙ length-append (reverse xs) (x ∷ [])
      ∙ omega (arith, length-reverse xs)

length-lstrip : (p : ℕ → Bool) (t : Text) → length (lstrip p t) ≤ length t
unfolding lstrip
length-lstrip p [] = omega arith
length-lstrip p (c ∷ cs) = ground (arith, length-lstrip p cs)

pub length-strip : (p : ℕ → Bool) (t : Text) → length (strip p t) ≤ length t
unfolding strip
length-strip p t = omega (
  arith,
  length-reverse (lstrip p (reverse (lstrip p t))),
  length-lstrip p (reverse (lstrip p t)),
  length-reverse (lstrip p t),
  length-lstrip p t,
)

-- There is a value, and it has the property.
abbrev pub OptionHas {ℓ} : {A : Type ℓ} → (A → Type 0) → Option A → Type 0
OptionHas P none = ⊥
OptionHas P (some x) = P x
