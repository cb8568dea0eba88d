-- ===== src/Base/Lists.antt =====
-- Lists measured by native numbers, Boolean quantifiers and searches, and a predicate on lists.
use Prim.Native.Nat.{ℕ, suc}
use mathlib.Core.Path.{◌≡◌}
use mathlib.Core.Logic.{◌⊎◌, ◌↔◌, inl, inr}
use mathlib.Core.Bool.{Bool, true, false, ◌&&◌, ◌||◌}
use mathlib.Core.Option.{Option, none, some}
use mathlib.Core.List.{List, [], ◌∷◌, ◌++◌}
use native.Mathlib.Omega.{arith}
use blastoise.Base.Tests.{Comparable, ◌==◌, if◌then◌else◌, Bool-cases}

module _ {ℓ} {A : Type ℓ} where
  abbrev pub length : List A → ℕ
  length [] = 0
  length (x ∷ xs) = suc (length xs)

  -- Python's `any(p(x) for x in xs)`.
  abbrev pub any : (A → Bool) → List A → Bool
  any p [] = false
  any p (x ∷ xs) = p x || any p xs

  -- Python's `all(p(x) for x in xs)`.
  abbrev pub all : (A → Bool) → List A → Bool
  all p [] = true
  all p (x ∷ xs) = p x && all p xs

  -- Python's `[x for x in xs if p(x)]`.
  abbrev pub keep : (A → Bool) → List A → List A
  keep p [] = []
  keep p (x ∷ xs) = let rest = keep p xs in if p x then x ∷ rest else rest

  -- Python's `next((x for x in xs if p(x)), None)`.
  abbrev pub first : (A → Bool) → List A → Option A
  first p [] = none
  first p (x ∷ xs) = if p x then some x else first p xs

  abbrev pub All {κ} : (A → Type κ) → List A → Type κ
  All P [] = Unit
  All P (x ∷ xs) = P x × All P xs

  -- Some element has the property, with its place.
  abbrev pub Any : (A → Type 0) → List A → Type 0
  Any P [] = ⊥
  Any P (x ∷ xs) = P x ⊎ Any P xs

module _ {ℓ} {A : Type ℓ} where
  pub All-append : (P : A → Type 0) (xs ys : List A) → All P xs → All P ys → All P (xs ++ ys)
  All-append P [] ys h k = k
  All-append P (x ∷ xs) ys h k = (h.0, All-append P xs ys h.1 k)

  pub All-map : (P Q : A → Type 0) → ((x : A) → P x → Q x) → (xs : List A) → All P xs → All Q xs
  All-map P Q f [] h = tt
  All-map P Q f (x ∷ xs) h = (f x h.0, All-map P Q f xs h.1)

  pub first_sound : (p : A → Bool) (xs : List A) {a : A} → first p xs ≡ some a → p a ≡ true
  first_sound p [] h = cc
  first_sound p (x ∷ xs) {a} h = ground (arith, first_sound p xs {a = a})

  -- `any` fails exactly where every element fails the test.
  pub any-false : (p : A → Bool) (xs : List A) → any p xs ≡ false → All (λ x. p x ≡ false) xs
  any-false p [] h = tt
  any-false p (x ∷ xs) h = (ground arith, any-false p xs (ground arith))

  pub any-true : (p : A → Bool) (xs : List A) → any p xs ≡ true → Any (λ x. p x ≡ true) xs
  any-true p [] h = cc
  any-true p (x ∷ xs) h = elim (Bool-cases (p x)) [
    | inl t ↦ inl t
    | inr f ↦ inr (any-true p xs (rw f at h))
  ]

module _ {κ} {T : Type κ} ⦃c : Comparable T⦄ where
  -- Python's `t in ts`.
  abbrev pub contains : T → List T → Bool
  contains t ts = any (λ s. t == s) ts

  abbrev pub list_beq : List T → List T → Bool
  list_beq [] ts = elim ts [ [] ↦ true | _ ∷ _ ↦ false ]
  list_beq (s ∷ ss) [] = false
  list_beq (s ∷ ss) (t ∷ ts) = s == t && list_beq ss ts

  pub list_beq_iff : (ss ts : List T) → (list_beq ss ts ≡ true) ↔ (ss ≡ ts)
  list_beq_iff [] [] = ground arith
  list_beq_iff [] (t ∷ ts) = ground arith
  list_beq_iff (s ∷ ss) [] = ground arith
  list_beq_iff (s ∷ ss) (t ∷ ts) = ground (arith, c.same_iff s t, list_beq_iff ss ts)

instance abbrev pub list_eq {κ} : {T : Type κ} ⦃c : Comparable T⦄ → Comparable (List T)
list_eq = record { same = list_beq; same_iff = list_beq_iff }
