-- ===== src/Verdict/Safety/Members.antt =====
-- What stays among the texts when the probes of verdict/probes.py are joined and sorted.
use blastoise.Base.{
  ◌≡◌, refl, subst, List, [], ◌∷◌, ◌++◌, Any, inl, inr, Text, sorted_set, place, text_lt,
  Bool-cases, text_lt-total,
}

abbrev pub Among : Text → List Text → Type 0
Among t ts = Any (λ s. t ≡ s) ts

-- Sorting keeps every text.
place-here : (t : Text) (ts : List Text) → Among t (place text_lt t ts)
unfolding place
place-here t [] = inl refl
place-here t (u ∷ us) = elim (Bool-cases (text_lt t u)) [
  | inl e ↦ rw e (inl refl)
  | inr n ↦ elim (Bool-cases (text_lt u t)) [
    | inl e ↦ rw (n, e) (inr (place-here t us))
    | inr m ↦ rw (n, m) (inl (text_lt-total t u n m))
  ]
]

place-there : (t v : Text) (ts : List Text) → Among t ts → Among t (place text_lt v ts)
unfolding place
place-there t v [] h = absurd h
place-there t v (u ∷ us) h = elim (Bool-cases (text_lt v u)) [
  | inl e ↦ rw e (inr h)
  | inr n ↦ elim (Bool-cases (text_lt u v)) [
    | inl e ↦ rw (n, e) (elim h [ inl k ↦ inl k | inr k ↦ inr (place-there t v us k) ])
    | inr m ↦ rw (n, m) h
  ]
]

pub sorted_set-member : (t : Text) (ts : List Text) → Among t ts → Among t (sorted_set text_lt ts)
unfolding sorted_set
sorted_set-member t [] h = h
sorted_set-member t (u ∷ us) (inl e) =
    subst (λ v. Among t (place text_lt v (sorted_set text_lt us))) e
      (place-here t (sorted_set text_lt us))
sorted_set-member t (u ∷ us) (inr h) =
    place-there t u (sorted_set text_lt us) (sorted_set-member t us h)

pub append-left : (t : Text) (ts us : List Text) → Among t ts → Among t (ts ++ us)
append-left t [] us h = absurd h
append-left t (v ∷ ts) us (inl e) = inl e
append-left t (v ∷ ts) us (inr h) = inr (append-left t ts us h)

pub append-right : (t : Text) (ts us : List Text) → Among t us → Among t (ts ++ us)
append-right t [] us h = h
append-right t (v ∷ ts) us h = inr (append-right t ts us h)
