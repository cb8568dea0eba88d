-- ===== src/Live/Canonical/Pieces.antt =====
-- The texts and the numbers that `json.dumps` writes: what stands in front of a rest is known from the
-- whole.
use blastoise.Base.{
  ℕ, zero, suc, ◌+◌, ◌-◌, ◌*◌, ◌/◌, ◌%◌, ◌≡◌, ◌≢◌, refl, sym, ap, ◌∙◌, ◌<◌, true, false, Option,
  none, some, [], ◌∷◌, ltb, Text, if◌then◌else◌, arith, all, is_digit, if_cases,
}
use blastoise.Live.Canonical.Escape.{escape, print_chars, print_text}
use blastoise.Live.Canonical.Numbers.{digits, print_natural}
use blastoise.Live.Canonical.Reading.{read_char, is_scalar, read_char-escape}

-- Two parts and what follows them agree.
abbrev pub Agree {ℓ} : {A : Type ℓ} → A → A → Text → Text → Type ℓ
Agree a b r s = (a ≡ b) × (r ≡ s)

module _ {A : Type 0} where
  pairs-Agree :
      (a b : A) (r s : Text)
      → ◌≡◌ {A = Option (A × Text)} (some (a, r)) (some (b, s))
      → Agree a b r s
  pairs-Agree a b r s e = (cc, cc)

none-some : {A : Type 0} (a : A) → none ≢ some a
none-some a e = cc

-- No escape is the closing quote.
not_closed : (c : ℕ) (t r : Text) → is_scalar c ≡ true → escape c t ≢ b'"' ∷ r
unfolding read_char
not_closed c t r h e = none-some (c, t) (sym (ap read_char e) ∙ read_char-escape c t h)

print_chars-injective :
    (t u r s : Text)
    → all is_scalar t ≡ true
    → all is_scalar u ≡ true
    → print_chars t r ≡ print_chars u s
    → Agree t u r s
unfolding print_chars read_char
print_chars-injective [] [] r s h k e = (refl, cc)
print_chars-injective [] (d ∷ ds) r s h k e =
    absurd (not_closed d (print_chars ds s) r (ground arith) (sym e))
print_chars-injective (c ∷ cs) [] r s h k e =
    absurd (not_closed c (print_chars cs r) s (ground arith) e)
print_chars-injective (c ∷ cs) (d ∷ ds) r s h k e =
    let first = pairs-Agree c d (print_chars cs r) (print_chars ds s) (
      sym (read_char-escape c (print_chars cs r) (ground arith))
      ∙ ap read_char e
      ∙ read_char-escape d (print_chars ds s) (ground arith)) in
    let rest = print_chars-injective cs ds r s (ground arith) (ground arith) first.1 in
    (cc (first.0, rest.0), rest.1)

pub print_text-injective :
    (t u r s : Text)
    → all is_scalar t ≡ true
    → all is_scalar u ≡ true
    → print_text t r ≡ print_text u s
    → Agree t u r s
unfolding print_text
print_text-injective t u r s h k e = print_chars-injective t u r s h k (cc)

-- The number that digits spell behind `n`, and what follows them.
unfoldable read_digits : ℕ → Text → ℕ × Text
unfolding is_digit
read_digits n [] = (n, [])
read_digits n (c ∷ cs) =
    let more = read_digits (10 * n + (c - b'0')) cs in if is_digit c then more else (n, c ∷ cs)

digit-true : (d : ℕ) → d < 10 → is_digit (b'0' + d) ≡ true
unfolding is_digit
digit-true d h = ground arith

read_digits-step :
    (n d : ℕ) (rest : Text)
    → d < 10
    → read_digits n ((b'0' + d) ∷ rest) ≡ read_digits (10 * n + d) rest
unfolding read_digits
read_digits-step n d rest h = rw (digit-true d h) (ap (λ (m : ℕ). read_digits m rest) (omega arith))

read_digits-digits :
    (fuel n : ℕ) (rest : Text) → n < fuel → read_digits 0 (digits fuel n rest) ≡ read_digits n rest
unfolding digits
read_digits-digits zero n rest h = absurd (omega arith)
read_digits-digits (suc f) n rest h =
    if_cases (λ t. read_digits 0 t ≡ read_digits n rest) (ltb n 10)
      (λ e.
        read_digits-step 0 n rest (ground arith) ∙ ap (λ (m : ℕ). read_digits m rest) (omega arith))
      λ e.
        read_digits-digits f (n / 10) ((b'0' + n % 10) ∷ rest) (ground arith)
        ∙ read_digits-step (n / 10) (n % 10) rest (omega arith)
        ∙ ap (λ (m : ℕ). read_digits m rest) (omega arith)

-- What may follow a number: nothing, or a character that is no digit.
abbrev pub Ends : Text → Type 0
Ends [] = Unit
Ends (c ∷ cs) = is_digit c ≡ false

read_digits-end : (n : ℕ) (rest : Text) → Ends rest → read_digits n rest ≡ (n, rest)
unfolding read_digits
read_digits-end n [] h = refl
read_digits-end n (c ∷ cs) h = rw h refl

pub print_natural-injective :
    (n m : ℕ) (r s : Text) → Ends r → Ends s → print_natural n r ≡ print_natural m s → Agree n m r s
unfolding print_natural
print_natural-injective n m r s h k e =
    let read : ◌≡◌ {A = ℕ × Text} (n, r) (m, s) =
      sym (read_digits-digits (suc n) n r (omega arith) ∙ read_digits-end n r h)
      ∙ ap (read_digits 0) e
      ∙ read_digits-digits (suc m) m s (omega arith)
      ∙ read_digits-end m s k in
    (ap (λ (p : ℕ × Text). p.0) read, ap (λ (p : ℕ × Text). p.1) read)

-- The first character of a number.
pub first_digit :
    (fuel n : ℕ) (rest : Text)
    → n < fuel
    → (c : ℕ) × (t : Text) × (digits fuel n rest ≡ c ∷ t) × (is_digit c ≡ true)
unfolding digits
first_digit zero n rest h = absurd (omega arith)
first_digit (suc f) n rest h =
    if_cases (λ x. (c : ℕ) × (t : Text) × (x ≡ c ∷ t) × (is_digit c ≡ true)) (ltb n 10)
      (λ e. (b'0' + n, rest, refl, digit-true n (ground arith)))
      λ e. first_digit f (n / 10) ((b'0' + n % 10) ∷ rest) (ground arith)
