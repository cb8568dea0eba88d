-- ===== src/Live/Canonical/Reading.antt =====
-- A reader of the texts that `json.dumps` writes: what each piece gives back.
use blastoise.Base.{
  ℕ, ◌+◌, ◌-◌, ◌*◌, ◌/◌, ◌%◌, ◌≡◌, refl, ◌<◌, ◌≤◌, Bool, true, false, ◌&&◌, ◌||◌, Option, none,
  some, [], ◌∷◌, leb, ltb, nat_beq, Text, if◌then◌else◌, arith, if_cases, nat_beq_iff, ap, sym,
}
use blastoise.Live.Canonical.Escape.{hex_digit, unicode, escape}

abbrev hex_value : ℕ → ℕ
hex_value d = if ltb d b'a' then d - b'0' else d - b'a' + 10

hex_value-hex_digit : (d : ℕ) → d < 16 → hex_value (hex_digit d) ≡ d
hex_value-hex_digit d h = ground arith

-- Four digits as a number.
abbrev four : ℕ → ℕ → ℕ → ℕ → ℕ
four a b c d = 4096 * hex_value a + 256 * hex_value b + 16 * hex_value c + hex_value d

four-digits :
    (c : ℕ)
    → c < 65536
    → four
        (hex_digit (c / 4096))
        (hex_digit (c / 256 % 16))
        (hex_digit (c / 16 % 16))
        (hex_digit (c % 16))
      ≡ c
four-digits c h = omega (
  arith,
  hex_value-hex_digit (c / 4096) (omega arith),
  hex_value-hex_digit (c / 256 % 16) (omega arith),
  hex_value-hex_digit (c / 16 % 16) (omega arith),
  hex_value-hex_digit (c % 16) (omega arith),
)

-- A first half takes the second half that follows.
unfoldable second_half : ℕ → Text → Option (ℕ × Text)
second_half high (_ ∷ _ ∷ a ∷ b ∷ c ∷ d ∷ rest) =
    some (65536 + (high - 55296) * 1024 + (four a b c d - 56320), rest)
second_half high _ = none

abbrev is_high : ℕ → Bool
is_high n = leb 55296 n && ltb n 56320

unfoldable read_unicode : Text → Option (ℕ × Text)
unfolding second_half
read_unicode (a ∷ b ∷ c ∷ d ∷ rest) =
    if is_high (four a b c d) then second_half (four a b c d) rest else some (four a b c d, rest)
read_unicode _ = none

unfoldable read_escape : Text → Option (ℕ × Text)
unfolding read_unicode
read_escape [] = none
read_escape (e ∷ rest) =
    if nat_beq e b'u'
    then read_unicode rest
    else if nat_beq e b'n'
    then some (10, rest)
    else if nat_beq e b'r'
    then some (13, rest)
    else if nat_beq e b't'
    then some (9, rest)
    else if nat_beq e b'f'
    then some (12, rest)
    else if nat_beq e b'b'
    then some (8, rest)
    else some (e, rest)

-- One code point of a text in quotes, or none at the closing quote.
unfoldable pub read_char : Text → Option (ℕ × Text)
unfolding read_escape
read_char [] = none
read_char (c ∷ rest) =
    if nat_beq c b'"' then none else if nat_beq c b'\\' then read_escape rest else some (c, rest)

-- A code point that is no half of another.
abbrev pub is_scalar : ℕ → Bool
is_scalar c = ltb c 1114112 && (ltb c 55296 || ltb 57343 c)

read_unicode-unicode :
    (c : ℕ) (rest : Text)
    → c < 65536
    → is_high c ≡ false
    → read_escape (
        b'u'
        ∷ hex_digit (c / 4096)
        ∷ hex_digit (c / 256 % 16)
        ∷ hex_digit (c / 16 % 16)
        ∷ hex_digit (c % 16)
        ∷ rest)
      ≡ some (c, rest)
unfolding read_escape read_unicode
read_unicode-unicode c rest h k = rw (four-digits c h, k) refl

high_half : ℕ → ℕ
high_half c = 55296 + (c - 65536) / 1024 % 1024

low_half : ℕ → ℕ
low_half c = 56320 + (c - 65536) % 1024

halves-sum :
    (c : ℕ)
    → 65536 ≤ c
    → c < 1114112
    → 65536 + (high_half c - 55296) * 1024 + (low_half c - 56320) ≡ c
unfolding high_half low_half
halves-sum c h k = omega arith

high_half-high : (c : ℕ) → is_high (high_half c) ≡ true
unfolding high_half
high_half-high c = ground arith

read_halves :
    (c h l : ℕ) (rest : Text)
    → h < 65536
    → l < 65536
    → is_high h ≡ true
    → 65536 + (h - 55296) * 1024 + (l - 56320) ≡ c
    → read_char (unicode h (unicode l rest)) ≡ some (c, rest)
unfolding read_char read_escape read_unicode second_half unicode
read_halves c h l rest hb lb high sum = rw (four-digits h hb, high, four-digits l lb, sum) refl

read_one :
    (c : ℕ) (rest : Text)
    → c < 65536
    → is_high c ≡ false
    → read_char (unicode c rest) ≡ some (c, rest)
unfolding read_char unicode
read_one c rest h k = read_unicode-unicode c rest h k

abbrev was_read : ℕ → Text → Option (ℕ × Text)
was_read c rest = some (c, rest)

same_char : (c d : ℕ) (rest : Text) → nat_beq c d ≡ true → was_read d rest ≡ was_read c rest
same_char c d rest e = ap (λ (n : ℕ). was_read n rest) (sym ((nat_beq_iff c d).0 e))

read_plain :
    (c : ℕ) (rest : Text)
    → nat_beq c b'"' ≡ false
    → nat_beq c b'\\' ≡ false
    → read_char (c ∷ rest) ≡ some (c, rest)
unfolding read_char
read_plain c rest q b = rw (q, b) refl

read_wide :
    (c : ℕ) (rest : Text)
    → is_scalar c ≡ true
    → read_char
        (if ltb c 65536 then unicode c rest else unicode (high_half c) (unicode (low_half c) rest))
      ≡ some (c, rest)
read_wide c rest h =
    if_cases (λ t. read_char t ≡ some (c, rest)) (ltb c 65536)
      (λ e. read_one c rest (ground arith) (ground arith))
      λ e.
        read_halves c (high_half c) (low_half c) rest (unfold high_half in omega arith)
          (unfold low_half in omega arith) (high_half-high c)
          (halves-sum c (ground arith) (ground arith))

-- Every escape is read back, whatever follows.
pub read_char-escape :
    (c : ℕ) (rest : Text) → is_scalar c ≡ true → read_char (escape c rest) ≡ some (c, rest)
unfolding read_char read_escape escape high_half low_half
read_char-escape c rest h =
    let Q : Text → Type 0 = λ t. read_char t ≡ some (c, rest) in
    if_cases Q (nat_beq c b'"') (same_char c b'"' rest) λ q.
      if_cases Q (nat_beq c b'\\') (same_char c b'\\' rest) λ b.
        if_cases Q (nat_beq c 10) (same_char c 10 rest) λ _.
          if_cases Q (nat_beq c 13) (same_char c 13 rest) λ _.
            if_cases Q (nat_beq c 9) (same_char c 9 rest) λ _.
              if_cases Q (nat_beq c 12) (same_char c 12 rest) λ _.
                if_cases Q (nat_beq c 8) (same_char c 8 rest) λ _.
                  if_cases Q (leb 32 c && leb c 126) (λ _. read_plain c rest q b)
                    λ _. read_wide c rest h
