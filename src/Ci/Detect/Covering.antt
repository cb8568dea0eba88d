-- ===== src/Ci/Detect/Covering.antt =====
-- What a glob of ci/detect.py covers, without patterns.
use blastoise.Base.{
  ℕ, zero, suc, ◌≤◌, ◌<◌, ◌≡◌, ◌≢◌, inl, inr, true, [], ◌∷◌, length, Text, arith, nat_beq,
  if◌then◌else◌,
}
use blastoise.Regex.{at_stop}
use blastoise.Regex.Ends.{OneThen, ManyThen, RoundsThen}
use blastoise.Ci.Detect.Globs.{starts, tail_of}

abbrev pub InSegment : ℕ → Type 0
InSegment c = c ≢ b'/'

abbrev pub InLine : ℕ → Type 0
InLine c = c ≢ 10

-- One directory with its slash, and a number of directories.
abbrev pub DirectoryThen : (Text → Type 0) → Text → Type 0
DirectoryThen K t = OneThen InSegment (ManyThen InSegment (OneThen (λ c. c ≡ b'/') K)) t

abbrev pub DirectoriesThen : ℕ → (Text → Type 0) → Text → Type 0
DirectoriesThen n K t = RoundsThen DirectoryThen n K t

abbrev pub AnyDirectories : (Text → Type 0) → Text → Type 0
AnyDirectories K t = (n : ℕ) × DirectoriesThen n K t

-- A path under a glob without classes: `*` covers a part of a segment, `?` one character of a
-- segment, `**/` any number of directories, another `**` anything in a line, and any other character
-- itself. The number counts the characters of the glob that a part before them has taken.
abbrev pub Covers : ℕ → Text → Text → Type 0
Covers n [] t = at_stop t ≡ true
Covers (suc n) (c ∷ cs) t = Covers n cs t
Covers zero (c ∷ cs) t =
    if nat_beq c b'*'
    then if starts b'*' cs
      then if starts b'/' (tail_of cs)
        then AnyDirectories (Covers 2 cs) t
        else ManyThen InLine (Covers 1 cs) t
      else ManyThen InSegment (Covers 0 cs) t
    else if nat_beq c b'?'
    then OneThen InSegment (Covers 0 cs) t
    else OneThen (λ d. d ≡ c) (Covers 0 cs) t

OneThen-map :
    (C : ℕ → Type 0) (K L : Text → Type 0) (t : Text)
    → ((u : Text) → length u < length t → K u → L u)
    → OneThen C K t
    → OneThen C L t
OneThen-map C K L [] f h = absurd h
OneThen-map C K L (c ∷ cs) f h = (h.0, f cs (omega arith) h.1)

ManyThen-map :
    (C : ℕ → Type 0) (K L : Text → Type 0) (t : Text)
    → ((u : Text) → length u ≤ length t → K u → L u)
    → ManyThen C K t
    → ManyThen C L t
ManyThen-map C K L [] f h = f [] (omega arith) h
ManyThen-map C K L (c ∷ cs) f h = elim h [
  | inl k ↦ inl (f (c ∷ cs) (omega arith) k)
  | inr k ↦ inr (k.0, ManyThen-map C K L cs (λ u e. f u (omega arith)) k.1)
]

DirectoryThen-map :
    (K L : Text → Type 0) (t : Text)
    → ((u : Text) → length u < length t → K u → L u)
    → DirectoryThen K t
    → DirectoryThen L t
DirectoryThen-map K L t f h =
    OneThen-map InSegment _ _ t
      (λ u e.
        ManyThen-map InSegment _ _ u
          λ v d. OneThen-map (λ c. c ≡ b'/') K L v λ w k. f w (omega arith))
      h

-- A text has room for at most as many directories as it has characters.
pub DirectoriesThen-enough :
    (K : Text → Type 0) (n m : ℕ) (t : Text)
    → length t ≤ m
    → DirectoriesThen n K t
    → DirectoriesThen m K t
DirectoriesThen-enough K zero zero t e h = h
DirectoriesThen-enough K zero (suc m) t e h = inl h
DirectoriesThen-enough K (suc n) zero [] e h = elim h [ inl k ↦ k | inr k ↦ absurd k ]
DirectoriesThen-enough K (suc n) zero (c ∷ cs) e h = absurd (omega arith)
DirectoriesThen-enough K (suc n) (suc m) t e h = elim h [
  | inl k ↦ inl k
  | inr k ↦ inr (
      DirectoryThen-map (DirectoriesThen n K) (DirectoriesThen m K) t
        (λ u d. DirectoriesThen-enough K n m u (omega arith)) k)
]
