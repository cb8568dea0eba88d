-- ===== src/Base/Strings.antt =====
-- What the code uses of Python's `str`: whitespace, letter case, prefixes, stripping.
use Prim.Native.Nat.{ℕ, ◌+◌}
use mathlib.Core.Bool.{Bool, true, false, ◌&&◌, ◌||◌}
use mathlib.Core.Option.{Option, none, some}
use mathlib.Core.List.{[], ◌∷◌, reverse}
use blastoise.Base.Tests.{leb, nat_beq, if◌then◌else◌}
use blastoise.Base.Texts.{Text}

-- `str.isspace` of one character, which is also `\s` of a pattern.
unfoldable pub is_space : ℕ → Bool
is_space c =
    leb 9 c && leb c 13
    || leb 28 c && leb c 32
    || nat_beq c 0x85
    || nat_beq c 0xa0
    || nat_beq c 0x1680
    || leb 0x2000 c && leb c 0x200a
    || nat_beq c 0x2028
    || nat_beq c 0x2029
    || nat_beq c 0x202f
    || nat_beq c 0x205f
    || nat_beq c 0x3000

unfoldable pub is_digit : ℕ → Bool
is_digit c = leb b'0' c && leb c b'9'

unfoldable pub is_lower : ℕ → Bool
is_lower c = leb b'a' c && leb c b'z'

-- `str.lower` of one character. Of the other letters only the Kelvin sign becomes an ASCII letter.
unfoldable pub lower_char : ℕ → ℕ
lower_char c = if leb b'A' c && leb c b'Z' then c + 32 else if nat_beq c 0x212a then b'k' else c

unfoldable pub lstrip : (ℕ → Bool) → Text → Text
lstrip p [] = []
lstrip p (c ∷ cs) = let rest = lstrip p cs in if p c then rest else c ∷ cs

unfoldable pub strip : (ℕ → Bool) → Text → Text
unfolding lstrip
strip p text = reverse (lstrip p (reverse (lstrip p text)))

-- What stands behind a prefix.
unfoldable pub drop_prefix : Text → Text → Option Text
drop_prefix [] text = some text
drop_prefix (p ∷ ps) [] = none
drop_prefix (p ∷ ps) (c ∷ cs) = if nat_beq p c then drop_prefix ps cs else none

unfoldable pub last : Text → Option ℕ
last [] = none
last (c ∷ []) = some c
last (c ∷ d ∷ cs) = last (d ∷ cs)

unfoldable pub drop_last : Text → Text
drop_last [] = []
drop_last (c ∷ []) = []
drop_last (c ∷ d ∷ cs) = c ∷ drop_last (d ∷ cs)

-- `" ".join(text.split())`: words, with one space between two of them. The flag tells that a word
-- stands before, and the second that spaces stand between.
squeeze : Bool → Bool → Text → Text
squeeze word gap [] = []
squeeze word gap (c ∷ cs) =
    let skip = squeeze word true cs in
    let keep = squeeze true false cs in
    if is_space c then skip else if word && gap then b' ' ∷ c ∷ keep else c ∷ keep

unfoldable pub join_words : Text → Text
unfolding squeeze is_space
join_words text = squeeze false false text
