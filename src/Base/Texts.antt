-- ===== src/Base/Texts.antt =====
-- Python strings that the code takes apart or compares, as lists of code points.
use Prim.Native.Nat.{ℕ}
use Prim.Native.Char.{code}
use Prim.Native.String.{String}
use mathlib.Core.List.{List, [], ◌∷◌}
use blastoise.Base.Tests.{nat_beq, if◌then◌else◌}

abbrev pub Text : Type 0
Text = List ℕ

-- The code points of a literal.
abbrev pub codes : String → Text
codes String.[] = []
codes (String.◌∷◌ c s) = code c ∷ codes s

-- `text.rsplit(c, 1)[-1]`: what stands behind the last `c`, or all of the text.
unfoldable pub after_last_from : ℕ → Text → Text → Text
after_last_from c best [] = best
after_last_from c best (x ∷ xs) = after_last_from c (if nat_beq x c then xs else best) xs

unfoldable pub after_last : ℕ → Text → Text
unfolding after_last_from
after_last c text = after_last_from c text text
