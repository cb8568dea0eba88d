-- ===== src/Ci/Detect/Matching.antt =====
-- The pattern of a glob of ci/detect.py matches what the glob covers.
use blastoise.Base.{
  ℕ, zero, suc, ◌≡◌, ◌↔◌, refl, inl, inr, Bool, true, false, List, [], ◌∷◌, length, any, Text,
  arith, nat_beq, Bool-cases, Result, ok, raise, Succeeds, ◌>>=◌,
}
use blastoise.Regex.{in_class, Regex, start, stop, both, many, Place, at_stop, ends, is_match}
use blastoise.Regex.Ends.{
  OneThen, ManyThen, Means, both-Means, both-Leads, one-Means, many-Means, rounds-Means, Leads,
  nothing-Means, stop-Leads, start-Means, is_match-Leads,
}
use blastoise.Ci.Detect.Files.{normalize_path}
use blastoise.Ci.Detect.Rules.{literal, no_slash, some_of, all_of}
use blastoise.Ci.Detect.Globs.{
  starts, tail_of, directories, anything, star_part, next_part, parts_from, glob_to_regex,
}
use blastoise.Ci.Detect.Covering.{
  InSegment, InLine, DirectoryThen, AnyDirectories, Covers, DirectoriesThen-enough,
}

in_segment :
    (c : ℕ)
    → (in_class (record { negated = true; ranges = (b'/', b'/') ∷ [] }) c ≡ true) ↔ InSegment c
in_segment c = ground arith

in_line :
    (c : ℕ) → (in_class (record { negated = true; ranges = (10, 10) ∷ [] }) c ≡ true) ↔ InLine c
in_line c = ground arith

is_literal :
    (l c : ℕ) → (in_class (record { negated = false; ranges = (l, l) ∷ [] }) c ≡ true) ↔ (c ≡ l)
is_literal l c = ground arith

no_slash-Means : Means no_slash (OneThen InSegment)
no_slash-Means = one-Means _ InSegment in_segment

segment-Means : Means (many no_slash) (ManyThen InSegment)
segment-Means = many-Means _ InSegment in_segment

anything-Means : Means anything (ManyThen InLine)
anything-Means = many-Means _ InLine in_line

literal-Means : (c : ℕ) → Means (literal c) (OneThen (λ d. d ≡ c))
literal-Means c = one-Means _ (λ d. d ≡ c) (is_literal c)

directory-Means : Means (both (some_of no_slash) (literal b'/')) DirectoryThen
directory-Means = both-Means (both-Means no_slash-Means segment-Means) (literal-Means b'/')

directories-Means : Means directories AnyDirectories
unfolding ends
directories-Means = record {
  leads = λ K (b, t).
      let rounds_mean = rounds-Means directory-Means K (length t) (b, t) in
      (
        λ h. (length t, rounds_mean.0 h),
        λ h. rounds_mean.1 (DirectoriesThen-enough K h.0 (length t) t (omega arith) h.1),
      );
}

-- The rest of a text at which a pattern may stop.
abbrev Ends : Text → Type 0
Ends t = at_stop t ≡ true

abbrev MatchesRest : ((Text → Type 0)) → List Regex → Type 0
MatchesRest L parts = (p : Place) → Leads (all_of parts) Ends p ↔ L p.1

abbrev pub has_class : Text → Bool
has_class glob = any (λ c. nat_beq c b'[') glob

part_first :
    {part : Regex} {T : (Text → Type 0) → Text → Type 0}
    → Means part T
    → (K L : Text → Type 0) (m : Result (List Regex)) → ((t : Text) → T K t ↔ L t)
    → Succeeds (MatchesRest K) m
    → Succeeds (MatchesRest L) (m >>= λ parts. ok (part ∷ parts))
part_first means K L (raise e) same h = h
part_first {part} means K L (ok parts) same h = λ p.
    let split = both-Leads part (all_of parts) Ends K h p in
    let first = means.leads K p in
    let last = same p.1 in (λ x. last.0 (first.0 (split.0 x)), λ x. split.1 (first.1 (last.1 x)))

-- The pattern of one part, with what it asks of the text.
module _ (c : ℕ) (cs : Text) where
  next-Covers :
      {part : Regex} {T : (Text → Type 0) → Text → Type 0} (n : ℕ)
      → Means part T
      → next_part c cs ≡ ok (part, n)
      → ((t : Text) → T (Covers n cs) t ↔ Covers 0 (c ∷ cs) t)
      → Succeeds (MatchesRest (Covers n cs)) (parts_from n cs)
      → Succeeds (MatchesRest (Covers 0 (c ∷ cs))) (parts_from 0 (c ∷ cs))
  unfolding parts_from
  next-Covers n means e same h =
      rw e (part_first means (Covers n cs) (Covers 0 (c ∷ cs)) (parts_from n cs) same h)

  star-Covers :
      ((n : ℕ) → Succeeds (MatchesRest (Covers n cs)) (parts_from n cs))
      → nat_beq c b'*' ≡ true
      → Succeeds (MatchesRest (Covers 0 (c ∷ cs))) (parts_from 0 (c ∷ cs))
  unfolding next_part star_part
  star-Covers h star = elim (Bool-cases (starts b'*' cs)) [
    | inl two ↦ elim (Bool-cases (starts b'/' (tail_of cs))) [
      | inl dirs ↦
          next-Covers 2 directories-Means (rw (star, two, dirs) refl)
            (λ t. rw (star, two, dirs) (λ x. x, λ x. x)) (h 2)
      | inr rest ↦
          next-Covers 1 anything-Means (rw (star, two, rest) refl)
            (λ t. rw (star, two, rest) (λ x. x, λ x. x)) (h 1)
    ]
    | inr one_star ↦
        next-Covers 0 segment-Means (rw (star, one_star) refl)
          (λ t. rw (star, one_star) (λ x. x, λ x. x)) (h 0)
  ]

  character-Covers :
      ((n : ℕ) → Succeeds (MatchesRest (Covers n cs)) (parts_from n cs))
      → nat_beq c b'*' ≡ false
      → nat_beq c b'[' ≡ false
      → Succeeds (MatchesRest (Covers 0 (c ∷ cs))) (parts_from 0 (c ∷ cs))
  unfolding next_part
  character-Covers h no_star bracket = elim (Bool-cases (nat_beq c b'?')) [
    | inl mark ↦
        next-Covers 0 no_slash-Means (rw (no_star, mark) refl)
          (λ t. rw (no_star, mark) (λ x. x, λ x. x)) (h 0)
    | inr plain ↦
        next-Covers 0 (literal-Means c) (rw (no_star, plain, bracket) refl)
          (λ t. rw (no_star, plain) (λ x. x, λ x. x)) (h 0)
  ]

parts_from-Covers :
    (cs : Text)
    → has_class cs ≡ false
    → (n : ℕ) → Succeeds (MatchesRest (Covers n cs)) (parts_from n cs)
unfolding parts_from
parts_from-Covers [] h zero = λ p. nothing-Means.leads Ends p
parts_from-Covers [] h (suc n) = λ p. nothing-Means.leads Ends p
parts_from-Covers (c ∷ cs) h (suc n) = parts_from-Covers cs (ground arith) n
parts_from-Covers (c ∷ cs) h zero =
    let later = parts_from-Covers cs (ground arith) in
    elim (Bool-cases (nat_beq c b'*')) [
      | inl star ↦ star-Covers c cs later star
      | inr no_star ↦ character-Covers c cs later no_star (ground arith)
    ]

pattern-Covers :
    (cs : Text) (m : Result (List Regex))
    → Succeeds (MatchesRest (Covers 0 cs)) m
    → Succeeds
        (λ r. (path : Text) → (is_match r path ≡ true) ↔ Covers 0 cs path)
        (m >>= λ parts. ok (both start (both (all_of parts) stop)))
pattern-Covers cs (raise e) h = h
pattern-Covers cs (ok parts) h = λ path.
    let whole = both (all_of parts) stop in
    let found = is_match-Leads (both start whole) path in
    let behind = start-Means whole (λ u. Unit) path in
    let split = both-Leads (all_of parts) stop (λ u. Unit) Ends stop-Leads (true, path) in
    let covered = h (true, path) in
    (
      λ x. covered.0 (split.0 (behind.0 (found.0 x))),
      λ x. found.1 (behind.1 (split.1 (covered.1 x))),
    )

-- A glob without classes compiles, and its pattern matches exactly the paths that the glob covers, in
-- its form as a path; a line feed that ends a path is passed over.
pub glob_to_regex-Covers :
    (glob : Text)
    → has_class (normalize_path glob) ≡ false
    → Succeeds
        (λ r. (path : Text) → (is_match r path ≡ true) ↔ Covers 0 (normalize_path glob) path)
        (glob_to_regex glob)
unfolding glob_to_regex
glob_to_regex-Covers glob h =
    let cs = normalize_path glob in pattern-Covers cs (parts_from 0 cs) (parts_from-Covers cs h 0)
