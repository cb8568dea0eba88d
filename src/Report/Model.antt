-- ===== src/Report/Model.antt =====
-- report/model.py: the verdict of a file from the tiers of its statements, and the exit codes.
use blastoise.Base.{
  ℕ, ◌≤◌, ◌≡◌, ◌≢◌, refl, sym, ◌∙◌, true, List, [], ◌∷◌, All, Any, arith, ◌⊎◌, inl, inr, ◌↔◌,
  max_by,
}
use blastoise.Verdict.Model.{
  Classification, safe, safe_irreversible, needs_timing, unsafe, in_safe_tiers, combine_rank,
  worse_classification,
}

pub data FileVerdict : Type 0 where
  proceed requires_approval block : FileVerdict

-- `_VERDICT_OF_CLASSIFICATION`
abbrev pub verdict_of_classification : Classification → FileVerdict
verdict_of_classification safe = proceed
verdict_of_classification safe_irreversible = proceed
verdict_of_classification needs_timing = requires_approval
verdict_of_classification Classification.unknown = requires_approval
verdict_of_classification unsafe = block

-- The loop of `file_verdict`.
unfoldable pub worst_of : Classification → List Classification → Classification
worst_of worst [] = worst
worst_of worst (c ∷ cs) = worst_of (worse_classification worst (c ∷ [])) cs

unfoldable pub file_verdict : List Classification → FileVerdict
file_verdict [] = proceed
file_verdict (c ∷ cs) = verdict_of_classification (worst_of c cs)

-- `EXIT_CODES`, by `exit_code`.
abbrev pub exit_code : FileVerdict → ℕ
exit_code proceed = 0
exit_code requires_approval = 1
exit_code block = 2

abbrev pub exit_tool_error : ℕ
exit_tool_error = 3

-- One step of the loop.
abbrev step : Classification → Classification → Classification
step c d = worse_classification c (d ∷ [])

step-cases :
    (c d : Classification)
    → ((step c d ≡ c) ⊎ (step c d ≡ d))
      × (combine_rank c ≤ combine_rank (step c d))
      × (combine_rank d ≤ combine_rank (step c d))
unfolding worse_classification max_by
step-cases c d = ground arith

worst_of-among :
    (c : Classification) (cs : List Classification)
    → (worst_of c cs ≡ c) ⊎ Any (λ d. d ≡ worst_of c cs) cs
unfolding worst_of
worst_of-among c [] = inl refl
worst_of-among c (d ∷ ds) = elim (worst_of-among (step c d) ds) [
  | inl e ↦ elim (step-cases c d).0 [ inl k ↦ inl (e ∙ k) | inr k ↦ inr (inl (sym (e ∙ k))) ]
  | inr later ↦ inr (inr later)
]

worst_of-ge :
    (c : Classification) (cs : List Classification)
    → (combine_rank c ≤ combine_rank (worst_of c cs))
      × All (λ d. combine_rank d ≤ combine_rank (worst_of c cs)) cs
unfolding worst_of
worst_of-ge c [] = (omega arith, tt)
worst_of-ge c (d ∷ ds) =
    let rest = worst_of-ge (step c d) ds in
    let one = step-cases c d in
    (omega (arith, rest.0, one.1), (omega (arith, rest.0, one.2), rest.1))

worst_unsafe :
    (w : Classification) (cs : List Classification)
    → w ≡ unsafe
    → Any (λ d. d ≡ w) cs
    → Any (λ d. d ≡ unsafe) cs
worst_unsafe w [] e h = absurd h
worst_unsafe w (d ∷ ds) e (inl h) = inl (h ∙ e)
worst_unsafe w (d ∷ ds) e (inr h) = inr (worst_unsafe w ds e h)

unsafe_among :
    (w : Classification) (cs : List Classification)
    → All (λ d. combine_rank d ≤ combine_rank w) cs
    → Any (λ d. d ≡ unsafe) cs
    → w ≡ unsafe
unsafe_among w [] h k = absurd k
unsafe_among w (d ∷ ds) h (inl e) = ground (arith, h.0)
unsafe_among w (d ∷ ds) h (inr later) = unsafe_among w ds h.1 later

safe_among :
    (w : Classification) (cs : List Classification)
    → in_safe_tiers w ≡ true
    → All (λ d. combine_rank d ≤ combine_rank w) cs
    → All (λ d. in_safe_tiers d ≡ true) cs
safe_among w [] e h = tt
safe_among w (d ∷ ds) e h = (ground (arith, h.0), safe_among w ds e h.1)

safe_found :
    (w : Classification) (cs : List Classification)
    → Any (λ d. d ≡ w) cs
    → All (λ d. in_safe_tiers d ≡ true) cs
    → in_safe_tiers w ≡ true
safe_found w [] k h = absurd k
safe_found w (d ∷ ds) (inl e) h = ground (arith, h.0)
safe_found w (d ∷ ds) (inr later) h = safe_found w ds later h.1

abbrev pub SomeUnsafe : List Classification → Type 0
SomeUnsafe cs = Any (λ d. d ≡ unsafe) cs

abbrev pub AllSafe : List Classification → Type 0
AllSafe cs = All (λ d. in_safe_tiers d ≡ true) cs

worst-found :
    (c : Classification) (cs : List Classification) → Any (λ d. d ≡ worst_of c cs) (c ∷ cs)
worst-found c cs = elim (worst_of-among c cs) [ inl e ↦ inl (sym e) | inr later ↦ inr later ]

-- A file is blocked exactly where a statement is UNSAFE, and proceeds exactly where every statement
-- is in a safe tier.
pub file_verdict_lem :
    (cs : List Classification)
    → ((file_verdict cs ≡ block) ↔ SomeUnsafe cs) × ((file_verdict cs ≡ proceed) ↔ AllSafe cs)
unfolding file_verdict
file_verdict_lem [] = ground arith
file_verdict_lem (c ∷ cs) =
    let ge = worst_of-ge c cs in
    (
      (
        (λ h. worst_unsafe (worst_of c cs) (c ∷ cs) (ground (arith, h)) (worst-found c cs)),
        (λ h. rw (unsafe_among (worst_of c cs) (c ∷ cs) (ge.0, ge.1) h) refl),
      ),
      (
        (λ h. safe_among (worst_of c cs) (c ∷ cs) (ground (arith, h)) (ge.0, ge.1)),
        (λ h. ground (arith, safe_found (worst_of c cs) (c ∷ cs) (worst-found c cs) h)),
      ),
    )

-- The exit codes are distinct, and none is the code of a failure of the tool.
exit_code-injective :
    (v w : FileVerdict) → (exit_code v ≢ exit_tool_error) × (exit_code v ≡ exit_code w → v ≡ w)
exit_code-injective v w = ground arith
