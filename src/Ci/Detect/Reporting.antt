-- ===== src/Ci/Detect/Reporting.antt =====
-- What a file that ci/detect.py finds reports.
use blastoise.Base.{
  ◌≡◌, ◌⊎◌, refl, inl, inr, Bool, true, false, Option, none, some, All, if_cases, ◌||◌, List, [],
  ◌∷◌, Text, any, sym, ap, ◌==◌, if◌then◌else◌, list_eq, nat_eq,
}
use blastoise.Regex.{Regex, is_empty}
use blastoise.Ci.{Framework, SourceKind}
use blastoise.Ci.Detect.Files.{DetectedFile, normalize_path}
use blastoise.Ci.Detect.Rules.{framework_of}
use blastoise.Ci.Detect.Globs.{matches_any}
use blastoise.Ci.Detect.Migrations.{or_configured, configured_kind, wanted, detect_one, detect_from}

chosen :
    (all_layouts fits : Bool) (p : Text) (o : Option (Framework × SourceKind))
    (m : Framework × SourceKind)
    → (if all_layouts then o else if fits then some (or_configured p o) else none) ≡ some m
    → (o ≡ some m) ⊎ ((all_layouts ≡ false) × (o ≡ none) × (configured_kind p ≡ m))
chosen true fits p o m h = inl h
chosen false true p none m h = inr (refl, refl, cc)
chosen false true p (some n) m h = inl h
chosen false false p o m h = cc

module _ (include exclude : List Regex) where
  -- The framework that a file reports: that of its layout, or, where globs choose the files and no
  -- layout fits, `CONFIGURED`.
  abbrev pub Reported : DetectedFile → Type 0
  Reported d =
      (framework_of d.path ≡ some (d.framework, d.source_kind))
      ⊎ ((is_empty include ≡ false)
          × (framework_of d.path ≡ none)
          × (d.framework ≡ Framework.configured))

  wanted-Reported :
      (p : Text) (m : Framework × SourceKind)
      → wanted include exclude p ≡ some m
      → Reported (record { path = p; framework = m.0; source_kind = m.1 })
  unfolding wanted configured_kind
  wanted-Reported p m h =
      elim (chosen (is_empty include) (matches_any p include) p (framework_of p) m h) [
        | inl e ↦ inl e
        | inr (b, n, e) ↦ inr (b, n, sym (ap (λ (x : Framework × SourceKind). x.0) e))
      ]

  add-Reported :
      (seen : List DetectedFile) (q : Text) (o : Option (Framework × SourceKind)) (left_out : Bool)
      → ((m : Framework × SourceKind)
          → o ≡ some m
          → Reported (record { path = q; framework = m.0; source_kind = m.1 }))
      → All Reported seen
      → All Reported (elim o [
        | none ↦ seen
        | some m ↦
            if left_out
            then seen
            else record { path = q; framework = m.0; source_kind = m.1 } ∷ seen
      ])
  add-Reported seen q none left_out f h = h
  add-Reported seen q (some m) true f h = h
  add-Reported seen q (some m) false f h = (f m refl, h)

  pub detect_from-Reported :
      (seen : List DetectedFile) (paths : List Text)
      → All Reported seen
      → All Reported (detect_from include exclude seen paths)
  unfolding detect_from detect_one
  detect_from-Reported seen [] h = h
  detect_from-Reported seen (raw ∷ raws) h =
      let q = normalize_path raw in
      detect_from-Reported (detect_one include exclude seen q) raws (
        if_cases (All Reported) (is_empty q || any (λ (d : DetectedFile). d.path == q) seen)
          (λ e. h)
          (λ e.
            add-Reported seen q (wanted include exclude q) (matches_any q exclude)
              (wanted-Reported q) h))
