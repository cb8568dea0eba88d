-- ===== src/Ci/Detect/Selection.antt =====
-- Which paths `detect_migrations` of ci/detect.py selects.
use blastoise.Base.{
  ◌≡◌, ◌↔◌, ◌⊎◌, inl, inr, Bool, true, false, Option, none, some, Defined, All, sorted_set-All,
  List, [], ◌∷◌, Any, Text, arith, any, subst, sorted_set, place, text_lt-total, IsAscending,
  sorted_set-IsAscending, Bool-cases, ok, Succeeds, sym, ◌∙◌, list_beq_iff, ◌==◌, if◌then◌else◌,
  list_eq, nat_eq,
}
use blastoise.Regex.{Regex, is_empty}
use blastoise.Ci.{Framework, SourceKind}
use blastoise.Ci.Detect.Files.{DetectedFile, normalize_path}
use blastoise.Ci.Detect.Rules.{framework_of}
use blastoise.Ci.Detect.Globs.{compile_globs, matches_any}
use blastoise.Ci.Detect.Migrations.{wanted, detect_one, detect_from, earlier, detect_migrations}
use blastoise.Ci.Detect.Reporting.{Reported, detect_from-Reported}

abbrev pub Holds : Text → List DetectedFile → Type 0
Holds p ds = Any (λ d. d.path ≡ p) ds

seen-Holds :
    (seen : List DetectedFile) (q : Text)
    → any (λ (d : DetectedFile). d.path == q) seen ≡ true
    → Holds q seen
seen-Holds [] q h = cc
seen-Holds (d ∷ ds) q h = ground (arith, seen-Holds ds q, list_beq_iff d.path q)

module _ (include exclude : List Regex) where
  -- What makes a path count: it is not empty; without globs to include, the layout of a framework
  -- fits, and with such globs, one of them; and no glob excludes it.
  abbrev pub Counted : Text → Type 0
  Counted p =
      (is_empty p ≡ false)
      × (is_empty include ≡ true → Defined (framework_of p))
      × (is_empty include ≡ false → matches_any p include ≡ true)
      × (matches_any p exclude ≡ false)

  wanted-Defined :
      (p : Text)
      → Defined (wanted include exclude p) ↔ (
          (is_empty include ≡ true → Defined (framework_of p))
          × (is_empty include ≡ false → matches_any p include ≡ true))
  unfolding wanted
  wanted-Defined p = ground arith

  add-Holds :
      (seen : List DetectedFile) (q p : Text) (o : Option (Framework × SourceKind))
      (left_out : Bool)
      → Holds p (elim o [
        | none ↦ seen
        | some m ↦
            if left_out
            then seen
            else record { path = q; framework = m.0; source_kind = m.1 } ∷ seen
      ])
        ↔ (Holds p seen ⊎ ((q ≡ p) × Defined o × (left_out ≡ false)))
  add-Holds seen q p none left_out = ground arith
  add-Holds seen q p (some m) true = ground arith
  add-Holds seen q p (some m) false = ground arith

  detect_one-Holds :
      (seen : List DetectedFile) (q p : Text)
      → Holds p (detect_one include exclude seen q) ↔ (Holds p seen ⊎ ((q ≡ p) × Counted q))
  unfolding detect_one
  detect_one-Holds seen q p = elim (Bool-cases (is_empty q)) [
    | inl e ↦ rw e ground arith
    | inr n ↦ elim (Bool-cases (any (λ (d : DetectedFile). d.path == q) seen)) [
      | inl old ↦
          let found = seen-Holds seen q old in
          rw (n, old)
            (λ h. inl h, λ h. elim h [ inl k ↦ k | inr k ↦ subst (λ t. Holds t seen) k.0 found ])
      | inr new ↦
          rw (n, new) ground
            (
              arith,
              add-Holds seen q p (wanted include exclude q) (matches_any q exclude),
              wanted-Defined q,
            )
    ]
  ]

  detect_from-Holds :
      (seen : List DetectedFile) (paths : List Text) (p : Text)
      → Holds p (detect_from include exclude seen paths)
        ↔ (Holds p seen ⊎ (Any (λ raw. normalize_path raw ≡ p) paths × Counted p))
  unfolding detect_from
  detect_from-Holds seen [] p = ground arith
  detect_from-Holds seen (raw ∷ raws) p =
      let q = normalize_path raw in
      let one = detect_one-Holds seen q p in
      let rest = detect_from-Holds (detect_one include exclude seen q) raws p in
      (
        λ h. elim (rest.0 h) [
          | inl k ↦ elim (one.0 k) [
            | inl old ↦ inl old
            | inr new ↦ inr (inl new.0, subst Counted new.0 new.1)
          ]
          | inr later ↦ inr (inr later.0, later.1)
        ],
        λ h. elim h [
          | inl old ↦ rest.1 (inl (one.1 (inl old)))
          | inr new ↦ elim new.0 [
            | inl e ↦ rest.1 (inl (one.1 (inr (e, subst Counted (sym e) new.1))))
            | inr later ↦ rest.1 (inr (later, new.1))
          ]
        ],
      )

place-Holds :
    (d : DetectedFile) (ds : List DetectedFile) (p : Text)
    → Holds p (place earlier d ds) ↔ ((d.path ≡ p) ⊎ Holds p ds)
unfolding place
place-Holds d [] p = ground arith
place-Holds d (e ∷ es) p = elim (Bool-cases (earlier d e)) [
  | inl h ↦ rw h ground arith
  | inr n ↦ elim (Bool-cases (earlier e d)) [
    | inl h ↦ rw (n, h) ground (arith, place-Holds d es p)
    | inr m ↦
        let one : d.path ≡ e.path = text_lt-total d.path e.path n m in
        rw (n, m) (λ h. inr h, λ h. elim h [ inl k ↦ inl (sym one ∙ k) | inr k ↦ k ])
  ]
]

sorted_set-Holds :
    (ds : List DetectedFile) (p : Text) → Holds p (sorted_set earlier ds) ↔ Holds p ds
unfolding sorted_set
sorted_set-Holds [] p = ground arith
sorted_set-Holds (d ∷ ds) p =
    ground (arith, place-Holds d (sorted_set earlier ds) p, sorted_set-Holds ds p)

-- With globs that compile, the result holds a path exactly where some given path has it as its form
-- and the path counts; and the paths ascend, so that each is there once, whatever the order and the
-- repetitions of the paths that were given. A file reports the framework of its layout, or CONFIGURED
-- where globs choose the files and no layout fits.
pub detect_migrations-Counted :
    (paths include exclude : List Text) (is es : List Regex)
    → compile_globs include ≡ ok is
    → compile_globs exclude ≡ ok es
    → Succeeds
        (λ ds.
          ((p : Text) → Holds p ds ↔ (Any (λ raw. normalize_path raw ≡ p) paths × Counted is es p))
          × IsAscending earlier ds
          × All (Reported is es) ds)
        (detect_migrations paths include exclude)
unfolding detect_migrations
detect_migrations-Counted paths include exclude is es h k =
    rw (h, k)
      (
        λ p. ground (
          arith,
          sorted_set-Holds (detect_from is es [] paths) p,
          detect_from-Holds is es [] paths p,
        ),
        sorted_set-IsAscending earlier (detect_from is es [] paths),
        sorted_set-All (Reported is es) earlier (detect_from is es [] paths)
            (detect_from-Reported is es [] paths tt),
      )
