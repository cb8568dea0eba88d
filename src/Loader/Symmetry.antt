-- ===== src/Loader/Symmetry.antt =====
-- The conflict matrix that catalog/loader.py `_parse_conflict_matrix` accepts.
use blastoise.Base.{
  Bool, true, false, All, ok-has, OkHas-map, OkHas-after, true, ◌≡◌, refl, some, List, [], ◌∷◌, all,
  inl, inr, arith, ok, traverse, contains, ◌==◌, OkHas, OkHas-bind, Option-cases, Bool-cases, subst,
  sym,
}
use blastoise.Catalog.{LockMode, mode_eq, table_lock_modes}
use blastoise.Loader.Documents.{Yaml, pairs, as_mapping}
use blastoise.Loader.Matrix.{
  MatrixRows, row_of, has_row, parse_matrix_row, check_mode, check_symmetric, parse_conflict_matrix,
  conflicts_in,
}
use blastoise.Loader.Checks.{all-All, option_case, require-then}

-- `mode` stands in the row of each of the modes.
abbrev Mutual : MatrixRows → LockMode → List LockMode → Type 0
Mutual rows mode others =
    (b : LockMode) → contains b others ≡ true → contains mode (conflicts_in rows b) ≡ true

mutual_cons :
    (rows : MatrixRows) (mode o : LockMode) (os : List LockMode) (c : List LockMode) (b : LockMode)
    → row_of rows o ≡ some c
    → contains mode c ≡ true
    → contains b (o ∷ os) ≡ true
    → (contains b os ≡ true → contains mode (conflicts_in rows b) ≡ true)
    → contains mode (conflicts_in rows b) ≡ true
mutual_cons rows mode o os c b e holds h rest = elim (Bool-cases (b == o)) [
  | inl same ↦
      subst (λ m. contains mode (conflicts_in rows m) ≡ true) (sym ((mode_eq.same_iff b o).0 same))
        (rw e holds)
  | inr differ ↦ rest (rw differ at h)
]

check_mode-Mutual :
    (rows : MatrixRows) (mode : LockMode) (others : List LockMode)
    → OkHas (λ _. Mutual rows mode others) (check_mode rows mode others)
unfolding check_mode
check_mode-Mutual rows mode [] = λ b h. ground arith
check_mode-Mutual rows mode (o ∷ os) =
    option_case (OkHas (λ _. Mutual rows mode (o ∷ os))) (row_of rows o) _ _ (λ _. tt)
      λ c e. require-then (contains mode c) _ _ λ holds.
        OkHas-map _ _ (λ _ rest b h. mutual_cons rows mode o os c b e holds h (rest b))
          (check_mode rows mode os) (check_mode-Mutual rows mode os)

cons_same :
    (m : LockMode) (conflicts : List LockMode) (rows : MatrixRows) (a : LockMode)
    (c : List LockMode)
    → (m == a) ≡ true
    → row_of ((m, conflicts) ∷ rows) a ≡ some c
    → conflicts ≡ c
unfolding row_of
cons_same m conflicts rows a c same e = ground arith

cons_row :
    (m : LockMode) (conflicts : List LockMode) (rows : MatrixRows) (a : LockMode)
    (c : List LockMode) (P : LockMode → List LockMode → Type 0)
    → row_of ((m, conflicts) ∷ rows) a ≡ some c
    → P m conflicts
    → (row_of rows a ≡ some c → P a c)
    → P a c
unfolding row_of
cons_row m conflicts rows a c P e first rest = elim (Bool-cases (m == a)) [
  | inl same ↦
      subst (P a) (cons_same m conflicts rows a c same e)
        (subst (λ x. P x conflicts) ((mode_eq.same_iff m a).0 same) first)
  | inr differ ↦ rest (rw differ at e)
]

check_symmetric-Mutual :
    (rows part : MatrixRows)
    → OkHas
        (λ _. (a : LockMode) (c : List LockMode) → row_of part a ≡ some c → Mutual rows a c)
        (check_symmetric rows part)
unfolding check_symmetric row_of
check_symmetric-Mutual rows [] = λ a c e. absurd (ground arith)
check_symmetric-Mutual rows ((m, conflicts) ∷ rest) =
    OkHas-bind (λ _. Mutual rows m conflicts) _ (check_mode rows m conflicts) _
      (check_mode-Mutual rows m conflicts)
      λ _ first.
        OkHas-map _ _
          (λ _ more a c e. cons_row m conflicts rest a c (Mutual rows) e first (more a c))
          (check_symmetric rows rest) (check_symmetric-Mutual rows rest)

-- Two modes are in conflict from both sides or from none.
abbrev pub IsSymmetric : MatrixRows → Type 0
IsSymmetric rows =
    (a b : LockMode) → contains b (conflicts_in rows a) ≡ contains a (conflicts_in rows b)

-- Every table lock mode has a row.
abbrev pub IsComplete : MatrixRows → Type 0
IsComplete rows = All (λ a. has_row rows a ≡ true) table_lock_modes

both_ways : (b c : Bool) → (b ≡ true → c ≡ true) → (c ≡ true → b ≡ true) → b ≡ c
both_ways true c h k = sym (h refl)
both_ways false true h k = k refl
both_ways false false h k = refl

one_way :
    (rows : MatrixRows)
    → ((a : LockMode) (c : List LockMode) → row_of rows a ≡ some c → Mutual rows a c)
    → (a b : LockMode) → contains b (conflicts_in rows a) ≡ true
    → contains a (conflicts_in rows b) ≡ true
one_way rows all_rows a b h = elim (Option-cases (row_of rows a)) [
  | inl e ↦ absurd (ground arith)
  | inr (c, e) ↦ all_rows a c e b (rw e at h)
]

rows-IsSymmetric :
    (rows : MatrixRows)
    → ((a : LockMode) (c : List LockMode) → row_of rows a ≡ some c → Mutual rows a c)
    → IsSymmetric rows
rows-IsSymmetric rows all_rows a b =
    both_ways (contains b (conflicts_in rows a)) (contains a (conflicts_in rows b))
      (one_way rows all_rows a b) (one_way rows all_rows b a)

parse_conflict_matrix-has :
    (raw : Yaml) → OkHas (λ rows. IsSymmetric rows × IsComplete rows) (parse_conflict_matrix raw)
unfolding parse_conflict_matrix
parse_conflict_matrix-has raw = OkHas-after _ (as_mapping raw) _ λ m _.
    OkHas-after _ (traverse parse_matrix_row (pairs m)) _ λ rows _.
      require-then (all (has_row rows) table_lock_modes) _ _ λ complete.
        OkHas-bind _ _ (check_symmetric rows rows) _ (check_symmetric-Mutual rows rows)
          λ _ both. (rows-IsSymmetric rows both, all-All (has_row rows) table_lock_modes complete)

-- In a conflict matrix that is accepted, each table lock mode has a row, and of two modes each
-- conflicts with the other or neither does.
pub parse_conflict_matrix-IsSymmetric :
    (raw : Yaml) (rows : MatrixRows)
    → parse_conflict_matrix raw ≡ ok rows
    → IsSymmetric rows × IsComplete rows
parse_conflict_matrix-IsSymmetric raw rows e =
    ok-has (λ rs. IsSymmetric rs × IsComplete rs) (parse_conflict_matrix raw) rows e
      (parse_conflict_matrix-has raw)
