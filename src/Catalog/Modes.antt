-- ===== src/Catalog/Modes.antt =====
-- catalog/model.py: lock modes and their levels, and the other enumerations of a catalog row.
use blastoise.Base.{
  ℕ, ◌≡◌, refl, sym, ap, ◌∙◌, ◌↔◌, Bool, true, false, List, [], ◌∷◌, Comparable, nat_beq,
  nat_beq_iff,
}

-- `none_mode` is the member `NONE`, `unknown_mode` the member `UNKNOWN`.
pub data LockMode : Type 0 where
  access_share row_share row_exclusive : LockMode
  share_update_exclusive share share_row_exclusive : LockMode
  exclusive access_exclusive none_mode unknown_mode : LockMode

-- `_LOCK_LEVELS`, behind the property `level`.
abbrev pub level : LockMode → ℕ
level none_mode = 0
level access_share = 1
level row_share = 2
level row_exclusive = 3
level share_update_exclusive = 4
level share = 5
level share_row_exclusive = 6
level exclusive = 7
level access_exclusive = 8
level unknown_mode = 9

abbrev pub is_table_lock : LockMode → Bool
is_table_lock none_mode = false
is_table_lock unknown_mode = false
is_table_lock _ = true

-- `TABLE_LOCK_MODES`, in the order of the enumeration.
abbrev pub table_lock_modes : List LockMode
table_lock_modes =
    access_share ∷ row_share ∷ row_exclusive ∷ share_update_exclusive ∷ share ∷ share_row_exclusive
    ∷ exclusive ∷ access_exclusive ∷ []

-- Two modes are one where their levels agree.
abbrev of_level : ℕ → LockMode
of_level n = elim (nat_beq n 0) [
  | true ↦ none_mode
  | false ↦ elim (nat_beq n 1) [
    | true ↦ access_share
    | false ↦ elim (nat_beq n 2) [
      | true ↦ row_share
      | false ↦ elim (nat_beq n 3) [
        | true ↦ row_exclusive
        | false ↦ elim (nat_beq n 4) [
          | true ↦ share_update_exclusive
          | false ↦ elim (nat_beq n 5) [
            | true ↦ share
            | false ↦ elim (nat_beq n 6) [
              | true ↦ share_row_exclusive
              | false ↦ elim (nat_beq n 7) [
                | true ↦ exclusive
                | false ↦ elim (nat_beq n 8) [ true ↦ access_exclusive | false ↦ unknown_mode ]
              ]
            ]
          ]
        ]
      ]
    ]
  ]
]

of_level-level : (m : LockMode) → of_level (level m) ≡ m
of_level-level access_share = refl
of_level-level _ = refl

pub level-injective : (a b : LockMode) → level a ≡ level b → a ≡ b
level-injective a b h = sym (of_level-level a) ∙ ap of_level h ∙ of_level-level b

abbrev pub mode_beq : LockMode → LockMode → Bool
mode_beq a b = nat_beq (level a) (level b)

pub mode_beq_iff : (a b : LockMode) → (mode_beq a b ≡ true) ↔ (a ≡ b)
mode_beq_iff a b =
    (λ h. level-injective a b ((nat_beq_iff _ _).0 h), λ h. (nat_beq_iff _ _).1 (ap level h))

instance abbrev pub mode_eq : Comparable LockMode
mode_eq = record { same = mode_beq; same_iff = mode_beq_iff }

pub data DurationModel : Type 0 where
  constant proportional_to_rows proportional_to_index_size : DurationModel
  proportional_to_rows_matched unknown_duration : DurationModel

pub data Calibration : Type 0 where
  calibrated uncalibrated measured : Calibration

pub data TransactionBlock : Type 0 where
  allowed forbidden restricted : TransactionBlock

pub data WriteBlockScope : Type 0 where
  no_scope table_scope matched_rows_scope : WriteBlockScope

-- How a statement kind is mapped onto rows of the catalog.
pub data Resolution : Type 0 where
  direct per_action inner_statements : Resolution
