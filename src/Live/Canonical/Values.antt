-- ===== src/Live/Canonical/Values.antt =====
-- What live/model.py `_normalize` is given, and the JSON values that it returns.
use blastoise.Base.{ℤ, Bool, Text}

-- A key of a dictionary: a text, or an object of another type.
pub data Key : Type 0 where
  text_key : Text → Key
  other_key : Key

-- A Python value. `str_enum` is a member of a `StrEnum` with its value, `other_value` an object of a
-- type that the serialiser does not know.
mutual
  pub data Value : Type 0 where
    none_value float_value other_value : Value
    flag : Bool → Value
    integer : ℤ → Value
    str_enum : Text → Value
    text : Text → Value
    dict : Entries → Value
    sequence : Values → Value

  pub data Entries : Type 0 where
    no_entries : Entries
    entry : Key → Value → Entries → Entries

  pub data Values : Type 0 where
    no_values : Values
    value : Value → Values → Values

mutual
  pub data Json : Type 0 where
    null : Json
    boolean : Bool → Json
    number : ℤ → Json
    string : Text → Json
    array : Items → Json
    object : Members → Json

  pub data Items : Type 0 where
    no_items : Items
    item : Json → Items → Items

  pub data Members : Type 0 where
    no_members : Members
    member : Text → Json → Members → Members
