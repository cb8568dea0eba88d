-- ===== src/Live/Canonical/Normalize.antt =====
-- live/model.py `_normalize`.
use blastoise.Base.{Result, ok, raise, type_error, ◌>>=◌}
use blastoise.Live.Canonical.Values.{
  text_key, other_key, Value, none_value, float_value, other_value, flag, integer, str_enum, text,
  dict, sequence, Entries, no_entries, entry, Values, no_values, value, Json, null, boolean, number,
  string, array, object, Items, no_items, item, Members, no_members, member,
}

unfoldable mutual
  pub normalize : Value → Result Json
  normalize float_value = raise type_error
  normalize none_value = ok null
  normalize (flag b) = ok (boolean b)
  normalize (integer n) = ok (number n)
  normalize (str_enum t) = ok (string t)
  normalize (text t) = ok (string t)
  normalize (dict es) = normalize_entries es >>= λ ms. ok (object ms)
  normalize (sequence vs) = normalize_values vs >>= λ js. ok (array js)
  normalize other_value = raise type_error

  pub normalize_entries : Entries → Result Members
  normalize_entries no_entries = ok no_members
  normalize_entries (entry other_key v es) = raise type_error
  normalize_entries (entry (text_key k) v es) =
      normalize v >>= λ j. normalize_entries es >>= λ ms. ok (member k j ms)

  pub normalize_values : Values → Result Items
  normalize_values no_values = ok no_items
  normalize_values (value v vs) = normalize v >>= λ j. normalize_values vs >>= λ js. ok (item j js)
