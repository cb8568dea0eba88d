-- ===== src/Live/Canonical/Order.antt =====
-- `json.dumps` with `sort_keys`, and live/model.py `to_canonical_json`.
use blastoise.Base.{[], Text, Result, ok, ◌>>=◌, text_lt, if◌then◌else◌}
use blastoise.Live.Canonical.Values.{
  Value, Json, null, boolean, number, string, array, object, Items, no_items, item, Members,
  no_members, member,
}
use blastoise.Live.Canonical.Normalize.{normalize}
use blastoise.Live.Canonical.Print.{print}

-- A member at its place among members sorted by key.
unfoldable pub place_member : Text → Json → Members → Members
unfolding text_lt
place_member k j no_members = member k j no_members
place_member k j (member l i ms) =
    let later = place_member k j ms in
    if text_lt l k then member l i later else member k j (member l i ms)

unfoldable mutual
  unfolding place_member

  pub sort_keys : Json → Json
  sort_keys null = null
  sort_keys (boolean b) = boolean b
  sort_keys (number n) = number n
  sort_keys (string t) = string t
  sort_keys (array js) = array (sort_items js)
  sort_keys (object ms) = object (sort_members ms)

  pub sort_items : Items → Items
  sort_items no_items = no_items
  sort_items (item j js) = item (sort_keys j) (sort_items js)

  pub sort_members : Members → Members
  sort_members no_members = no_members
  sort_members (member k j ms) = place_member k (sort_keys j) (sort_members ms)

unfoldable pub dumps : Json → Text
unfolding sort_keys
dumps j = print (sort_keys j) []

-- The text that is hashed, of the value that `dataclasses.asdict` makes of a snapshot.
unfoldable pub to_canonical_json : Value → Result Text
unfolding dumps
to_canonical_json v = normalize v >>= λ j. ok (dumps j)
