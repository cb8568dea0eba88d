-- ===== src/Live/Canonical/Print.antt =====
-- `json.dumps` with the separators `,` and `:`, without blanks: a value in front of the rest.
use blastoise.Base.{Bool, true, false, ◌∷◌, Text, if◌then◌else◌}
use blastoise.Live.Canonical.Values.{
  Json, null, boolean, number, string, array, object, Items, no_items, item, Members, no_members,
  member,
}
use blastoise.Live.Canonical.Escape.{print_text}
use blastoise.Live.Canonical.Numbers.{print_number}

-- A comma in front of all but the first.
abbrev pub separate : Bool → Text → Text
separate first rest = if first then rest else b',' ∷ rest

unfoldable mutual
  unfolding print_text print_number

  pub print : Json → Text → Text
  print null rest = b'n' ∷ b'u' ∷ b'l' ∷ b'l' ∷ rest
  print (boolean true) rest = b't' ∷ b'r' ∷ b'u' ∷ b'e' ∷ rest
  print (boolean false) rest = b'f' ∷ b'a' ∷ b'l' ∷ b's' ∷ b'e' ∷ rest
  print (number n) rest = print_number n rest
  print (string t) rest = print_text t rest
  print (array js) rest = b'[' ∷ print_items true js rest
  print (object ms) rest = b'{' ∷ print_members true ms rest

  pub print_items : Bool → Items → Text → Text
  print_items first no_items rest = b']' ∷ rest
  print_items first (item j js) rest = separate first (print j (print_items false js rest))

  pub print_members : Bool → Members → Text → Text
  print_members first no_members rest = b'}' ∷ rest
  print_members first (member k j ms) rest =
      separate first (print_text k (b':' ∷ print j (print_members false ms rest)))
