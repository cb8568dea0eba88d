-- ===== src/Live/Canonical/Numbers.antt =====
-- `json.dumps` of an integer: its decimal digits, in front of the rest.
use blastoise.Base.{ℕ, zero, suc, ◌+◌, ◌/◌, ◌%◌, ℤ, pos, negsuc, ltb, ◌∷◌, Text, if◌then◌else◌}

-- Each round takes the last digit. A number has fewer digits than it counts, so that the number
-- itself is enough fuel.
unfoldable pub digits : ℕ → ℕ → Text → Text
digits zero n rest = rest
digits (suc fuel) n rest =
    let more = digits fuel (n / 10) ((b'0' + n % 10) ∷ rest) in
    if ltb n 10 then (b'0' + n) ∷ rest else more

unfoldable pub print_natural : ℕ → Text → Text
unfolding digits
print_natural n rest = digits (suc n) n rest

unfoldable pub print_number : ℤ → Text → Text
unfolding print_natural
print_number (pos n) rest = print_natural n rest
print_number (negsuc n) rest = b'-' ∷ print_natural (suc n) rest
