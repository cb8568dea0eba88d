-- ===== src/Live/Canonical/Leads.antt =====
-- The first character that `json.dumps` writes tells the type of a value.
use blastoise.Base.{
  ℕ, suc, ◌≡◌, ◌≢◌, refl, sym, ap, ◌∙◌, Bool, true, false, [], ◌∷◌, Text, if◌then◌else◌, arith, pos,
  negsuc, is_digit,
}
use blastoise.Live.Canonical.Values.{
  Json, null, boolean, number, string, array, object, Items, no_items, item, Members, no_members,
  member,
}
use blastoise.Live.Canonical.Numbers.{print_natural}
use blastoise.Live.Canonical.Escape.{print_text}
use blastoise.Live.Canonical.Print.{separate, print, print_items, print_members}
use blastoise.Live.Canonical.Pieces.{Ends, first_digit}

-- The first character, one for all digits.
unfoldable pub lead : Text → ℕ
unfolding is_digit
lead [] = 0
lead (c ∷ cs) = if is_digit c then b'0' else c

abbrev pub lead_of : Json → ℕ
lead_of null = b'n'
lead_of (boolean b) = if b then b't' else b'f'
lead_of (number (pos n)) = b'0'
lead_of (number (negsuc n)) = b'-'
lead_of (string t) = b'"'
lead_of (array js) = b'['
lead_of (object ms) = b'{'

lead-print_natural : (n : ℕ) (r : Text) → lead (print_natural n r) ≡ b'0'
unfolding lead print_natural
lead-print_natural n r = let (c, t, e, d) = first_digit (suc n) n r (omega arith) in rw (e, d) refl

pub lead-print : (j : Json) (r : Text) → lead (print j r) ≡ lead_of j
unfolding print lead
lead-print null r = refl
lead-print (boolean true) r = refl
lead-print (boolean false) r = refl
lead-print (number (pos n)) r = lead-print_natural n r
lead-print (number (negsuc n)) r = refl
lead-print (string t) r = refl
lead-print (array js) r = refl
lead-print (object ms) r = refl

-- Values of two types are not written alike.
pub print-differ : (v w : Json) (r s : Text) → lead_of v ≢ lead_of w → print v r ≢ print w s
print-differ v w r s h e = h (sym (lead-print v r) ∙ ap lead e ∙ lead-print w s)

pub Ends-items : (js : Items) (r : Text) → Ends (print_items false js r)
unfolding print is_digit
Ends-items no_items r = refl
Ends-items (item j js) r = refl

pub Ends-members : (ms : Members) (r : Text) → Ends (print_members false ms r)
unfolding print is_digit
Ends-members no_members r = refl
Ends-members (member k j ms) r = refl

lead_of-open : (j : Json) → lead_of j ≢ b']'
lead_of-open null = ground arith
lead_of-open (number (pos n)) = ground arith
lead_of-open (number (negsuc n)) = ground arith
lead_of-open _ = ground arith

-- An item in front is not the end of an array, nor a member the end of an object.
pub items-open :
    (first : Bool) (j : Json) (js : Items) (r s : Text)
    → separate first (print j (print_items false js r)) ≢ b']' ∷ s
unfolding lead
items-open true j js r s e =
    lead_of-open j (sym (lead-print j (print_items false js r)) ∙ ap lead e)
items-open false j js r s e = ground arith

pub members-open : (first : Bool) (k t s : Text) → separate first (print_text k t) ≢ b'}' ∷ s
unfolding print_text
members-open true k t s e = ground arith
members-open false k t s e = ground arith
