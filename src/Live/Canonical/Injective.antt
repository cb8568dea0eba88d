-- ===== src/Live/Canonical/Injective.antt =====
-- The text of a JSON value tells the value.
use blastoise.Base.{
  suc, ◌≡◌, refl, sym, ap, Bool, true, false, ◌∷◌, Text, arith, pos, negsuc, ◌&&◌, all,
}
use blastoise.Live.Canonical.Values.{
  Json, null, boolean, number, string, array, object, Items, no_items, item, Members, no_members,
  member,
}
use blastoise.Live.Canonical.Numbers.{print_number}
use blastoise.Live.Canonical.Print.{separate, print, print_items, print_members}
use blastoise.Live.Canonical.Reading.{is_scalar}
use blastoise.Live.Canonical.Pieces.{Agree, Ends, print_text-injective, print_natural-injective}
use blastoise.Live.Canonical.Leads.{
  print-differ, Ends-items, Ends-members, items-open, members-open,
}

-- No text of the value holds half of a code point.
abbrev mutual
  pub is_clean : Json → Bool
  is_clean (string t) = all is_scalar t
  is_clean (array js) = are_clean js
  is_clean (object ms) = members_clean ms
  is_clean _ = true

  pub are_clean : Items → Bool
  are_clean no_items = true
  are_clean (item j js) = is_clean j && are_clean js

  pub members_clean : Members → Bool
  members_clean no_members = true
  members_clean (member k j ms) = all is_scalar k && (is_clean j && members_clean ms)

both : (a b : Bool) → (a && b) ≡ true → (a ≡ true) × (b ≡ true)
both a b h = ground arith

separated : (first : Bool) (t u : Text) → separate first t ≡ separate first u → t ≡ u
separated true t u e = e
separated false t u e = cc

mutual
  unfolding print print_number

  pub print-injective :
      (v w : Json) (r s : Text)
      → is_clean v ≡ true
      → is_clean w ≡ true
      → Ends r
      → Ends s
      → print v r ≡ print w s
      → Agree v w r s
  print-injective null null r s h k er es e = (refl, cc)
  print-injective (boolean true) (boolean true) r s h k er es e = (refl, cc)
  print-injective (boolean false) (boolean false) r s h k er es e = (refl, cc)
  print-injective (number (pos n)) (number (pos m)) r s h k er es e =
      let same = print_natural-injective n m r s er es e in
      (ap (λ x. number (pos x)) same.0, same.1)
  print-injective (number (negsuc n)) (number (negsuc m)) r s h k er es e =
      let same = print_natural-injective (suc n) (suc m) r s er es (cc) in (cc (same.0), same.1)
  print-injective (string t) (string u) r s h k er es e =
      let same = print_text-injective t u r s h k e in (ap string same.0, same.1)
  print-injective (array js) (array ks) r s h k er es e =
      let same = print_items-injective true js ks r s h k (cc) in (ap array same.0, same.1)
  print-injective (object ms) (object ns) r s h k er es e =
      let same = print_members-injective true ms ns r s h k (cc) in (ap object same.0, same.1)
  print-injective v w r s h k er es e = absurd (print-differ v w r s (ground arith) e)

  print_items-injective :
      (first : Bool) (js ks : Items) (r s : Text)
      → are_clean js ≡ true
      → are_clean ks ≡ true
      → print_items first js r ≡ print_items first ks s
      → Agree js ks r s
  print_items-injective first no_items no_items r s h k e = (refl, cc)
  print_items-injective first no_items (item j ks) r s h k e =
      absurd (items-open first j ks s r (sym e))
  print_items-injective first (item j js) no_items r s h k e = absurd (items-open first j js r s e)
  print_items-injective first (item j js) (item l ks) r s h k e =
      let same =
        print-injective j l (print_items false js r) (print_items false ks s) (ground arith)
          (ground arith) (Ends-items js r) (Ends-items ks s) (separated first _ _ e) in
      let rest = print_items-injective false js ks r s (ground arith) (ground arith) same.1 in
      (cc (same.0, rest.0), rest.1)

  print_members-injective :
      (first : Bool) (ms ns : Members) (r s : Text)
      → members_clean ms ≡ true
      → members_clean ns ≡ true
      → print_members first ms r ≡ print_members first ns s
      → Agree ms ns r s
  print_members-injective first no_members no_members r s h k e = (refl, cc)
  print_members-injective first no_members (member l j ns) r s h k e =
      absurd (members-open first l _ r (sym e))
  print_members-injective first (member l j ms) no_members r s h k e =
      absurd (members-open first l _ s e)
  print_members-injective first (member l j ms) (member l' i ns) r s h k e =
      let (lc, hc) = both (all is_scalar l) (is_clean j && members_clean ms) h in
      let (jc, mc) = both (is_clean j) (members_clean ms) hc in
      let (lc', kc) = both (all is_scalar l') (is_clean i && members_clean ns) k in
      let (ic, nc) = both (is_clean i) (members_clean ns) kc in
      let key =
        print_text-injective l l' (b':' ∷ print j (print_members false ms r))
          (b':' ∷ print i (print_members false ns s)) lc lc' (separated first _ _ e) in
      let same =
        print-injective j i (print_members false ms r) (print_members false ns s) jc ic
          (Ends-members ms r) (Ends-members ns s) (cc (key.1)) in
      let rest = print_members-injective false ms ns r s mc nc same.1 in
      (cc (key.0, same.0, rest.0), rest.1)
