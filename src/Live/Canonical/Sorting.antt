-- ===== src/Live/Canonical/Sorting.antt =====
-- `sort_keys`: the order of the keys of a dictionary does not matter.
use blastoise.Base.{
  ◌≡◌, ◌≢◌, refl, ap, ◌∙◌, true, false, ◌&&◌, [], ◌∷◌, Text, arith, text_lt, nat_beq, nat_beq_iff,
  ◌⊎◌, inl, inr, Bool-cases, all,
}
use blastoise.Live.Canonical.Values.{
  Json, array, object, Items, no_items, item, Members, no_members, member,
}
use blastoise.Live.Canonical.Print.{print}
use blastoise.Live.Canonical.Reading.{is_scalar}
use blastoise.Live.Canonical.Injective.{is_clean, are_clean, members_clean, print-injective}
use blastoise.Live.Canonical.Order.{place_member, sort_keys, sort_items, sort_members, dumps}

-- Of two texts one is the smaller.
abbrev Split : Text → Text → Type 0
Split k l =
    ((text_lt k l ≡ true) × (text_lt l k ≡ false)) ⊎ ((text_lt k l ≡ false) × (text_lt l k ≡ true))

lt-Split : (k l : Text) → k ≢ l → Split k l
unfolding text_lt
lt-Split [] [] h = absurd (h refl)
lt-Split [] (d ∷ ds) h = inl (refl, refl)
lt-Split (c ∷ cs) [] h = inr (refl, refl)
lt-Split (c ∷ cs) (d ∷ ds) h = elim (Bool-cases (nat_beq c d)) [
  | inl e ↦
      let same = (nat_beq_iff c d).0 e in
      let rest = lt-Split cs ds (λ x. h (cc (same, x))) in ground arith
  | inr e ↦ ground arith
]

lt-mix : (l x k : Text) → text_lt x l ≡ false → text_lt x k ≡ true → text_lt l k ≡ true
unfolding text_lt
lt-mix [] [] [] h e = ground arith
lt-mix [] [] (c ∷ cs) h e = refl
lt-mix [] (b ∷ bs) [] h e = ground arith
lt-mix [] (b ∷ bs) (c ∷ cs) h e = refl
lt-mix (a ∷ rest) [] k h e = ground arith
lt-mix (a ∷ rest) (b ∷ bs) [] h e = ground arith
lt-mix (a ∷ rest) (b ∷ bs) (c ∷ cs) h e = ground (arith, lt-mix rest bs cs)

-- Two members with two keys are placed in either order.
place_comm :
    (k l : Text) (i j : Json) (ms : Members)
    → k ≢ l
    → place_member k i (place_member l j ms) ≡ place_member l j (place_member k i ms)
unfolding place_member
place_comm k l i j no_members h = ground (arith, lt-Split k l h)
place_comm k l i j (member x o ms) h =
    ground (arith, lt-Split k l h, lt-mix l x k, lt-mix k x l, place_comm k l i j ms h)

-- Two JSON values that differ only by the order of members in objects. Two members change places where
-- their keys differ, as the keys of a dictionary do.
mutual
  pub data Reordered : Json → Json → Type 0 where
    same : {j : Json} → Reordered j j
    in_array : {js ks : Items} → ItemsReordered js ks → Reordered (array js) (array ks)
    in_object : {ms ns : Members} → MembersReordered ms ns → Reordered (object ms) (object ns)

  pub data ItemsReordered : Items → Items → Type 0 where
    no_more : ItemsReordered no_items no_items
    one :
        {j k : Json} {js ks : Items}
        → Reordered j k
        → ItemsReordered js ks
        → ItemsReordered (item j js) (item k ks)

  pub data MembersReordered : Members → Members → Type 0 where
    end : MembersReordered no_members no_members
    keep :
        {k : Text} {i j : Json} {ms ns : Members}
        → Reordered i j
        → MembersReordered ms ns
        → MembersReordered (member k i ms) (member k j ns)
    swap :
        {k l : Text} {i j : Json} {ms : Members}
        → k ≢ l
        → MembersReordered (member k i (member l j ms)) (member l j (member k i ms))
    chain :
        {ms ns os : Members}
        → MembersReordered ms ns
        → MembersReordered ns os
        → MembersReordered ms os

mutual
  unfolding sort_keys

  sort_keys-Reordered : {v w : Json} → Reordered v w → sort_keys v ≡ sort_keys w
  sort_keys-Reordered same = refl
  sort_keys-Reordered (in_array h) = ap array (sort_items-Reordered h)
  sort_keys-Reordered (in_object h) = ap object (sort_members-Reordered h)

  sort_items-Reordered : {js ks : Items} → ItemsReordered js ks → sort_items js ≡ sort_items ks
  sort_items-Reordered no_more = refl
  sort_items-Reordered (one h hs) = cc (sort_keys-Reordered h, sort_items-Reordered hs)

  sort_members-Reordered :
      {ms ns : Members} → MembersReordered ms ns → sort_members ms ≡ sort_members ns
  sort_members-Reordered end = refl
  sort_members-Reordered (keep h hs) = cc (sort_keys-Reordered h, sort_members-Reordered hs)
  sort_members-Reordered (swap {k} {l} {i} {j} {ms} h) =
      place_comm k l (sort_keys i) (sort_keys j) (sort_members ms) h
  sort_members-Reordered (chain h k) = sort_members-Reordered h ∙ sort_members-Reordered k

-- Two JSON values that differ only by the order of members in objects, whose keys differ, have one
-- text.
pub dumps-Reordered : (v w : Json) → Reordered v w → dumps v ≡ dumps w
unfolding dumps
dumps-Reordered v w h = ap (λ (j : Json). print j []) (sort_keys-Reordered h)

place_member-clean :
    (k : Text) (j : Json) (ms : Members)
    → members_clean (place_member k j ms) ≡ (all is_scalar k && (is_clean j && members_clean ms))
unfolding place_member
place_member-clean k j no_members = refl
place_member-clean k j (member l i ms) = ground (arith, place_member-clean k j ms)

mutual
  unfolding sort_keys

  sort_keys-clean : (j : Json) → is_clean (sort_keys j) ≡ is_clean j
  sort_keys-clean (array js) = sort_items-clean js
  sort_keys-clean (object ms) = sort_members-clean ms
  sort_keys-clean _ = refl

  sort_items-clean : (js : Items) → are_clean (sort_items js) ≡ are_clean js
  sort_items-clean no_items = refl
  sort_items-clean (item j js) = ground (arith, sort_keys-clean j, sort_items-clean js)

  sort_members-clean : (ms : Members) → members_clean (sort_members ms) ≡ members_clean ms
  sort_members-clean no_members = refl
  sort_members-clean (member k j ms) =
      place_member-clean k (sort_keys j) (sort_members ms)
      ∙ ground (arith, sort_keys-clean j, sort_members-clean ms)

-- Two JSON values of one text are one value, up to the order of members in objects, which `sort_keys`
-- fixes. No text of them may hold half of a code point alone.
pub dumps-injective :
    (v w : Json)
    → is_clean v ≡ true
    → is_clean w ≡ true
    → dumps v ≡ dumps w
    → sort_keys v ≡ sort_keys w
unfolding dumps
dumps-injective v w h k e =
    (print-injective (sort_keys v) (sort_keys w) [] [] (sort_keys-clean v ∙ h)
      (sort_keys-clean w ∙ k) tt tt e).0
