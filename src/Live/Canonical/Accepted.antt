-- ===== src/Live/Canonical/Accepted.antt =====
-- What live/model.py `_normalize` refuses.
use blastoise.Base.{◌≡◌, refl, Bool, true, false, ◌↔◌, Result, ok, raise, ◌>>=◌, Succeeds}
use blastoise.Live.Canonical.Values.{
  Key, text_key, other_key, Value, none_value, float_value, other_value, flag, integer, str_enum,
  text, dict, sequence, Entries, no_entries, entry, Values, no_values, value,
}
use blastoise.Live.Canonical.Normalize.{normalize, normalize_entries, normalize_values}

-- The first value stands in the second, at any depth.
mutual
  pub data Inside (w : Value) : Value → Type 0 where
    here : Inside w w
    in_dict : {es : Entries} → InEntries w es → Inside w (dict es)
    in_sequence : {vs : Values} → InValues w vs → Inside w (sequence vs)

  pub data InEntries (w : Value) : Entries → Type 0 where
    of_key : {k : Key} {v : Value} {es : Entries} → Inside w v → InEntries w (entry k v es)
    later_entry : {k : Key} {v : Value} {es : Entries} → InEntries w es → InEntries w (entry k v es)

  pub data InValues (w : Value) : Values → Type 0 where
    of_value : {v : Value} {vs : Values} → Inside w v → InValues w (value v vs)
    later_value : {v : Value} {vs : Values} → InValues w vs → InValues w (value v vs)

abbrev pub IsAccepted {ℓ} : {A : Type ℓ} → Result A → Type 0
IsAccepted m = Succeeds (λ _. Unit) m

first_step : {A B : Type 0} (m : Result A) (f : A → Result B) → IsAccepted (m >>= f) → IsAccepted m
first_step (ok a) f h = tt
first_step (raise e) f h = h

second_step :
    {A B C : Type 0} (m : Result A) (n : Result B) (f : A → B → Result C)
    → IsAccepted (m >>= λ a. n >>= f a)
    → IsAccepted n
second_step (ok a) n f h = first_step n (f a) h
second_step (raise e) n f h = absurd h

mutual
  unfolding normalize

  Inside-IsAccepted :
      (w v : Value) → Inside w v → IsAccepted (normalize v) → IsAccepted (normalize w)
  Inside-IsAccepted w v here h = h
  Inside-IsAccepted w (dict es) (in_dict i) h =
      InEntries-IsAccepted w es i (first_step (normalize_entries es) _ h)
  Inside-IsAccepted w (sequence vs) (in_sequence i) h =
      InValues-IsAccepted w vs i (first_step (normalize_values vs) _ h)

  InEntries-IsAccepted :
      (w : Value) (es : Entries)
      → InEntries w es
      → IsAccepted (normalize_entries es)
      → IsAccepted (normalize w)
  InEntries-IsAccepted w no_entries i h = elim i [ ]
  InEntries-IsAccepted w (entry other_key v es) (of_key i) h = absurd h
  InEntries-IsAccepted w (entry other_key v es) (later_entry i) h = absurd h
  InEntries-IsAccepted w (entry (text_key k) v es) (of_key i) h =
      Inside-IsAccepted w v i (first_step (normalize v) _ h)
  InEntries-IsAccepted w (entry (text_key k) v es) (later_entry i) h =
      InEntries-IsAccepted w es i (second_step (normalize v) (normalize_entries es) _ h)

  InValues-IsAccepted :
      (w : Value) (vs : Values)
      → InValues w vs
      → IsAccepted (normalize_values vs)
      → IsAccepted (normalize w)
  InValues-IsAccepted w no_values i h = elim i [ ]
  InValues-IsAccepted w (value v vs) (of_value i) h =
      Inside-IsAccepted w v i (first_step (normalize v) _ h)
  InValues-IsAccepted w (value v vs) (later_value i) h =
      InValues-IsAccepted w vs i (second_step (normalize v) (normalize_values vs) _ h)

abbrev text_keys : Entries → Bool
text_keys no_entries = true
text_keys (entry (text_key k) v es) = text_keys es
text_keys (entry other_key v es) = false

-- A value that is neither a float nor of an unknown type, and whose own keys are texts.
abbrev pub is_plain : Value → Bool
is_plain float_value = false
is_plain other_value = false
is_plain (dict es) = text_keys es
is_plain v = true

mutual
  unfolding normalize

  accepted-is_plain : (v : Value) → IsAccepted (normalize v) → is_plain v ≡ true
  accepted-is_plain float_value h = absurd h
  accepted-is_plain other_value h = absurd h
  accepted-is_plain none_value h = refl
  accepted-is_plain (flag b) h = refl
  accepted-is_plain (integer n) h = refl
  accepted-is_plain (str_enum t) h = refl
  accepted-is_plain (text t) h = refl
  accepted-is_plain (dict es) h = accepted-text_keys es (first_step (normalize_entries es) _ h)
  accepted-is_plain (sequence vs) h = refl

  accepted-text_keys : (es : Entries) → IsAccepted (normalize_entries es) → text_keys es ≡ true
  accepted-text_keys no_entries h = refl
  accepted-text_keys (entry other_key v es) h = absurd h
  accepted-text_keys (entry (text_key k) v es) h =
      accepted-text_keys es (second_step (normalize v) (normalize_entries es) _ h)

pub both_steps :
    {A B C : Type 0} (m : Result A) (n : Result B) (f : A → B → C)
    → IsAccepted m
    → IsAccepted n
    → IsAccepted (m >>= λ a. n >>= λ b. ok (f a b))
both_steps (ok a) (ok b) f h k = tt
both_steps (ok a) (raise e) f h k = k
both_steps (raise e) n f h k = h

pub one_step :
    {A B : Type 0} (m : Result A) (f : A → B) → IsAccepted m → IsAccepted (m >>= λ a. ok (f a))
one_step (ok a) f h = tt
one_step (raise e) f h = h

mutual
  unfolding normalize

  plain-IsAccepted :
      (v : Value) → ((w : Value) → Inside w v → is_plain w ≡ true) → IsAccepted (normalize v)
  plain-IsAccepted float_value h = let e : false ≡ true = h float_value here in cc
  plain-IsAccepted other_value h = let e : false ≡ true = h other_value here in cc
  plain-IsAccepted none_value h = tt
  plain-IsAccepted (flag b) h = tt
  plain-IsAccepted (integer n) h = tt
  plain-IsAccepted (str_enum t) h = tt
  plain-IsAccepted (text t) h = tt
  plain-IsAccepted (dict es) h =
      one_step (normalize_entries es) _
        (plain_entries-IsAccepted es (h (dict es) here) (λ w i. h w (in_dict i)))
  plain-IsAccepted (sequence vs) h =
      one_step (normalize_values vs) _ (plain_values-IsAccepted vs (λ w i. h w (in_sequence i)))

  plain_entries-IsAccepted :
      (es : Entries)
      → text_keys es ≡ true
      → ((w : Value) → InEntries w es → is_plain w ≡ true)
      → IsAccepted (normalize_entries es)
  plain_entries-IsAccepted no_entries k h = tt
  plain_entries-IsAccepted (entry other_key v es) k h = cc
  plain_entries-IsAccepted (entry (text_key t) v es) k h =
      both_steps (normalize v) (normalize_entries es) _ (plain-IsAccepted v (λ w i. h w (of_key i)))
        (plain_entries-IsAccepted es k (λ w i. h w (later_entry i)))

  plain_values-IsAccepted :
      (vs : Values)
      → ((w : Value) → InValues w vs → is_plain w ≡ true)
      → IsAccepted (normalize_values vs)
  plain_values-IsAccepted no_values h = tt
  plain_values-IsAccepted (value v vs) h =
      both_steps (normalize v) (normalize_values vs) _
        (plain-IsAccepted v (λ w i. h w (of_value i)))
        (plain_values-IsAccepted vs (λ w i. h w (later_value i)))

-- A value is accepted exactly where no value inside it, at any depth, is a float, is of an unknown
-- type, or has a key that is no text.
pub normalize-IsAccepted :
    (v : Value) → IsAccepted (normalize v) ↔ ((w : Value) → Inside w v → is_plain w ≡ true)
normalize-IsAccepted v =
    ((λ h w i. accepted-is_plain w (Inside-IsAccepted w v i h)), plain-IsAccepted v)
