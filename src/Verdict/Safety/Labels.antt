-- ===== src/Verdict/Safety/Labels.antt =====
-- The two lookups of `_FileState` in verdict/engine.py: by a name, and by its rendered text.
use blastoise.Base.{
  ◌≡◌, refl, Bool, false, Option, some, none, [], ◌∷◌, ◌++◌, any, arith, Text, nat_beq, after_last,
  if◌then◌else◌,
}
use blastoise.Base.{after_last_from}
use blastoise.Ir.{label}
use blastoise.Verdict.Engine.{FileState, state_of, state_of_label}

abbrev pub has_dot : Text → Bool
has_dot text = any (λ c. nat_beq c b'.') text

after_last_from-without :
    (best text : Text) → has_dot text ≡ false → after_last_from b'.' best text ≡ best
unfolding after_last_from
after_last_from-without best [] h = refl
after_last_from-without best (c ∷ cs) h = ground (arith, after_last_from-without best cs)

after_last_from-append :
    (best front back : Text)
    → has_dot back ≡ false
    → after_last_from b'.' best (front ++ (b'.' ∷ back)) ≡ back
unfolding after_last_from
after_last_from-append best [] back h = after_last_from-without back back h
after_last_from-append best (c ∷ cs) back h =
    after_last_from-append (if nat_beq c b'.' then cs ++ (b'.' ∷ back) else best) cs back h

-- For a relation whose own name holds no dot, the lookup by the rendered text and the lookup by the
-- name agree, whatever the schema.
pub state_of_label-label :
    (st : FileState) (name : Text) (schema : Option Text)
    → has_dot name ≡ false
    → state_of_label st (some (label (record { name = name; schema = schema })))
      ≡ state_of st (some (record { name = name; schema = schema }))
unfolding state_of_label state_of label after_last
state_of_label-label st name none h = rw (after_last_from-without name name h) refl
state_of_label-label st name (some []) h = rw (after_last_from-without name name h) refl
state_of_label-label st name (some (c ∷ cs)) h =
    rw (after_last_from-append (c ∷ (cs ++ (b'.' ∷ name))) (c ∷ cs) name h) refl
