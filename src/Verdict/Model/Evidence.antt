-- ===== src/Verdict/Model/Evidence.antt =====
-- verdict/model.py: evidence classes.
use blastoise.Base.{ℕ, List, min_by}

pub data Method : Type 0 where
  proven observed simulated unverified : Method

-- `_STRENGTH`
abbrev pub strength : Method → ℕ
strength proven = 3
strength observed = 2
strength simulated = 1
strength unverified = 0

-- `weakest_method(first, *rest)`.
unfoldable pub weakest_method : Method → List Method → Method
weakest_method first rest = min_by strength first rest
