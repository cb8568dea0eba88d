-- ===== src/Classify/Plpgsql.antt =====
-- classify.py: the statements in the body of a DO block.
use blastoise.Base.{
  ℕ, ◌+◌, Bool, true, false, ◌||◌, Option, some, none, List, [], ◌∷◌, ◌++◌, Text, codes,
  if◌then◌else◌, ◌==◌, list_eq, nat_eq,
}
use blastoise.Sql.{
  Pglast, accepted, refused, RawStmt, Json, JsonItems, Members, scalar, json_number, json_text,
  json_array, json_object, no_items, item, no_members, member,
}
use blastoise.Classify.Visitors.{visit, is_probe}

-- `dict.get`: `none` where the key is missing.
unfoldable pub get : Text → Members → Option Json
get key no_members = none
get key (member k v ms) = if k == key then some v else get key ms

-- The text of a value, where it is one.
abbrev text_of : Option Json → Option Text
text_of (some (json_text t)) = some t
text_of _ = none

abbrev object_of : Option Json → Members
object_of (some (json_object ms)) = ms
object_of _ = no_members

-- `condition_text`.
unfoldable pub condition_text : Option Json → Option Text
condition_text node =
    text_of (get (codes "query") (object_of (get (codes "PLpgSQL_expr") (object_of node))))

-- The loop over the statements of a parsed condition.
unfoldable pub any_probe : List RawStmt → Bool
any_probe [] = false
any_probe (raw ∷ raws) =
    (elim raw.stmt [ none ↦ false | some stmt ↦ visit is_probe raw.tree ]) || any_probe raws

-- `_condition_probes_catalog`.
unfoldable pub condition_probes_catalog : Pglast → Text → Bool
unfolding any_probe
condition_probes_catalog pglast condition = elim (pglast.parse_sql (codes "SELECT " ++ condition)) [
  | refused error ↦ false
  | accepted raw ↦ any_probe raw
]

abbrev probes : Pglast → Option Text → Bool
probes pglast none = false
probes pglast (some condition) = condition_probes_catalog pglast condition

abbrev elsif_of : Json → Option Members
elsif_of (json_object ms) = elim (get (codes "PLpgSQL_if_elsif") ms) [
  | some (json_object inner) ↦ some inner
  | _ ↦ none
]
elsif_of _ = none

-- Some condition of the ELSIF list probes the catalog.
unfoldable pub elsif_probes : Pglast → JsonItems → Bool
elsif_probes pglast no_items = false
elsif_probes pglast (item j js) =
    (elim (elsif_of j) [
      | none ↦ false
      | some inner ↦ probes pglast (condition_text (get (codes "cond") inner))
    ])
    || elsif_probes pglast js

abbrev items_of : Option Json → JsonItems
items_of (some (json_array js)) = js
items_of _ = no_items

-- Some condition of the chain of an IF probes the catalog.
unfoldable pub chain_probes : Pglast → Members → Bool
unfolding elsif_probes
chain_probes pglast if_node =
    probes pglast (condition_text (get (codes "cond") if_node))
    || elsif_probes pglast (items_of (get (codes "elsif_list") if_node))

-- What the walk collects: texts of statements, each with the flag that a condition guards it, and
-- the number of dynamic statements.
abbrev pub Collected : Type 0
Collected = List (Text × Bool) × ℕ

abbrev pub nothing : Collected
nothing = ([], 0)

abbrev pub join : Collected → Collected → Collected
join (xs, m) (ys, n) = (xs ++ ys, m + n)

-- `value.get("parseMode", 0) == 0`.
abbrev mode_zero : Option Json → Bool
mode_zero none = true
mode_zero (some (json_number n)) = n == 0
mode_zero (some _) = false

-- The text of an expression that is a whole statement.
unfoldable pub expression_entry : Members → Bool → List (Text × Bool)
expression_entry ms guarded = elim (text_of (get (codes "query") ms)) [
  | none ↦ []
  | some query ↦ if mode_zero (get (codes "parseMode") ms) then (query, guarded) ∷ [] else []
]

abbrev pick : Bool → Collected → Collected
pick b c = if b then c else nothing

abbrev counts : Text → Collected
counts key = if key == codes "PLpgSQL_stmt_dynexecute" then ([], 1) else nothing

abbrev if_key : Text
if_key = codes "PLpgSQL_stmt_if"

abbrev expr_key : Text
expr_key = codes "PLpgSQL_expr"

-- `walk`, and `walk_if` in the first clause of `walk_entry`. `walk_member` walks the value of a key,
-- and the last three walk the bodies of an ELSIF list.
module _ (pglast : Pglast) where
  unfoldable mutual
    pub walk : Json → Bool → Collected
    walk (json_object ms) guarded = walk_members ms guarded
    walk (json_array js) guarded = walk_items js guarded
    walk scalar guarded = nothing
    walk (json_number n) guarded = nothing
    walk (json_text t) guarded = nothing

    pub walk_members : Members → Bool → Collected
    walk_members no_members guarded = nothing
    walk_members (member k v ms) guarded = join (walk_entry k v guarded) (walk_members ms guarded)

    pub walk_items : JsonItems → Bool → Collected
    walk_items no_items guarded = nothing
    walk_items (item j js) guarded = join (walk j guarded) (walk_items js guarded)

    pub walk_entry : Text → Json → Bool → Collected
    walk_entry k (json_object ms) guarded =
        let chain = guarded || chain_probes pglast ms in
        let branches =
          join (walk_member (codes "then_body") ms chain)
            (join (walk_member (codes "else_body") ms chain) (walk_elsif_list ms chain)) in
        let inside = walk_members ms guarded in
        if k == if_key
        then branches
        else if k == expr_key
        then (expression_entry ms guarded, 0)
        else join (counts k) inside
    walk_entry k (json_array js) guarded = join (counts k) (walk_items js guarded)
    walk_entry k scalar guarded = counts k
    walk_entry k (json_number n) guarded = counts k
    walk_entry k (json_text t) guarded = counts k

    pub walk_member : Text → Members → Bool → Collected
    walk_member key no_members guarded = nothing
    walk_member key (member k v ms) guarded =
        let here = walk v guarded in
        let later = walk_member key ms guarded in if k == key then here else later

    pub walk_elsif_list : Members → Bool → Collected
    walk_elsif_list no_members guarded = nothing
    walk_elsif_list (member k v ms) guarded =
        let here = walk_elsifs v guarded in
        let later = walk_elsif_list ms guarded in if k == codes "elsif_list" then here else later

    pub walk_elsifs : Json → Bool → Collected
    walk_elsifs (json_array js) guarded = walk_elsif_items js guarded
    walk_elsifs _ guarded = nothing

    pub walk_elsif_items : JsonItems → Bool → Collected
    walk_elsif_items no_items guarded = nothing
    walk_elsif_items (item (json_object ms) js) guarded =
        join (walk_elsif ms guarded) (walk_elsif_items js guarded)
    walk_elsif_items (item j js) guarded = walk_elsif_items js guarded

    pub walk_elsif : Members → Bool → Collected
    walk_elsif no_members guarded = nothing
    walk_elsif (member k (json_object inner) ms) guarded =
        let here = walk_member (codes "stmts") inner guarded in
        let later = walk_elsif ms guarded in if k == codes "PLpgSQL_if_elsif" then here else later
    walk_elsif (member k v ms) guarded =
        let later = walk_elsif ms guarded in
        if k == codes "PLpgSQL_if_elsif" then nothing else later

-- `_collect_plpgsql_queries`.
unfoldable pub collect_plpgsql_queries : Pglast → Json → Collected
unfolding walk chain_probes expression_entry
collect_plpgsql_queries pglast tree = walk pglast tree false
