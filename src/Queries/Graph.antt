-- ===== src/Queries/Graph.antt =====
-- backend/app/query_engine/semantic_plan.py, `_validate_relationship_graph`: that the relationships of a
-- plan connect its entities as a tree. The `while` loops run on fuel, with an error of their own.
pub mod Parents
pub mod Linked
pub mod United
pub mod Acyclic
pub mod Neighbours
pub mod Visiting
pub mod Adding
pub mod Tree
pub mod Joinable
use queryops_ai.Prelude.{
  ℕ, zero, suc, ◌-◌, ◌*◌, String, Bool, true, false, not, ◌&&◌, ◌==◌, Option, none, some, List, [],
  ◌∷◌, ◌++◌, map, str_eq, if◌then◌else◌, length, all, contains, select,
}
use queryops_ai.Prelude.Sorting.{sort_by, str_le, distinct}
use queryops_ai.Prelude.Results.{Result, ok, err, require, ◌>>=◌, ◌>>◌}
use queryops_ai.Queries.Joins.{SemanticRelationship, SemanticRelationshipIntent, by_key, same_set}

-- The codes of `SemanticPlanValidationError`, `d[key]` of a missing key, `min` of nothing, and a loop that
-- has used up its fuel.
pub data Halt : Type 0 where
  relationship_unused relationship_graph_cycle relationship_graph_disconnected : Halt
  relationship_graph_not_tree empty_min still_running : Halt
  key_error : String → Halt

-- A dict, and `d[key]`
abbrev pub Mapping {ℓ} : Type ℓ → Type ℓ
Mapping A = String → Option A

abbrev pub item_at {ℓ} : {A : Type ℓ} → String → Option A → Result Halt A
item_at k none = err (key_error k)
item_at k (some x) = ok x

-- `d[key] = value`
abbrev pub set_item {ℓ} : {A : Type ℓ} → Mapping A → String → A → Mapping A
set_item d k v x = if str_eq k x then some v else d x

abbrev pub Parent : Type 0
Parent = Mapping String

-- `find`, with its path halving
unfoldable pub find : ℕ → Parent → String → Result Halt (Parent × String)
find zero parent entity_id = err still_running
find (suc n) parent entity_id = do
  above ← item_at entity_id (parent entity_id)
  elim (str_eq above entity_id) [
    | true ↦ ok (parent, entity_id)
    | false ↦ do
      higher ← item_at above (parent above)
      find n (set_item parent entity_id higher) higher
  ]

-- The step of the first loop on `parent`
unfoldable pub unite : ℕ → Parent → String × String → Result Halt Parent
unite fuel parent (from_entity, to_entity) = do
  (parent, left) ← find fuel parent from_entity
  (parent, right) ← find fuel parent to_entity
  if str_eq left right then err relationship_graph_cycle else ok (set_item parent left right)

-- The dict of sets of neighbours. A set is a list without repetitions, which only `sorted` looks through.
abbrev pub Adjacency : Type 0
Adjacency = Mapping (List String)

-- `set.add`
abbrev pub add_to : String → List String → List String
add_to x xs = if contains x xs then xs else x ∷ xs

unfoldable pub connect : Adjacency → String × String → Result Halt Adjacency
connect adjacency (from_entity, to_entity) = do
  ends ← item_at from_entity (adjacency from_entity)
  let adjacency = set_item adjacency from_entity (add_to to_entity ends)
  ends ← item_at to_entity (adjacency to_entity)
  ok (set_item adjacency to_entity (add_to from_entity ends))

-- `relationships[intent.relationship_id]`, with the ends of it
unfoldable pub ends_of :
    List SemanticRelationship → SemanticRelationshipIntent → Result Halt (String × String)
unfolding by_key
ends_of relationships intent = do
  relationship ←
      item_at intent.relationship_id
        (by_key (λ (r : SemanticRelationship). r.id) relationships intent.relationship_id)
  ok (relationship.from_entity, relationship.to_entity)

-- The first loop
unfoldable pub add_edges :
    ℕ
    → List SemanticRelationship
    → List SemanticRelationshipIntent
    → Parent
    → Adjacency
    → Result Halt Adjacency
add_edges fuel relationships [] parent adjacency = ok adjacency
add_edges fuel relationships (intent ∷ intents) parent adjacency = do
  ends ← ends_of relationships intent
  parent ← unite fuel parent ends
  adjacency ← connect adjacency ends
  add_edges fuel relationships intents parent adjacency

-- The second loop, with the end of `frontier` first
unfoldable pub visit : ℕ → Adjacency → List String → List String → Result Halt (List String)
visit n adjacency visited [] = ok visited
visit zero adjacency visited (current ∷ frontier) = err still_running
visit (suc n) adjacency visited (current ∷ frontier) = elim (contains current visited) [
  | true ↦ visit n adjacency visited frontier
  | false ↦ do
    next ← item_at current (adjacency current)
    let visited = current ∷ visited
    visit n adjacency visited
        (sort_by str_le (select (λ x. not (contains x visited)) next) ++ frontier)
]

-- `min(entity_ids)`
abbrev pub smallest : String → List String → String
smallest x [] = x
smallest x (y ∷ ys) = smallest (if str_le x y then x else y) ys

abbrev pub min_of : List String → Result Halt String
min_of [] = err empty_min
min_of (x ∷ xs) = ok (smallest x xs)

abbrev pub each_alone : List String → Parent
each_alone entity_ids x = if contains x entity_ids then some x else none

abbrev pub no_neighbours : List String → Adjacency
no_neighbours entity_ids x = if contains x entity_ids then some [] else none

-- `len(relationships)`, of the dict of relationships by their ids
abbrev pub relationship_count : List SemanticRelationship → ℕ
relationship_count relationships =
    length (distinct (map (λ (r : SemanticRelationship). r.id) relationships))

unfoldable pub validate_relationship_graph :
    List String
    → List SemanticRelationshipIntent
    → List SemanticRelationship
    → Result Halt (Unit {0})
validate_relationship_graph entity_ids relationship_intents relationships =
    if length entity_ids == 1
    then require (relationship_count relationships == 0) relationship_unused
    else do
      adjacency ←
          add_edges (suc (length relationship_intents)) relationships relationship_intents
            (each_alone entity_ids) (no_neighbours entity_ids)
      start ← min_of entity_ids
      visited ← visit (suc (2 * length relationship_intents)) adjacency [] (start ∷ [])
      require (same_set visited entity_ids) relationship_graph_disconnected
      require (relationship_count relationships == length entity_ids - 1)
          relationship_graph_not_tree
