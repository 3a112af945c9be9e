-- ===== src/Queries/Joins.antt =====
-- backend/app/query_engine/relational_semantics.py: the order in which a plan's relationships are
-- joined, and what the declared cardinalities say of the rows. Of a plan, the entities and the
-- relationships; of a domain pack, what these functions read.
pub mod Sequence
pub mod Greedy
pub mod Order
pub mod Population
pub mod Nullable
pub mod Inner
use queryops_ai.Prelude.{
  ℕ, zero, suc, String, Bool, true, false, not, ◌&&◌, ◌||◌, Option, none, some, List, [], ◌∷◌,
  str_eq, if◌then◌else◌, length, all, contains, find_first,
}
use queryops_ai.Prelude.Sorting.{sort_by, str_le}
use queryops_ai.Prelude.Results.{Result, ok, err, ◌>>=◌}

pub data Cardinality : Type 0 where
  many_to_one one_to_one : Cardinality

pub data JoinType : Type 0 where
  inner left left_reverse : JoinType

pub record SemanticEntity : Type 0 where
  pub id : String
  pub table : String

pub record SemanticRelationship : Type 0 where
  pub id : String
  pub from_entity : String
  pub from_column : String
  pub to_entity : String
  pub to_column : String
  pub cardinality : Cardinality
  pub optional : Bool
  pub description : String

pub record SemanticRelationshipIntent : Type 0 where
  pub relationship_id : String
  pub join_type : JoinType

pub record SemanticFieldRef : Type 0 where
  pub entity_id : String
  pub column : String

pub record SemanticPlan : Type 0 where
  pub entity_ids : List String
  pub relationships : List SemanticRelationshipIntent

pub record DomainColumn : Type 0 where
  pub name : String
  pub nullable : Bool

pub record DomainTable : Type 0 where
  pub name : String
  pub columns : List DomainColumn

pub record DomainPack : Type 0 where
  pub tables : List DomainTable
  pub entities : List SemanticEntity
  pub relationships : List SemanticRelationship

-- `d[key]` of a key that is not there raises.
pub data KeyError : Type 0 where
  key_error : String → KeyError

-- `{item.id: item for item in items}.get(key)`: the last item of an id is kept.
unfoldable pub by_key {ℓ} : {A : Type ℓ} → (A → String) → List A → String → Option A
by_key id [] k = none
by_key id (x ∷ xs) k = elim (by_key id xs k) [
  | some y ↦ some y
  | none ↦ if str_eq (id x) k then some x else none
]

abbrev pub item_of {ℓ} : {A : Type ℓ} → String → Option A → Result KeyError A
item_of k none = err (key_error k)
item_of k (some x) = ok x

-- A selected relationship with the join type of its intent.
pub record Edge : Type 0 where
  pub relationship : SemanticRelationship
  pub join_type : JoinType

-- An edge with the entity that it adds.
pub record Join : Type 0 where
  pub edge : Edge
  pub added : String

unfoldable pub select_edges :
    List SemanticRelationship → List SemanticRelationshipIntent → Result KeyError (List Edge)
unfolding by_key
select_edges relationships [] = ok []
select_edges relationships (i ∷ is) = do
  relationship ←
      item_of i.relationship_id
        (by_key (λ (r : SemanticRelationship). r.id) relationships i.relationship_id)
  edges ← select_edges relationships is
  ok (record { relationship = relationship; join_type = i.join_type } ∷ edges)

-- The test on an edge, by its join type and by which of its ends are available.
abbrev pub may_join : JoinType → Bool → Bool → Bool
may_join JoinType.left source target = source && not target
may_join JoinType.left_reverse source target = target && not source
may_join JoinType.inner source target = if source then not target else target

abbrev pub is_joinable : List String → Edge → Bool
is_joinable available e =
    may_join e.join_type (contains e.relationship.from_entity available)
      (contains e.relationship.to_entity available)

abbrev pub added_by : List String → Edge → String
added_by available e =
    if contains e.relationship.from_entity available
    then e.relationship.to_entity
    else e.relationship.from_entity

abbrev pub keep_before {ℓ} : {A : Type ℓ} → A → Option (A × List A) → Option (A × List A)
keep_before x none = none
keep_before x (some (y, ys)) = some (y, x ∷ ys)

-- The first item that passes the test, and the others in their order.
pub pop_first {ℓ} : {A : Type ℓ} → (A → Bool) → List A → Option (A × List A)
pop_first test [] = none
pop_first test (x ∷ xs) =
    let later = keep_before x (pop_first test xs) in if test x then some (x, xs) else later

-- What the `while` loop leaves.
pub record Progress : Type 0 where
  pub ordered : List Join
  pub pending : List Edge
  pub available : List String

-- Every round of the loop takes one edge off the pending ones, so their number bounds the rounds.
pub join_loop : ℕ → List String → List Edge → Progress
join_loop zero available pending = record { ordered = []; pending = pending; available = available }
join_loop (suc n) available pending = elim (pop_first (is_joinable available) pending) [
  | none ↦ record { ordered = []; pending = pending; available = available }
  | some (e, rest) ↦
      let a = added_by available e in
      let later = join_loop n (a ∷ available) rest in
      record later { ordered = record { edge = e; added = a } ∷ later.ordered }
]

abbrev pub same_set : List String → List String → Bool
same_set xs ys = all (λ x. contains x ys) xs && all (λ y. contains y xs) ys

abbrev pub edge_le : Edge → Edge → Bool
edge_le a b = str_le a.relationship.id b.relationship.id

-- One root: the joins, if they reach everything.
pub order_from : List String → List Edge → String → Option (List Join)
unfolding join_loop
order_from entity_ids selected root =
    let pending = sort_by edge_le selected in
    let end = join_loop (length pending) (root ∷ []) pending in
    elim end.pending [
      | [] ↦ if same_set end.available entity_ids then some end.ordered else none
      | _ ∷ _ ↦ none
    ]

pub first_order : List String → List Edge → List String → Option (String × List Join)
first_order entity_ids selected [] = none
first_order entity_ids selected (root ∷ roots) = elim (order_from entity_ids selected root) [
  | some joins ↦ some (root, joins)
  | none ↦ first_order entity_ids selected roots
]

unfoldable pub selected_join_order :
    SemanticPlan → DomainPack → Result KeyError (Option (String × List Join))
unfolding select_edges first_order order_from join_loop pop_first by_key
selected_join_order plan pack = do
  selected ← select_edges pack.relationships plan.relationships
  ok (first_order plan.entity_ids selected (sort_by str_le plan.entity_ids))

abbrev pub is_outer : JoinType → Bool
is_outer JoinType.inner = false
is_outer _ = true

abbrev pub column_is_non_null : Option DomainColumn → Bool
column_is_non_null none = false
column_is_non_null (some column) = not column.nullable

-- The column of the field in the table of its entity.
unfoldable pub column_of : SemanticFieldRef → DomainPack → Result KeyError (Option DomainColumn)
unfolding by_key
column_of field pack = do
  entity ←
      item_of field.entity_id (by_key (λ (e : SemanticEntity). e.id) pack.entities field.entity_id)
  table ← item_of entity.table (by_key (λ (t : DomainTable). t.name) pack.tables entity.table)
  ok (by_key (λ (c : DomainColumn). c.name) table.columns field.column)

abbrev pub adds_outer : String → Join → Bool
adds_outer entity_id j = str_eq j.added entity_id && is_outer j.edge.join_type

unfoldable pub field_is_non_null :
    SemanticFieldRef → SemanticPlan → DomainPack → Result KeyError Bool
unfolding column_of
field_is_non_null field plan pack = do
  order ← selected_join_order plan pack
  elim order [
    | none ↦ ok false
    | some (root, joins) ↦
        if not (contains field.entity_id plan.entity_ids)
        then ok false
        else column_of field pack >>= λ column.
            ok (column_is_non_null column && all (λ j. not (adds_outer field.entity_id j)) joins)
  ]

-- One end has been visited, and the other has not.
abbrev pub leads_out : List String → SemanticRelationship → Bool
leads_out visited r =
    let target = contains r.to_entity visited in
    if contains r.from_entity visited then not target else target

abbrev pub is_to_one : Bool → Cardinality → Bool
is_to_one source Cardinality.one_to_one = true
is_to_one source Cardinality.many_to_one = source

-- The loop, whose rounds each take an edge off.
pub multiplies : ℕ → List String → List SemanticRelationship → Bool
multiplies n visited [] = false
multiplies zero visited (r ∷ rs) = true
multiplies (suc n) visited (r ∷ rs) = elim (pop_first (leads_out visited) (r ∷ rs)) [
  | none ↦ true
  | some (edge, rest) ↦
      let source = contains edge.from_entity visited in
      let later =
        multiplies n ((if source then edge.to_entity else edge.from_entity) ∷ visited) rest in
      if not (is_to_one source edge.cardinality) then true else later
]

unfoldable pub relationships_of :
    List SemanticRelationship
    → List SemanticRelationshipIntent
    → Result KeyError (List SemanticRelationship)
unfolding by_key
relationships_of relationships [] = ok []
relationships_of relationships (i ∷ is) = do
  relationship ←
      item_of i.relationship_id
        (by_key (λ (r : SemanticRelationship). r.id) relationships i.relationship_id)
  edges ← relationships_of relationships is
  ok (relationship ∷ edges)

unfoldable pub population_may_multiply : String → SemanticPlan → DomainPack → Result KeyError Bool
unfolding relationships_of multiplies pop_first by_key
population_may_multiply entity_id plan pack = do
  edges ← relationships_of pack.relationships plan.relationships
  ok (multiplies (length edges) (entity_id ∷ []) edges)
