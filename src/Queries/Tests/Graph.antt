-- ===== src/Queries/Tests/Graph.antt =====
-- The theorem of Queries.Graph at a concrete input: licenses of users, who are in departments.
use queryops_ai.Prelude.{String, false, List, [], ◌∷◌, ◌≡◌, refl, arith, some}
use queryops_ai.Prelude.Results.{ok, err}
use queryops_ai.Prelude.Sorting.{sort_by, distinct}
use queryops_ai.Queries.Joins.{
  Cardinality, JoinType, SemanticRelationship, SemanticRelationshipIntent, DomainPack, Edge, Join,
  select_edges, selected_join_order,
}
use queryops_ai.Queries.Joins.Order.{IsJoinOrder}
use queryops_ai.Queries.Graph.{
  relationship_count, relationship_graph_cycle, relationship_graph_disconnected, find, unite,
  connect, ends_of, add_edges, visit, validate_relationship_graph,
}
use queryops_ai.Queries.Graph.Joinable.{selected_join_order-validated}
use queryops_ai.Queries.Graph.Tree.{Verdict, validate_relationship_graph_cases}

abbrev relationship : String → String → String → SemanticRelationship
relationship id from_entity to_entity = record {
  id = id;
  from_entity = from_entity;
  from_column = "other_id";
  to_entity = to_entity;
  to_column = "id";
  cardinality = Cardinality.many_to_one;
  optional = false;
  description = "";
}

abbrev relationships : List SemanticRelationship
relationships =
    relationship "holder" "licenses" "users"
    ∷ relationship "member" "users" "departments"
    ∷ relationship "owner" "licenses" "departments"
    ∷ []

abbrev intent : String → SemanticRelationshipIntent
intent id = record { relationship_id = id; join_type = JoinType.inner }

abbrev tree : List SemanticRelationshipIntent
tree = intent "holder" ∷ intent "member" ∷ []

abbrev selected : List SemanticRelationship
selected =
    relationship "holder" "licenses" "users" ∷ relationship "member" "users" "departments" ∷ []

abbrev others : List String
others = "users" ∷ "departments" ∷ []

tree_test : validate_relationship_graph ("licenses" ∷ others) tree selected ≡ ok tt
unfolding validate_relationship_graph add_edges ends_of unite find connect visit sort_by distinct
tree_test = refl

cycle_test :
    validate_relationship_graph
      ("licenses" ∷ others)
      (intent "holder" ∷ intent "member" ∷ intent "owner" ∷ [])
      relationships
    ≡ err relationship_graph_cycle
unfolding validate_relationship_graph add_edges ends_of unite find connect
cycle_test = refl

disconnected_test :
    validate_relationship_graph ("licenses" ∷ others) (intent "holder" ∷ []) selected
    ≡ err relationship_graph_disconnected
unfolding validate_relationship_graph add_edges ends_of unite find connect visit sort_by
disconnected_test = refl

holder-ends : ends_of selected (intent "holder") ≡ ok ("licenses", "users")
unfolding ends_of
holder-ends = refl

member-ends : ends_of selected (intent "member") ≡ ok ("users", "departments")
unfolding ends_of
member-ends = refl

validate_relationship_graph_example :
    Verdict "licenses" others tree selected (("licenses", "users") ∷ ("users", "departments") ∷ [])
validate_relationship_graph_example =
    validate_relationship_graph_cases "licenses" others tree selected
      (("licenses", "users") ∷ ("users", "departments") ∷ []) (omega arith)
      (holder-ends, refl, refl, (member-ends, refl, refl, tt))

abbrev pack : DomainPack
pack = record { tables = []; entities = []; relationships = relationships }

abbrev edges : List Edge
edges =
    record { relationship = relationship "holder" "licenses" "users"; join_type = JoinType.inner }
    ∷ record {
      relationship = relationship "member" "users" "departments";
      join_type = JoinType.inner;
    }
    ∷ []

edges_test : select_edges pack.relationships tree ≡ ok edges
unfolding select_edges
edges_test = refl

once_test : relationship_count selected ≡ 2
unfolding distinct
once_test = refl

validated_joins_example :
    (root : String) × (joins : List Join) × (selected_join_order
        (record { entity_ids = "licenses" ∷ others; relationships = tree })
        pack
      ≡ ok (some (root, joins)))
    × IsJoinOrder ("licenses" ∷ others) edges root joins
validated_joins_example =
    selected_join_order-validated "licenses" others tree selected pack edges (omega arith)
      (refl, (refl, (refl, tt))) edges_test (refl, (refl, tt))
      (holder-ends, refl, refl, (member-ends, refl, refl, tt)) once_test tree_test
