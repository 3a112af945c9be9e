-- ===== src/Queries/Tests/Joins.antt =====
-- The theorems of Queries.Joins at concrete inputs: users, who may have a manager and a department.
use queryops_ai.Prelude.{
  ℕ, String, true, false, Option, some, List, [], ◌∷◌, ◌≡◌, refl, arith, str_eq, if◌then◌else◌,
}
use queryops_ai.Prelude.Results.{ok}
use queryops_ai.Prelude.Sorting.{sort_by}
use queryops_ai.Queries.Joins.{
  Cardinality, JoinType, SemanticRelationship, SemanticPlan, SemanticFieldRef, DomainColumn,
  DomainPack, Edge, Join, select_edges, relationships_of, selected_join_order, field_is_non_null,
  population_may_multiply, column_of,
}
use queryops_ai.Queries.Joins.Order.{Answers, selected_join_order_lem}
use queryops_ai.Queries.Joins.Population.{Database, AgreeAlong, population_may_multiply_sound}
use queryops_ai.Queries.Joins.Nullable.{IsPresent, field_is_non_null_sound}

abbrev user_department : SemanticRelationship
user_department = record {
  id = "user_department";
  from_entity = "users";
  from_column = "department_id";
  to_entity = "departments";
  to_column = "id";
  cardinality = Cardinality.many_to_one;
  optional = false;
  description = "";
}

abbrev license_user : SemanticRelationship
license_user = record {
  id = "license_user";
  from_entity = "licenses";
  from_column = "user_id";
  to_entity = "users";
  to_column = "id";
  cardinality = Cardinality.many_to_one;
  optional = true;
  description = "";
}

abbrev pack : DomainPack
pack = record {
  tables =
      record { name = "t_users"; columns = record { name = "mail"; nullable = false } ∷ [] }
      ∷ record { name = "t_departments"; columns = record { name = "name"; nullable = false } ∷ [] }
      ∷ record { name = "t_licenses"; columns = [] }
      ∷ [];
  entities =
      record { id = "users"; table = "t_users" }
      ∷ record { id = "departments"; table = "t_departments" }
      ∷ record { id = "licenses"; table = "t_licenses" }
      ∷ [];
  relationships = user_department ∷ license_user ∷ [];
}

abbrev plan : SemanticPlan
plan = record {
  entity_ids = "users" ∷ "licenses" ∷ "departments" ∷ [];
  relationships =
      record { relationship_id = "license_user"; join_type = JoinType.left }
      ∷ record { relationship_id = "user_department"; join_type = JoinType.inner }
      ∷ [];
}

abbrev edges : List Edge
edges =
    record { relationship = license_user; join_type = JoinType.left }
    ∷ record { relationship = user_department; join_type = JoinType.inner }
    ∷ []

-- No root but the licenses: their left join preserves them.
abbrev joins : List Join
joins =
    record {
      edge = record { relationship = license_user; join_type = JoinType.left };
      added = "users";
    }
    ∷ record {
      edge = record { relationship = user_department; join_type = JoinType.inner };
      added = "departments";
    }
    ∷ []

order_test : selected_join_order plan pack ≡ ok (some ("licenses", joins))
unfolding selected_join_order sort_by
order_test = refl

edges_test : select_edges pack.relationships plan.relationships ≡ ok edges
unfolding select_edges
edges_test = refl

selected_join_order_example :
    (answer : Option (String × List Join)) × (selected_join_order plan pack ≡ ok answer)
    × Answers plan.entity_ids edges answer
selected_join_order_example = selected_join_order_lem plan pack edges edges_test

-- Everything is in department 0, and whatever is one-to-one has the same number.
abbrev Linked : Cardinality → ℕ → ℕ → Type 0
Linked Cardinality.many_to_one from to = to ≡ 0
Linked Cardinality.one_to_one from to = to ≡ from

Linked-to_one :
    (c : Cardinality) (from to to' : ℕ) → Linked c from to → Linked c from to' → to ≡ to'
Linked-to_one Cardinality.many_to_one from to to' h h' = omega arith
Linked-to_one Cardinality.one_to_one from to to' h h' = omega arith

Linked-from_one :
    (c : Cardinality) (from from' to : ℕ)
    → c ≡ Cardinality.one_to_one
    → Linked c from to
    → Linked c from' to
    → from ≡ from'
Linked-from_one Cardinality.many_to_one from from' to e h h' = cc
Linked-from_one Cardinality.one_to_one from from' to e h h' = omega arith

abbrev database : Database ℕ
database = record {
  Matches = λ r from to. Linked r.cardinality from to;
  to_one = λ r. Linked-to_one r.cardinality;
  from_one = λ r. Linked-from_one r.cardinality;
}

abbrev row : String → ℕ
row x = if str_eq x "licenses" then 7 else 0

-- Another row, which differs where the plan does not look.
abbrev row' : String → ℕ
row' x = if str_eq x "groups" then 3 else row x

single_test : population_may_multiply "licenses" plan pack ≡ ok false
unfolding population_may_multiply
single_test = refl

-- Departments do multiply: many users are in one.
many_test : population_may_multiply "departments" plan pack ≡ ok true
unfolding population_may_multiply
many_test = refl

relationships_test :
    relationships_of pack.relationships plan.relationships
    ≡ ok (license_user ∷ user_department ∷ [])
unfolding relationships_of
relationships_test = refl

population_may_multiply_example : AgreeAlong database (license_user ∷ user_department ∷ []) row row'
population_may_multiply_example =
    population_may_multiply_sound database "licenses" plan pack
      (license_user ∷ user_department ∷ []) row row' relationships_test single_test (omega arith)
      (omega arith) (omega arith)

abbrev department_name : SemanticFieldRef
department_name = record { entity_id = "departments"; column = "name" }

non_null_test : field_is_non_null department_name plan pack ≡ ok true
unfolding field_is_non_null selected_join_order sort_by column_of
non_null_test = refl

-- The left join may leave the user out.
nullable_test :
    field_is_non_null (record { entity_id = "users"; column = "mail" }) plan pack ≡ ok false
unfolding field_is_non_null selected_join_order sort_by column_of
nullable_test = refl

abbrev outer_row : String → Option ℕ
outer_row x = some (row x)

field_is_non_null_example :
    (column : DomainColumn) × (column_of department_name pack ≡ ok (some column))
    × (column.nullable ≡ false)
    × IsPresent (outer_row "departments")
field_is_non_null_example =
    field_is_non_null_sound department_name plan pack "licenses" joins outer_row non_null_test
      order_test (tt, (tt, (tt, tt)))
