-- ===== src/Queries/Joins/Nullable.antt =====
-- What "is not null" promises of a field in the joined rows, outer joins included.
use queryops_ai.Prelude.{
  String, Bool, true, false, not, ◌&&◌, Option, none, some, List, [], ◌∷◌, map, str_eq, contains,
  all, All, ◌≡◌, refl, sym, ap, subst, ◌∙◌, inl, inr, arith, eq_iff, Bool-cases, &&-eq-true,
}
use queryops_ai.Prelude.Results.{ok, went_through}
use queryops_ai.Queries.Joins.{
  Join, JoinType, SemanticFieldRef, SemanticPlan, DomainPack, DomainColumn, column_of,
  column_is_non_null, adds_outer, is_outer, selected_join_order, field_is_non_null,
}
use queryops_ai.Queries.Joins.Sequence.{added_of}
use queryops_ai.Queries.Joins.Order.{selected_join_order-IsJoinOrder}

abbrev pub IsPresent : {Row : Type 0} → Option Row → Type 0
IsPresent none = ⊥
IsPresent (some row) = Unit

-- An inner join keeps only what has a row of the added entity. An outer one may leave that row out.
abbrev pub Presents : {Row : Type 0} → JoinType → Option Row → Type 0
Presents JoinType.inner o = IsPresent o
Presents _ o = Unit

-- A row of the joined table: a row of the root, and what each join presents.
abbrev pub IsOuterJoined : {Row : Type 0} → String → List Join → (String → Option Row) → Type 0
IsOuterJoined root joins row =
    IsPresent (row root) × All (λ j. Presents j.edge.join_type (row j.added)) joins

inner-Presents :
    {Row : Type 0} (t : JoinType) (o : Option Row) (same : Bool)
    → not (same && is_outer t) ≡ true
    → same ≡ true
    → Presents t o
    → IsPresent o
inner-Presents JoinType.inner o same h k p = p
inner-Presents JoinType.left o same h k p = cc
inner-Presents JoinType.left_reverse o same h k p = cc

added-IsPresent :
    {Row : Type 0} (entity_id : String) (joins : List Join) (row : String → Option Row)
    → all (λ j. not (adds_outer entity_id j)) joins ≡ true
    → All (λ j. Presents j.edge.join_type (row j.added)) joins
    → contains entity_id (map added_of joins) ≡ true
    → IsPresent (row entity_id)
added-IsPresent entity_id [] row h p k = cc
added-IsPresent entity_id (j ∷ js) row h (p, ps) k =
    let (here, later) =
      (&&-eq-true (not (adds_outer entity_id j)) (all (λ i. not (adds_outer entity_id i)) js)).0
        h in
    elim (Bool-cases (str_eq entity_id j.added)) [
      | inl same ↦
          let e = (eq_iff entity_id j.added).0 same in
          subst (λ x. IsPresent (row x)) (sym e)
            (inner-Presents j.edge.join_type (row j.added) (str_eq j.added entity_id) here
              ((eq_iff j.added entity_id).1 (sym e)) p)
      | inr other ↦ added-IsPresent entity_id js row later ps (rw other at k)
    ]

reached-IsPresent :
    {Row : Type 0} (entity_id root : String) (joins : List Join) (row : String → Option Row)
    → IsPresent (row root)
    → All (λ j. Presents j.edge.join_type (row j.added)) joins
    → all (λ j. not (adds_outer entity_id j)) joins ≡ true
    → contains entity_id (root ∷ map added_of joins) ≡ true
    → IsPresent (row entity_id)
reached-IsPresent entity_id root joins row at_root presents no_outer k =
    elim (Bool-cases (str_eq entity_id root)) [
      | inl same ↦ subst (λ x. IsPresent (row x)) (sym ((eq_iff entity_id root).0 same)) at_root
      | inr other ↦ added-IsPresent entity_id joins row no_outer presents (rw other at k)
    ]

column_non_null :
    (o : Option DomainColumn)
    → column_is_non_null o ≡ true
    → (c : DomainColumn) × (o ≡ some c) × (c.nullable ≡ false)
column_non_null none h = cc
column_non_null (some c) h = (c, refl, ground arith)

-- An answer that a field is not null is right where the plan has a join order: the field has a column, which
-- is not nullable, and every row of the joined table has a row of the field's entity, whatever the outer
-- joins leave out.
pub field_is_non_null_sound :
    {Row : Type 0} (field : SemanticFieldRef) (plan : SemanticPlan) (pack : DomainPack)
    (root : String) (joins : List Join) (row : String → Option Row)
    → field_is_non_null field plan pack ≡ ok true
    → selected_join_order plan pack ≡ ok (some (root, joins))
    → IsOuterJoined root joins row
    → (column : DomainColumn) × (column_of field pack ≡ ok (some column))
      × (column.nullable ≡ false)
      × IsPresent (row field.entity_id)
unfolding field_is_non_null
field_is_non_null_sound field plan pack root joins row h order (at_root, presents) =
    let (selected, is_order) = selected_join_order-IsJoinOrder plan pack order in
    elim (Bool-cases (contains field.entity_id plan.entity_ids)) [
      | inl there ↦
          let h' = rw (order, there) at h in
          let (column, found, e) =
            went_through
              (λ column.
                ok (
                  column_is_non_null column && all (λ j. not (adds_outer field.entity_id j)) joins))
              (column_of field pack) true (sym h') in
          let (non_null, no_outer) =
            (&&-eq-true (column_is_non_null column)
                (all (λ j. not (adds_outer field.entity_id j)) joins)).0
              (cc e) in
          let (c, is_c, nullable) = column_non_null column non_null in
          (
            c,
            found ∙ ap (λ o. ok o) is_c,
            nullable,
            reached-IsPresent field.entity_id root joins row at_root presents no_outer
                (is_order.reached field.entity_id ∙ there),
          )
      | inr absent ↦ absurd (cc (rw (order, absent) at h))
    ]
