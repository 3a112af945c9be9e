-- ===== src/Queries/Joins/Order.antt =====
-- The search for a join order finds one exactly if there is one.
use queryops_ai.Prelude.{
  String, Bool, true, false, ◌||◌, Option, none, some, List, [], ◌∷◌, map, str_eq, contains, all,
  length, ◌≡◌, ◌≢◌, refl, sym, ap, subst, ◌∙◌, inl, inr, arith, eq_iff, eq_refl, Bool-cases,
  Option-cases, &&-eq-true,
}
use queryops_ai.Prelude.Results.{ok, went_through}
use queryops_ai.Prelude.Sorting.{sort_by, str_le, any-sort_by}
use queryops_ai.Prelude.Shuffles.{Shuffle, Shuffle-sym, Shuffle-trans, Shuffle-sort_by}
use queryops_ai.Queries.Joins.{
  Edge, Join, Progress, SemanticPlan, DomainPack, join_loop, order_from, first_order, same_set,
  edge_le, select_edges, selected_join_order,
}
use queryops_ai.Queries.Joins.Sequence.{IsJoinSequence, SameTexts, edge_of, added_of}
use queryops_ai.Queries.Joins.Greedy.{join_loop-IsSound, join_loop-IsWhole}

-- The joins use each selected relationship once, attach one entity at a time to what is there from the
-- root on, and reach the entities of the plan and no others.
pub record IsJoinOrder (entity_ids : List String) (selected : List Edge) (root : String)
    (joins : List Join) : Type 0 where
  pub sequence : IsJoinSequence (root ∷ []) joins
  pub edges : Shuffle (map edge_of joins) selected
  pub reached : SameTexts (root ∷ map added_of joins) entity_ids

-- What a search should come to: an order, or none where there is none.
abbrev pub Answers : List String → List Edge → Option (String × List Join) → Type 0
Answers entity_ids selected (some (root, joins)) = IsJoinOrder entity_ids selected root joins
Answers entity_ids selected none =
    ¬ ((root : String) × (joins : List Join) × IsJoinOrder entity_ids selected root joins)

all_within :
    (xs ys : List String)
    → all (λ x. contains x ys) xs ≡ true
    → (x : String) → contains x xs ≡ true
    → contains x ys ≡ true
all_within [] ys h x k = cc
all_within (z ∷ zs) ys h x k = elim (Bool-cases (str_eq x z)) [
  | inl e ↦
      let (there, _) = (&&-eq-true (contains z ys) (all (λ v. contains v ys) zs)).0 h in
      ap (λ t. contains t ys) ((eq_iff x z).0 e) ∙ there
  | inr e ↦
      all_within zs ys (((&&-eq-true (contains z ys) (all (λ v. contains v ys) zs)).0 h).1) x
        (rw e at k)
]

within_all :
    (xs ys : List String)
    → ((x : String) → contains x xs ≡ true → contains x ys ≡ true)
    → all (λ x. contains x ys) xs ≡ true
within_all [] ys h = refl
within_all (z ∷ zs) ys h =
    (&&-eq-true (contains z ys) (all (λ v. contains v ys) zs)).1
      (h z (rw (eq_refl z) refl), within_all zs ys (λ x k. h x (ground arith)))

pub same_truth : (a b : Bool) → (a ≡ true → b ≡ true) → (b ≡ true → a ≡ true) → a ≡ b
same_truth true b f g = sym (f refl)
same_truth false true f g = g refl
same_truth false false f g = refl

pub same_set-SameTexts : (xs ys : List String) → same_set xs ys ≡ true → SameTexts xs ys
same_set-SameTexts xs ys h x =
    let (f, g) = (&&-eq-true (all (λ v. contains v ys) xs) (all (λ v. contains v xs) ys)).0 h in
    same_truth (contains x xs) (contains x ys) (all_within xs ys f x) (all_within ys xs g x)

pub SameTexts-same_set : (xs ys : List String) → SameTexts xs ys → same_set xs ys ≡ true
SameTexts-same_set xs ys h =
    (&&-eq-true (all (λ v. contains v ys) xs) (all (λ v. contains v xs) ys)).1
      (within_all xs ys (λ x k. sym (h x) ∙ k), within_all ys xs (λ x k. h x ∙ k))

pub root_first : (a b : Bool) → (a || b) ≡ (b || (a || false))
root_first true true = refl
root_first true false = refl
root_first false true = refl
root_first false false = refl

-- The first rounds of a root: all that the joins need is the root.
module _ (entity_ids : List String) (selected : List Edge) (root : String) where
  abbrev start_of : Progress
  start_of = join_loop (length (sort_by edge_le selected)) (root ∷ []) (sort_by edge_le selected)

  abbrev order_at : List Edge → Bool → List Join → Option (List Join)
  order_at [] true joins = some joins
  order_at [] false joins = none
  order_at (_ ∷ _) same joins = none

  order_from_lem :
      order_from entity_ids selected root
      ≡ order_at start_of.pending (same_set start_of.available entity_ids) start_of.ordered
  unfolding order_from
  order_from_lem = ground arith

  ends_empty :
      (pending : List Edge) (same : Bool) (joins joins' : List Join)
      → order_at pending same joins ≡ some joins'
      → (pending ≡ []) × (same ≡ true) × (joins ≡ joins')
  ends_empty [] true joins joins' h = (refl, refl, ground arith)
  ends_empty [] false joins joins' h = cc
  ends_empty (e ∷ es) same joins joins' h = cc

  order_from_sound :
      {joins : List Join}
      → order_from entity_ids selected root ≡ some joins
      → IsJoinOrder entity_ids selected root joins
  order_from_sound {joins} h =
      let (done, same, e) =
        ends_empty start_of.pending (same_set start_of.available entity_ids) start_of.ordered joins
          (sym order_from_lem ∙ h) in
      let (seq, shuffled, reach) =
        join_loop-IsSound (length (sort_by edge_le selected)) (root ∷ [])
          (sort_by edge_le selected) in
      subst (IsJoinOrder entity_ids selected root) e (record {
        sequence = seq;
        edges =
            Shuffle-trans (map edge_of start_of.ordered) (sort_by edge_le selected) selected
              (shuffled done)
              (Shuffle-sym selected (sort_by edge_le selected) (Shuffle-sort_by edge_le selected));
        reached = λ x.
            root_first (str_eq x root) (contains x (map added_of start_of.ordered))
            ∙ sym (reach x)
            ∙ same_set-SameTexts start_of.available entity_ids same x;
      })

  order_from_complete :
      (joins : List Join)
      → IsJoinOrder entity_ids selected root joins
      → order_from entity_ids selected root ≢ none
  order_from_complete joins order h =
      let sorted = sort_by edge_le selected in
      let (done, reach) =
        join_loop-IsWhole (length sorted) (root ∷ []) sorted joins (omega arith) order.sequence (
          Shuffle-trans (map edge_of joins) selected sorted order.edges
            (Shuffle-sort_by edge_le selected)) in
      let same = SameTexts-same_set start_of.available entity_ids (λ x.
        reach x
        ∙ sym (root_first (str_eq x root) (contains x (map added_of joins)))
        ∙ order.reached x) in
      let found : order_at start_of.pending (same_set start_of.available entity_ids)
            start_of.ordered
          ≡ some start_of.ordered =
        rw (done, same) refl in
      cc (order_from_lem, found, h)

module _ (entity_ids : List String) (selected : List Edge) where
  first_order-some :
      (roots : List String) {root : String} {joins : List Join}
      → first_order entity_ids selected roots ≡ some (root, joins)
      → order_from entity_ids selected root ≡ some joins
  unfolding first_order
  first_order-some [] h = cc
  first_order-some (r ∷ rs) h = elim (Option-cases (order_from entity_ids selected r)) [
    | inl e ↦ first_order-some rs (rw (e, first_order) at h)
    | inr (js, e) ↦ ground arith
  ]

  first_order-none :
      (roots : List String) (root : String)
      → first_order entity_ids selected roots ≡ none
      → contains root roots ≡ true
      → order_from entity_ids selected root ≡ none
  unfolding first_order
  first_order-none [] root h k = cc
  first_order-none (r ∷ rs) root h k = elim (Option-cases (order_from entity_ids selected r)) [
    | inl e ↦ elim (Bool-cases (str_eq root r)) [
      | inl same ↦ ap (order_from entity_ids selected) ((eq_iff root r).0 same) ∙ e
      | inr other ↦ first_order-none rs root (rw (e, first_order) at h) (rw other at k)
    ]
    | inr (js, e) ↦ ground arith
  ]

  root_among :
      (root : String) (joins : List Join)
      → IsJoinOrder entity_ids selected root joins
      → contains root (sort_by str_le entity_ids) ≡ true
  root_among root joins order =
      any-sort_by str_le (str_eq root) entity_ids
      ∙ sym (order.reached root)
      ∙ rw (eq_refl root) refl

  pub first_order-Answers :
      (answer : Option (String × List Join))
      → first_order entity_ids selected (sort_by str_le entity_ids) ≡ answer
      → Answers entity_ids selected answer
  first_order-Answers none h = λ (root, joins, order).
      order_from_complete entity_ids selected root joins order
        (first_order-none (sort_by str_le entity_ids) root h (root_among root joins order))
  first_order-Answers (some (root, joins)) h =
      order_from_sound entity_ids selected root (first_order-some (sort_by str_le entity_ids) h)

-- Where the catalog has every selected relationship, the search for a join order answers. If it finds an
-- order, then that order joins each selected relationship once, attaches one new entity at a time on
-- the side that its join type leaves open, and reaches exactly the entities of the plan. If it finds
-- none, then there is none, from any root.
pub selected_join_order_lem :
    (plan : SemanticPlan) (pack : DomainPack) (selected : List Edge)
    → select_edges pack.relationships plan.relationships ≡ ok selected
    → (answer : Option (String × List Join)) × (selected_join_order plan pack ≡ ok answer)
      × Answers plan.entity_ids selected answer
unfolding selected_join_order
selected_join_order_lem plan pack selected h =
    let answer = first_order plan.entity_ids selected (sort_by str_le plan.entity_ids) in
    (answer, rw h, first_order-Answers plan.entity_ids selected answer refl)

-- An order that the search returns is one for the relationships that the plan selects.
pub selected_join_order-IsJoinOrder :
    (plan : SemanticPlan) (pack : DomainPack) {root : String} {joins : List Join}
    → selected_join_order plan pack ≡ ok (some (root, joins))
    → (selected : List Edge) × IsJoinOrder plan.entity_ids selected root joins
unfolding selected_join_order
selected_join_order-IsJoinOrder plan pack h =
    let (selected, _, e) =
      went_through _ (select_edges pack.relationships plan.relationships) _ (sym h) in
    (selected, first_order-Answers plan.entity_ids selected (some (_, _)) (cc e))
