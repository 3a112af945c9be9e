-- ===== src/Queries/Graph/Joinable.antt =====
-- The validation of the graph and the search for a join order agree on inner joins.
use queryops_ai.Prelude.{
  ℕ, suc, ◌+◌, ◌≤◌, ◌<◌, String, Bool, true, Option, none, some, List, [], ◌∷◌, str_eq, length, All,
  contains, map, ◌≡◌, refl, sym, ap, ◌∙◌, inl, inr, arith, eq_refl,
}
use queryops_ai.Prelude.Sorting.{NoRepeats, length-NoRepeats}
use queryops_ai.Prelude.Results.{ok}
use queryops_ai.Queries.Joins.{
  Edge, Join, Progress, SemanticPlan, SemanticRelationship, SemanticRelationshipIntent, DomainPack,
  join_loop, select_edges, selected_join_order,
}
use queryops_ai.Queries.Joins.Sequence.{added_of}
use queryops_ai.Queries.Joins.Greedy.{join_loop-IsSound}
use queryops_ai.Queries.Joins.Inner.{IsEven, IsInner, EndsIn, join_loop-Left}
use queryops_ai.Queries.Joins.Order.{
  IsJoinOrder, Answers, same_truth, root_first, selected_join_order_lem,
}
use queryops_ai.Queries.Graph.{relationship_count, validate_relationship_graph}
use queryops_ai.Queries.Graph.Linked.{IsEdge, Linked, edge, same, back, chain}
use queryops_ai.Queries.Graph.Adding.{Resolves, Connected, together}
use queryops_ai.Queries.Graph.Tree.{length-Resolves, validate_relationship_graph_cases}

abbrev pub edge_ends : Edge → String × String
edge_ends e = (e.relationship.from_entity, e.relationship.to_entity)

-- A test that agrees on the ends of each edge agrees on all that is linked.
module _ (f : String → Bool) where
  abbrev Agrees : String × String → Type 0
  Agrees (a, b) = f a ≡ f b

  IsEdge-Agrees :
      (es : List (String × String)) (x y : String) → All Agrees es → IsEdge es x y → f x ≡ f y
  IsEdge-Agrees [] x y all h = elim h [ ]
  IsEdge-Agrees ((a, b) ∷ es) x y (here, all) (inl (e, e')) = ap f (sym e) ∙ here ∙ ap f e'
  IsEdge-Agrees ((a, b) ∷ es) x y (here, all) (inr h) = IsEdge-Agrees es x y all h

  Linked-Agrees :
      (es : List (String × String)) (x y : String) → All Agrees es → Linked es x y → f x ≡ f y
  Linked-Agrees es x y all (edge h) = IsEdge-Agrees es x y all h
  Linked-Agrees es x y all (same e) = ap f e
  Linked-Agrees es x y all (back h) = sym (Linked-Agrees es y x all h)
  Linked-Agrees es x z all (chain {y = y} h k) =
      Linked-Agrees es x y all h ∙ Linked-Agrees es y z all k

  together-Agrees :
      (done es : List (String × String))
      → All Agrees done
      → All Agrees es
      → All Agrees (together done es)
  together-Agrees done [] before all = before
  together-Agrees done ((a, b) ∷ es) before (here, all) =
      together-Agrees ((a, b) ∷ done) es (here, before) all

ends-Agrees :
    (av : List String) (selected : List Edge)
    → All (IsEven av) selected
    → All (Agrees (λ x. contains x av)) (map edge_ends selected)
ends-Agrees av [] h = tt
ends-Agrees av (e ∷ es) (here, h) = (here, ends-Agrees av es h)

length-ends : (selected : List Edge) → length (map edge_ends selected) ≡ length selected
length-ends [] = refl
length-ends (e ∷ es) = ap suc (length-ends es)

Resolves-EndsIn :
    (relationships : List SemanticRelationship) (keys : List String)
    (intents : List SemanticRelationshipIntent) (selected : List Edge)
    → Resolves relationships keys intents (map edge_ends selected)
    → All (EndsIn keys) selected
Resolves-EndsIn relationships keys [] [] h = tt
Resolves-EndsIn relationships keys [] (_ ∷ _) h = elim h [ ]
Resolves-EndsIn relationships keys (_ ∷ _) [] h = elim h [ ]
Resolves-EndsIn relationships keys (_ ∷ is) (e ∷ es) (_, from, to, h) =
    ((from, to), Resolves-EndsIn relationships keys is es h)

none_left : {A : Type 0} (xs : List A) (n : ℕ) → length xs + n ≤ n → xs ≡ []
none_left [] n h = refl
none_left (x ∷ xs) n h = absurd (omega (arith, h))

module _ (first : String) (others : List String) (selected : List Edge) where
  abbrev entity_ids : List String
  entity_ids = first ∷ others

  abbrev end : Progress
  end = join_loop (length selected) (first ∷ []) selected

  -- The loop reaches all entities, and has then used all edges.
  tree-IsJoinOrder :
      NoRepeats entity_ids
      → All IsInner selected
      → All (EndsIn entity_ids) selected
      → Connected entity_ids (map edge_ends selected)
      → length selected ≡ length others
      → IsJoinOrder entity_ids selected first end.ordered
  tree-IsJoinOrder distinct inner ends linked counted =
      let left =
        join_loop-Left entity_ids (length selected) (first ∷ []) selected (omega arith) inner
          ends in
      let (sequence, edges, reach) = join_loop-IsSound (length selected) (first ∷ []) selected in
      let root : contains first end.available ≡ true =
        left.wider first (ground (arith, eq_refl first)) in
      let here : contains first entity_ids ≡ true = ground (arith, eq_refl first) in
      let all_reached = λ (x : String) (known : contains x entity_ids ≡ true).
        sym (
          Linked-Agrees (λ v. contains v end.available) (together [] (map edge_ends selected)) first
            x
            (together-Agrees (λ v. contains v end.available) [] (map edge_ends selected) tt
              (ends-Agrees end.available selected left.even))
            (linked first x here known))
        ∙ root in
      let enough = length-NoRepeats entity_ids end.available distinct all_reached in
      let used : end.pending ≡ [] =
        none_left end.pending (length entity_ids) (omega (arith, enough, left.count, counted)) in
      record {
        sequence = sequence;
        edges = edges used;
        reached = λ x.
            root_first (str_eq x first) (contains x (map added_of end.ordered))
            ∙ sym (reach x)
            ∙ same_truth (contains x end.available) (contains x entity_ids)
                (left.within (λ v k. ground (arith, k)) x) (all_reached x);
      }

  some_order :
      (answer : Option (String × List Join))
      → Answers entity_ids selected answer
      → IsJoinOrder entity_ids selected first end.ordered
      → (root : String) × (joins : List Join) × (answer ≡ some (root, joins))
        × IsJoinOrder entity_ids selected root joins
  some_order none h order = absurd (h (first, end.ordered, order))
  some_order (some (root, joins)) h order = (root, joins, refl, h)

-- Take a plan of several entities, no entity twice, with inner joins only, whose relationships are there
-- and have entities as their ends, and which names each relationship once. If
-- `_validate_relationship_graph` accepts it, then `selected_join_order` finds an order, which joins each
-- relationship once, one new entity at a time, and reaches exactly the entities of the plan: the refusal
-- `left_join_orientation_unsupported`, which comes next in the validation, never meets such a plan.
pub selected_join_order-validated :
    (first : String) (others : List String) (intents : List SemanticRelationshipIntent)
    (relationships : List SemanticRelationship) (pack : DomainPack) (selected : List Edge)
    → 0 < length others
    → NoRepeats (first ∷ others)
    → select_edges pack.relationships intents ≡ ok selected
    → All IsInner selected
    → Resolves relationships (first ∷ others) intents (map edge_ends selected)
    → relationship_count relationships ≡ length intents
    → validate_relationship_graph (first ∷ others) intents relationships ≡ ok tt
    → (root : String) × (joins : List Join) × (selected_join_order
          (record { entity_ids = first ∷ others; relationships = intents })
          pack
        ≡ ok (some (root, joins)))
      × IsJoinOrder (first ∷ others) selected root joins
selected_join_order-validated first others intents relationships pack selected several distinct
      edges inner resolved once accepted =
    let plan : SemanticPlan = record { entity_ids = first ∷ others; relationships = intents } in
    let lengths =
      length-Resolves relationships (first ∷ others) intents (map edge_ends selected) resolved in
    let (answer, runs, answers) = selected_join_order_lem plan pack selected edges in
    elim (validate_relationship_graph_cases first others intents relationships
      (map edge_ends selected) several resolved) [
        | inl (e, _) ↦ cc (accepted, e)
        | inr (inl (e, _, _)) ↦ cc (accepted, e)
        | inr (inr (inl (e, _, _, _))) ↦ cc (accepted, e)
        | inr (inr (inr (_, _, linked, counted))) ↦
            let order =
              tree-IsJoinOrder first others selected distinct inner
                (Resolves-EndsIn relationships (first ∷ others) intents selected resolved) linked
                (omega (arith, length-ends selected, lengths, once, counted)) in
            let (root, joins, found, is_order) =
              some_order first others selected answer answers order in
            (root, joins, runs ∙ ap ok found, is_order)
      ]
