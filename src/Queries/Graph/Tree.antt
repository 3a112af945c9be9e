-- ===== src/Queries/Graph/Tree.antt =====
-- `_validate_relationship_graph` decides whether the relationships make a tree of the entities.
use queryops_ai.Prelude.{
  suc, ◌+◌, ◌-◌, ◌*◌, ◌<◌, String, Bool, true, false, ◌==◌, List, [], ◌∷◌, eq_iff, eq_refl,
  if◌then◌else◌, length, contains, ◌≡◌, ◌≢◌, refl, sym, ap, subst, ◌∙◌, ◌⊎◌, inl, inr, arith,
  Bool-cases,
}
use queryops_ai.Prelude.Sorting.{str_le}
use queryops_ai.Prelude.Results.{Result, ok, err, require, ◌>>◌}
use queryops_ai.Queries.Joins.{SemanticRelationship, SemanticRelationshipIntent, same_set}
use queryops_ai.Queries.Joins.Order.{same_truth, same_set-SameTexts, SameTexts-same_set}
use queryops_ai.Queries.Graph.{
  Halt, relationship_graph_cycle, relationship_graph_disconnected, relationship_graph_not_tree,
  Adjacency, add_edges, visit, smallest, each_alone, no_neighbours, relationship_count,
  validate_relationship_graph,
}
use queryops_ai.Queries.Graph.Linked.{Acyclic, same, back, chain}
use queryops_ai.Queries.Graph.Acyclic.{Inv}
use queryops_ai.Queries.Graph.Neighbours.{Shows}
use queryops_ai.Queries.Graph.Adding.{Resolves, Connected, Inside, together, add_edges-Added}
use queryops_ai.Queries.Graph.Visiting.{outside, Visit, visit-Visit, visited_iff}

either_held :
    (b : Bool) (x y : String) (ys : List String)
    → contains (smallest x ys) (x ∷ ys) ≡ true
    → contains (smallest y ys) (y ∷ ys) ≡ true
    → contains (smallest (if b then x else y) ys) (x ∷ y ∷ ys) ≡ true
either_held true x y ys h h' = ground (arith, h)
either_held false x y ys h h' = ground (arith, h')

smallest-held : (x : String) (xs : List String) → contains (smallest x xs) (x ∷ xs) ≡ true
smallest-held x [] = ground (arith, eq_refl x)
smallest-held x (y ∷ ys) = either_held (str_le x y) x y ys (smallest-held x ys) (smallest-held y ys)

outside-all : (es : List (String × String)) → outside es [] ≡ 2 * length es
outside-all [] = refl
outside-all ((a, b) ∷ es) = omega (arith, outside-all es)

length-together :
    (done es : List (String × String)) → length (together done es) ≡ length done + length es
length-together done [] = omega arith
length-together done ((a, b) ∷ es) = omega (arith, length-together ((a, b) ∷ done) es)

pub length-Resolves :
    (relationships : List SemanticRelationship) (keys : List String)
    (is : List SemanticRelationshipIntent) (es : List (String × String))
    → Resolves relationships keys is es
    → length is ≡ length es
length-Resolves relationships keys [] [] h = refl
length-Resolves relationships keys [] (_ ∷ _) h = elim h [ ]
length-Resolves relationships keys (_ ∷ _) [] h = elim h [ ]
length-Resolves relationships keys (_ ∷ is) ((a, b) ∷ es) (_, _, _, h) =
    ap suc (length-Resolves relationships keys is es h)

start-Inv : (keys : List String) → Inv keys (each_alone keys) []
start-Inv keys = record {
  climbs = λ x key. (x, (0, omega arith, (refl, rw key refl)), same refl);
  joined = λ x y e. elim e [ ];
}

start-Shows : (keys : List String) → Shows keys (no_neighbours keys) []
start-Shows keys x key = ([], rw key refl, (λ n. refl, omega arith))

module _ (first : String) (others : List String) (intents : List SemanticRelationshipIntent)
    (relationships : List SemanticRelationship) (es : List (String × String)) where
  abbrev entity_ids : List String
  entity_ids = first ∷ others

  abbrev outcome : Result Halt (Unit {0})
  outcome = validate_relationship_graph entity_ids intents relationships

  cyclic_outcome :
      (length entity_ids == 1) ≡ false
      → add_edges
          (suc (length intents))
          relationships
          intents
          (each_alone entity_ids)
          (no_neighbours entity_ids)
        ≡ err relationship_graph_cycle
      → outcome ≡ err relationship_graph_cycle
  unfolding validate_relationship_graph
  cyclic_outcome many e = rw (many, e) refl

  visited_outcome :
      (adjacency : Adjacency) (visited : List String)
      → (length entity_ids == 1) ≡ false
      → add_edges
          (suc (length intents))
          relationships
          intents
          (each_alone entity_ids)
          (no_neighbours entity_ids)
        ≡ ok adjacency
      → visit (suc (2 * length intents)) adjacency [] (smallest first others ∷ []) ≡ ok visited
      → outcome ≡ (
          require (same_set visited entity_ids) relationship_graph_disconnected
          >> require
              (relationship_count relationships == length entity_ids - 1)
              relationship_graph_not_tree)
  unfolding validate_relationship_graph
  visited_outcome adjacency visited many e e' = rw (many, e, e') refl

  abbrev start : String
  start = smallest first others

  abbrev edges : List (String × String)
  edges = together [] es

  start-Visit :
      (adjacency : Adjacency) (shows : Shows entity_ids adjacency edges)
      (inside : Inside entity_ids edges)
      → Visit entity_ids adjacency edges start shows inside [] (start ∷ [])
  start-Visit adjacency shows inside = record {
    seen = λ v h. cc;
    ahead = λ v h.
        let e : v ≡ start = (eq_iff v start).0 (ground (arith, h)) in
        (
          subst (λ t. contains t entity_ids ≡ true) (sym e) (smallest-held first others),
          same (sym e),
        );
    closed = λ v n h h'. cc;
    began = ground (arith, eq_refl start);
  }

  module _ (adjacency : Adjacency) (shows : Shows entity_ids adjacency edges)
      (inside : Inside entity_ids edges) (visited : List String)
      (end : Visit entity_ids adjacency edges start shows inside visited []) where
    -- All entities are visited exactly when they are connected.
    visited-Connected : same_set visited entity_ids ≡ true → Connected entity_ids es
    visited-Connected h x y key key' =
        let reach = λ (v : String) (known : contains v entity_ids ≡ true).
          (visited_iff entity_ids adjacency edges start shows inside visited v end).0
            (same_set-SameTexts visited entity_ids h v ∙ known) in
        chain (back ((reach x key).1)) ((reach y key').1)

    Connected-visited : Connected entity_ids es → same_set visited entity_ids ≡ true
    Connected-visited linked = SameTexts-same_set visited entity_ids (λ x.
        let (from, to) = visited_iff entity_ids adjacency edges start shows inside visited x end in
        same_truth (contains x visited) (contains x entity_ids) (λ h. (from h).0)
          (λ h. to (linked start x (smallest-held first others) h)))

  -- What the validation finds, by the shape of the graph.
  abbrev pub Verdict : Type 0
  Verdict =
      (outcome ≡ err relationship_graph_cycle) × ¬ (Acyclic [] es)
      ⊎ (outcome ≡ err relationship_graph_disconnected)
        × Acyclic [] es
        × ¬ (Connected entity_ids es)
      ⊎ (outcome ≡ err relationship_graph_not_tree)
        × Acyclic [] es
        × Connected entity_ids es
        × (relationship_count relationships ≢ length others)
      ⊎ (outcome ≡ ok tt)
        × Acyclic [] es
        × Connected entity_ids es
        × (relationship_count relationships ≡ length others)

  after_visit :
      (adjacency : Adjacency) (shows : Shows entity_ids adjacency edges)
      (inside : Inside entity_ids edges) (visited : List String)
      → Visit entity_ids adjacency edges start shows inside visited []
      → Acyclic [] es
      → outcome ≡ (
          require (same_set visited entity_ids) relationship_graph_disconnected
          >> require
              (relationship_count relationships == length entity_ids - 1)
              relationship_graph_not_tree)
      → Verdict
  after_visit adjacency shows inside visited end tree e =
      elim (Bool-cases (same_set visited entity_ids)) [
        | inr short ↦ inr (
            inl (
              e ∙ rw short refl,
              tree,
              λ linked. cc (Connected-visited adjacency shows inside visited end linked, short),
            ))
        | inl whole ↦
            let linked = visited-Connected adjacency shows inside visited end whole in
            elim (Bool-cases (relationship_count relationships == length entity_ids - 1)) [
              | inl h ↦ inr (inr (inr (e ∙ rw (whole, h) refl, tree, linked, ground (arith, h))))
              | inr h ↦ inr (
                  inr (
                    inl (
                      e ∙ rw (whole, h) refl,
                      tree,
                      linked,
                      λ counted. ground (arith, h, counted),
                    )))
            ]
      ]

  -- For a plan of several entities, whose relationships are there and have entities as their ends,
  -- `_validate_relationship_graph` ends with one of four results, without a missing key, its loops within
  -- their fuel (one more than the number of relationships for a search of a root, and one more than twice
  -- that number for the visits). It raises `relationship_graph_cycle` when some edge links what the edges
  -- before it link already, `relationship_graph_disconnected` when none does and two entities are not
  -- linked, `relationship_graph_not_tree` when the edges are a tree but the number of relationships is not
  -- one less than that of entities, and accepts when they are a tree and it is.
  pub validate_relationship_graph_cases :
      0 < length others → Resolves relationships entity_ids intents es → Verdict
  validate_relationship_graph_cases several resolved =
      let many : (length entity_ids == 1) ≡ false = ground (arith, several) in
      let added =
        add_edges-Added relationships entity_ids (suc (length intents)) intents es
          (each_alone entity_ids) (no_neighbours entity_ids) [] resolved (start-Inv entity_ids)
          (start-Shows entity_ids) (λ x n h. cc) (omega arith) in
      elim added [
        | inl (failed, cyclic) ↦ inl (cyclic_outcome many failed, cyclic)
        | inr (adjacency, ends, tree, shows, inside) ↦
            let (visited, runs, end) =
              visit-Visit entity_ids adjacency edges start shows inside (suc (2 * length intents))
                [] (start ∷ []) (start-Visit adjacency shows inside)
                (omega (
                  arith,
                  outside-all edges,
                  length-together [] es,
                  length-Resolves relationships entity_ids intents es resolved,
                )) in
            after_visit adjacency shows inside visited end tree
              (visited_outcome adjacency visited many ends runs)
      ]
