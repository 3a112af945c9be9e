-- ===== src/Queries/Graph/Adding.antt =====
-- The first loop finds a cycle, or leaves each entity with its neighbours.
use queryops_ai.Prelude.{
  ℕ, ◌+◌, ◌<◌, String, true, false, List, [], ◌∷◌, str_eq, eq_iff, length, contains, ◌≡◌, refl, ◌∙◌,
  ◌⊎◌, inl, inr, arith, Bool-cases, test-eq,
}
use queryops_ai.Prelude.Results.{ok, err}
use queryops_ai.Queries.Joins.{SemanticRelationship, SemanticRelationshipIntent}
use queryops_ai.Queries.Graph.{
  relationship_graph_cycle, Parent, Adjacency, unite, connect, ends_of, add_edges,
}
use queryops_ai.Queries.Graph.Linked.{Linked, Acyclic, same}
use queryops_ai.Queries.Graph.Acyclic.{Inv, unite-Outcome}
use queryops_ai.Queries.Graph.Neighbours.{beside, Shows, connect-Shows}

-- Each intent's relationship is there, and both its ends are entities.
abbrev pub Resolves :
    List SemanticRelationship
    → List String
    → List SemanticRelationshipIntent
    → List (String × String)
    → Type 0
Resolves relationships keys [] [] = Unit
Resolves relationships keys (i ∷ is) ((a, b) ∷ es) =
    (ends_of relationships i ≡ ok (a, b))
    × (contains a keys ≡ true)
    × (contains b keys ≡ true)
    × Resolves relationships keys is es
Resolves relationships keys _ _ = ⊥

-- All the edges, the last one first.
abbrev pub together : List (String × String) → List (String × String) → List (String × String)
together done [] = done
together done (e ∷ es) = together (e ∷ done) es

abbrev pub Connected : List String → List (String × String) → Type 0
Connected keys es =
    (x y : String) → contains x keys ≡ true → contains y keys ≡ true → Linked (together [] es) x y

abbrev pub Inside : List String → List (String × String) → Type 0
Inside keys done = (x n : String) → beside done x n ≡ true → contains n keys ≡ true

grow-Inside :
    (keys : List String) (done : List (String × String)) (a b : String)
    → contains a keys ≡ true
    → contains b keys ≡ true
    → Inside keys done
    → Inside keys ((a, b) ∷ done)
grow-Inside keys done a b key key' inside x n h = elim (Bool-cases (beside done x n)) [
  | inl e ↦ inside x n e
  | inr far ↦ ground (
    arith,
    h,
    far,
    key,
    key',
    test-eq (λ t. contains t keys) a n,
    test-eq (λ t. contains t keys) b n,
  )
]

module _ (relationships : List SemanticRelationship) (keys : List String) (fuel : ℕ) where
  abbrev pub Added :
      List SemanticRelationshipIntent
      → List (String × String)
      → Parent
      → Adjacency
      → List (String × String)
      → Type 0
  Added is es parent adjacency done =
      (add_edges fuel relationships is parent adjacency ≡ err relationship_graph_cycle)
        × ¬ (Acyclic done es)
      ⊎ (next : Adjacency) × (add_edges fuel relationships is parent adjacency ≡ ok next)
        × Acyclic done es
        × Shows keys next (together done es)
        × Inside keys (together done es)

  refused :
      (i : SemanticRelationshipIntent) (is : List SemanticRelationshipIntent) (a b : String)
      (parent : Parent) (adjacency : Adjacency)
      → ends_of relationships i ≡ ok (a, b)
      → unite fuel parent (a, b) ≡ err relationship_graph_cycle
      → add_edges fuel relationships (i ∷ is) parent adjacency ≡ err relationship_graph_cycle
  unfolding add_edges
  refused i is a b parent adjacency e e' = rw (e, e') refl

  taken :
      (i : SemanticRelationshipIntent) (is : List SemanticRelationshipIntent) (a b : String)
      (parent parent' : Parent) (adjacency adjacency' : Adjacency)
      → ends_of relationships i ≡ ok (a, b)
      → unite fuel parent (a, b) ≡ ok parent'
      → connect adjacency (a, b) ≡ ok adjacency'
      → add_edges fuel relationships (i ∷ is) parent adjacency
        ≡ add_edges fuel relationships is parent' adjacency'
  unfolding add_edges
  taken i is a b parent parent' adjacency adjacency' e e' e'' = rw (e, e', e'') refl

  Unlinked-differ :
      (done : List (String × String)) (a b : String) → ¬ (Linked done a b) → str_eq a b ≡ false
  Unlinked-differ done a b apart = elim (Bool-cases (str_eq a b)) [
    | inl e ↦ absurd (apart (same ((eq_iff a b).0 e)))
    | inr far ↦ far
  ]

  pub add_edges-Added :
      (is : List SemanticRelationshipIntent) (es : List (String × String)) (parent : Parent)
      (adjacency : Adjacency) (done : List (String × String))
      → Resolves relationships keys is es
      → Inv keys parent done
      → Shows keys adjacency done
      → Inside keys done
      → length done + length is < fuel
      → Added is es parent adjacency done
  unfolding add_edges
  add_edges-Added [] [] parent adjacency done _ inv shows inside bound =
      inr (adjacency, refl, tt, shows, inside)
  add_edges-Added [] (_ ∷ _) parent adjacency done h inv shows inside bound = elim h [ ]
  add_edges-Added (_ ∷ _) [] parent adjacency done h inv shows inside bound = elim h [ ]
  add_edges-Added (i ∷ is) ((a, b) ∷ es) parent adjacency done (e, key, key', rest) inv shows inside
        bound =
      elim (unite-Outcome keys fuel parent done a b inv key key' (omega arith)) [
        | inl (e', link) ↦ inl (refused i is a b parent adjacency e e', λ (tree, _). tree link)
        | inr (parent', e', apart, inv') ↦
            let (adjacency', e'', shows') =
              connect-Shows keys adjacency done a b shows key key'
                (Unlinked-differ done a b apart) in
            let step = taken i is a b parent parent' adjacency adjacency' e e' e'' in
            elim (add_edges-Added is es parent' adjacency' ((a, b) ∷ done) rest inv' shows'
              (grow-Inside keys done a b key key' inside) (omega arith)) [
                | inl (failed, cyclic) ↦ inl (step ∙ failed, λ (_, tree). cyclic tree)
                | inr (next, ends, tree, shown, within) ↦
                    inr (next, step ∙ ends, (apart, tree), shown, within)
              ]
      ]
