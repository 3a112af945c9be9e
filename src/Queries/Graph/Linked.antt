-- ===== src/Queries/Graph/Linked.antt =====
-- Graphs of entities, without the algorithms: links and cycles.
use queryops_ai.Prelude.{String, List, [], ◌∷◌, ◌≡◌, ◌⊎◌, inr}

abbrev pub IsEdge : List (String × String) → String → String → Type 0
IsEdge [] x y = ⊥
IsEdge ((a, b) ∷ es) x y = (a ≡ x) × (b ≡ y) ⊎ IsEdge es x y

-- Entities that a chain of edges links, each taken either way.
pub data Linked (es : List (String × String)) : String → String → Type 0 where
  edge : {x y : String} → IsEdge es x y → Linked es x y
  same : {x y : String} → x ≡ y → Linked es x y
  back : {x y : String} → Linked es x y → Linked es y x
  chain : {x y z : String} → Linked es x y → Linked es y z → Linked es x z

-- No edge links what the edges before it link already.
abbrev pub Acyclic : List (String × String) → List (String × String) → Type 0
Acyclic before [] = Unit
Acyclic before ((a, b) ∷ es) = ¬ (Linked before a b) × Acyclic ((a, b) ∷ before) es

pub wider :
    (e : String × String) (es : List (String × String)) (x y : String)
    → Linked es x y
    → Linked (e ∷ es) x y
wider e es x y (edge h) = edge (inr h)
wider e es x y (same h) = same h
wider e es x y (back h) = back (wider e es _ _ h)
wider e es x z (chain h k) = chain (wider e es _ _ h) (wider e es _ _ k)
