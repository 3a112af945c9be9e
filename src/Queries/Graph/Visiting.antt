-- ===== src/Queries/Graph/Visiting.antt =====
-- The second loop ends, and visits exactly what the start is linked with.
use queryops_ai.Prelude.{
  ℕ, zero, suc, ◌+◌, ◌≤◌, String, Bool, true, false, not, ◌&&◌, ◌||◌, some, List, [], ◌∷◌, ◌++◌,
  str_eq, eq_iff, eq_refl, if◌then◌else◌, length, contains, select, ◌≡◌, refl, sym, ap, subst, ◌∙◌,
  inl, inr, arith, Bool-cases, test-eq, any-append, contains-select, length-append,
}
use queryops_ai.Prelude.Sorting.{sort_by, insert_by, str_le, any-sort_by}
use queryops_ai.Prelude.Results.{ok}
use queryops_ai.Queries.Joins.Order.{same_truth}
use queryops_ai.Queries.Graph.{Adjacency, visit}
use queryops_ai.Queries.Graph.Linked.{Linked, edge, back, chain, same}
use queryops_ai.Queries.Graph.Neighbours.{
  beside, ends_at, degree, beside-Linked, IsEdge-beside, AreNeighbours, Shows,
}

abbrev unseen : String → List String → ℕ
unseen a visited = if contains a visited then 0 else 1

-- The ends of edges that are not visited.
abbrev pub outside : List (String × String) → List String → ℕ
outside [] visited = 0
outside ((a, b) ∷ es) visited = unseen a visited + unseen b visited + outside es visited

unseen-visit :
    (a x : String) (visited : List String)
    → contains x visited ≡ false
    → unseen a (x ∷ visited) + ends_at a x ≡ unseen a visited
unseen-visit a x visited h = ground (arith, h, test-eq (λ t. contains t visited) a x)

outside-visit :
    (es : List (String × String)) (x : String) (visited : List String)
    → contains x visited ≡ false
    → outside es (x ∷ visited) + degree es x ≡ outside es visited
outside-visit [] x visited h = refl
outside-visit ((a, b) ∷ es) x visited h =
    omega
      (arith, unseen-visit a x visited h, unseen-visit b x visited h, outside-visit es x visited h)

length-insert_by :
    (x : String) (xs : List String) → length (insert_by str_le x xs) ≡ suc (length xs)
unfolding insert_by
length-insert_by x [] = refl
length-insert_by x (y ∷ ys) = ground (arith, length-insert_by x ys)

length-sort_by : (xs : List String) → length (sort_by str_le xs) ≡ length xs
unfolding sort_by
length-sort_by [] = refl
length-sort_by (x ∷ xs) = length-insert_by x (sort_by str_le xs) ∙ ap suc (length-sort_by xs)

length-select : (p : String → Bool) (xs : List String) → length (select p xs) ≤ length xs
length-select p [] = omega arith
length-select p (x ∷ xs) = ground (arith, length-select p xs)

-- What is pushed when x is visited.
abbrev pushed : List String → List String → List String
pushed visited next = sort_by str_le (select (λ x. not (contains x visited)) next)

contains-pushed :
    (n : String) (visited next frontier : List String)
    → contains n (pushed visited next ++ frontier)
      ≡ (contains n next && not (contains n visited) || contains n frontier)
contains-pushed n visited next frontier =
    any-append (str_eq n) (pushed visited next) frontier
    ∙ ap (λ t. t || contains n frontier)
        (any-sort_by str_le (str_eq n) (select (λ x. not (contains x visited)) next)
          ∙ contains-select (λ x. not (contains x visited)) n next)

length-pushed :
    (visited next frontier : List String)
    → length (pushed visited next ++ frontier) ≤ length next + length frontier
length-pushed visited next frontier = omega (
  arith,
  length-append (pushed visited next) frontier,
  length-sort_by (select (λ x. not (contains x visited)) next),
  length-select (λ x. not (contains x visited)) next,
)

visit-end :
    (n : ℕ) (adjacency : Adjacency) (visited : List String)
    → visit n adjacency visited [] ≡ ok visited
unfolding visit
visit-end n adjacency visited = refl

module _ (keys : List String) (adjacency : Adjacency) (done : List (String × String))
    (start : String) (shows : Shows keys adjacency done)
    (inside : (x n : String) → beside done x n ≡ true → contains n keys ≡ true) where
  abbrev pub IsReached : String → Type 0
  IsReached v = (contains v keys ≡ true) × Linked done start v

  pub record Visit (visited frontier : List String) : Type 0 where
    pub seen : (v : String) → contains v visited ≡ true → IsReached v
    pub ahead : (v : String) → contains v frontier ≡ true → IsReached v
    pub closed :
        (v n : String)
        → contains v visited ≡ true
        → beside done v n ≡ true
        → (contains n visited || contains n frontier) ≡ true
    pub began : (contains start visited || contains start frontier) ≡ true

  skip-Visit :
      (x : String) (visited frontier : List String)
      → contains x visited ≡ true
      → Visit visited (x ∷ frontier)
      → Visit visited frontier
  skip-Visit x visited frontier h inv = record {
    seen = inv.seen;
    ahead = λ v there. inv.ahead v (ground (arith, there));
    closed = λ v n here next.
        let known = inv.closed v n here next in
        ground (arith, known, h, test-eq (λ t. contains t visited) n x);
    began = ground (arith, inv.began, h, test-eq (λ t. contains t visited) start x);
  }

  enter-Visit :
      (x : String) (visited next frontier : List String)
      → AreNeighbours done x next
      → Visit visited (x ∷ frontier)
      → Visit (x ∷ visited) (pushed (x ∷ visited) next ++ frontier)
  enter-Visit x visited next frontier (all, few) inv = record {
    seen = λ v here. elim (Bool-cases (str_eq v x)) [
      | inl e ↦ inv.ahead v (ground (arith, e))
      | inr far ↦ inv.seen v (ground (arith, far, here))
    ];
    ahead = λ v there. elim (Bool-cases (contains v frontier)) [
      | inl e ↦ inv.ahead v (ground (arith, e))
      | inr far ↦
          let adjacent : beside done x v ≡ true =
            sym (all v)
            ∙ ground (arith, there, far, contains-pushed v (x ∷ visited) next frontier) in
          let (_, link) = inv.ahead x (ground (arith, eq_refl x)) in
          (inside x v adjacent, chain link (step_to x v adjacent))
    ];
    closed = λ v n here adjacent. elim (Bool-cases (str_eq v x)) [
      | inl e ↦
          let adjacent' : beside done x n ≡ true =
            subst (λ t. beside done t n ≡ true) ((eq_iff v x).0 e) adjacent in
          ground (arith, all n, adjacent', contains-pushed n (x ∷ visited) next frontier)
      | inr far ↦
          let known = inv.closed v n (ground (arith, here, far)) adjacent in
          ground (arith, known, contains-pushed n (x ∷ visited) next frontier)
    ];
    began = ground (arith, inv.began, contains-pushed start (x ∷ visited) next frontier);
  }
    where
      step_to : (x v : String) → beside done x v ≡ true → Linked done x v
      step_to x v h = elim (beside-Linked done x v h) [ inl e ↦ edge e | inr e ↦ back (edge e) ]

  visit-skip :
      (n : ℕ) (x : String) (visited frontier : List String)
      → contains x visited ≡ true
      → visit (suc n) adjacency visited (x ∷ frontier) ≡ visit n adjacency visited frontier
  unfolding visit
  visit-skip n x visited frontier h = rw (h, visit) refl

  visit-enter :
      (n : ℕ) (x : String) (visited frontier next : List String)
      → contains x visited ≡ false
      → adjacency x ≡ some next
      → visit (suc n) adjacency visited (x ∷ frontier)
        ≡ visit n adjacency (x ∷ visited) (pushed (x ∷ visited) next ++ frontier)
  unfolding visit
  visit-enter n x visited frontier next h e = rw (h, e, visit) refl

  -- With a round of fuel for what is pushed and for each end of an edge that is not visited, the loop ends.
  pub visit-Visit :
      (n : ℕ) (visited frontier : List String)
      → Visit visited frontier
      → length frontier + outside done visited ≤ n
      → (all : List String) × (visit n adjacency visited frontier ≡ ok all) × Visit all []
  visit-Visit n visited [] inv enough = (visited, visit-end n adjacency visited, inv)
  visit-Visit zero visited (x ∷ frontier) inv enough = absurd (omega arith)
  visit-Visit (suc n) visited (x ∷ frontier) inv enough = elim (Bool-cases (contains x visited)) [
    | inl h ↦
        let (all, e, end) =
          visit-Visit n visited frontier (skip-Visit x visited frontier h inv) (omega arith) in
        (all, visit-skip n x visited frontier h ∙ e, end)
    | inr h ↦
        let (key, _) = inv.ahead x (ground (arith, eq_refl x)) in
        let (next, found, around) = shows x key in
        let (all, e, end) =
          visit-Visit n (x ∷ visited) (pushed (x ∷ visited) next ++ frontier)
            (enter-Visit x visited next frontier around inv)
            (omega (
              arith,
              length-pushed (x ∷ visited) next frontier,
              around.1,
              outside-visit done x visited h,
            )) in
        (all, visit-enter n x visited frontier next h found ∙ e, end)
  ]

  -- What is linked with something visited is visited.
  Linked-visited :
      (all : List String) (x y : String)
      → Visit all []
      → Linked done x y
      → contains x all ≡ contains y all
  Linked-visited all x y inv (edge e) =
      let (there, back_again) = IsEdge-beside done x y e in
      same_truth (contains x all) (contains y all) (λ h. ground (arith, inv.closed x y h there))
        (λ h. ground (arith, inv.closed y x h back_again))
  Linked-visited all x y inv (same e) = ap (λ t. contains t all) e
  Linked-visited all x y inv (back l) = sym (Linked-visited all y x inv l)
  Linked-visited all x z inv (chain {y = y} l k) =
      Linked-visited all x y inv l ∙ Linked-visited all y z inv k

  pub visited_iff :
      (all : List String) (x : String)
      → Visit all []
      → (contains x all ≡ true → IsReached x) × (Linked done start x → contains x all ≡ true)
  visited_iff all x inv =
      (inv.seen x, λ l. sym (Linked-visited all start x inv l) ∙ ground (arith, inv.began))
