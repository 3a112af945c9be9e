-- ===== src/Queries/Graph/Neighbours.antt =====
-- The adjacency has the neighbours of each entity.
use queryops_ai.Prelude.{
  ℕ, suc, ◌+◌, ◌≤◌, String, Bool, true, false, ◌&&◌, ◌||◌, some, List, [], ◌∷◌, str_eq, eq_iff,
  eq_refl, if◌then◌else◌, length, contains, ◌≡◌, refl, sym, subst, ◌∙◌, ◌⊎◌, inl, inr, arith,
  Bool-cases,
}
use queryops_ai.Prelude.Results.{ok}
use queryops_ai.Queries.Graph.{Adjacency, set_item, add_to, connect}
use queryops_ai.Queries.Graph.Parents.{set_item-same, set_item-other, differ_sym}
use queryops_ai.Queries.Graph.Linked.{IsEdge}

-- An edge has the two as its ends.
abbrev pub beside : List (String × String) → String → String → Bool
beside [] x n = false
beside ((a, b) ∷ es) x n = (str_eq a x && str_eq b n) || (str_eq b x && str_eq a n) || beside es x n

abbrev pub ends_at : String → String → ℕ
ends_at a x = if str_eq a x then 1 else 0

abbrev pub degree : List (String × String) → String → ℕ
degree [] x = 0
degree ((a, b) ∷ es) x = ends_at a x + ends_at b x + degree es x

pub beside-Linked :
    (es : List (String × String)) (x n : String)
    → beside es x n ≡ true
    → IsEdge es x n ⊎ IsEdge es n x
beside-Linked [] x n h = cc
beside-Linked ((a, b) ∷ es) x n h = elim (Bool-cases (str_eq a x && str_eq b n)) [
  | inl e ↦ inl (inl ((eq_iff a x).0 (ground (arith, e)), (eq_iff b n).0 (ground (arith, e))))
  | inr far ↦ elim (Bool-cases (str_eq b x && str_eq a n)) [
    | inl e ↦ inr (inl ((eq_iff a n).0 (ground (arith, e)), (eq_iff b x).0 (ground (arith, e))))
    | inr far' ↦ elim (beside-Linked es x n (ground (arith, far, far', h))) [
      | inl e ↦ inl (inr e)
      | inr e ↦ inr (inr e)
    ]
  ]
]

pub IsEdge-beside :
    (es : List (String × String)) (x y : String)
    → IsEdge es x y
    → (beside es x y ≡ true) × (beside es y x ≡ true)
IsEdge-beside [] x y h = elim h [ ]
IsEdge-beside ((a, b) ∷ es) x y (inl (e, e')) =
    let here = (eq_iff a x).1 e in
    let there = (eq_iff b y).1 e' in (ground (arith, here, there), ground (arith, here, there))
IsEdge-beside ((a, b) ∷ es) x y (inr h) =
    let (one, other) = IsEdge-beside es x y h in (ground (arith, one), ground (arith, other))

str_eq-sym : (x y : String) → str_eq x y ≡ str_eq y x
str_eq-sym x y = elim (Bool-cases (str_eq x y)) [
  | inl e ↦ e ∙ sym ((eq_iff y x).1 (sym ((eq_iff x y).0 e)))
  | inr far ↦ far ∙ sym (differ_sym x y far)
]

contains-add_to :
    (x n : String) (xs : List String) → contains n (add_to x xs) ≡ (str_eq n x || contains n xs)
contains-add_to x n xs = elim (Bool-cases (contains x xs)) [
  | inl held ↦ elim (Bool-cases (str_eq n x)) [
    | inl e ↦
        let also : contains n xs ≡ true =
          subst (λ t. contains t xs ≡ true) (sym ((eq_iff n x).0 e)) held in
        rw (held, e) also
    | inr far ↦ rw (held, far) refl
  ]
  | inr absent ↦ rw absent refl
]

length-add_to : (x : String) (xs : List String) → length (add_to x xs) ≤ suc (length xs)
length-add_to x xs = elim (Bool-cases (contains x xs)) [
  | inl h ↦ rw h (omega arith)
  | inr h ↦ rw h (omega arith)
]

-- The set of an entity's neighbours.
abbrev pub AreNeighbours : List (String × String) → String → List String → Type 0
AreNeighbours done x next =
    ((n : String) → contains n next ≡ beside done x n) × (length next ≤ degree done x)

module _ (done : List (String × String)) (x a b : String) (next : List String) where
  from_source :
      AreNeighbours done x next
      → str_eq a x ≡ true
      → str_eq b x ≡ false
      → AreNeighbours ((a, b) ∷ done) x (add_to b next)
  from_source (all, few) here far = (
    λ n. contains-add_to b n next ∙ ground (arith, all n, here, far, str_eq-sym n b),
    let grown = length-add_to b next in
        let counted : ends_at a x ≡ 1 = rw here refl in omega (arith, grown, few, counted),
  )

  from_target :
      AreNeighbours done x next
      → str_eq b x ≡ true
      → str_eq a x ≡ false
      → AreNeighbours ((a, b) ∷ done) x (add_to a next)
  from_target (all, few) here far = (
    λ n. contains-add_to a n next ∙ ground (arith, all n, here, far, str_eq-sym n a),
    let grown = length-add_to a next in
        let counted : ends_at b x ≡ 1 = rw here refl in omega (arith, grown, few, counted),
  )

  elsewhere :
      AreNeighbours done x next
      → str_eq a x ≡ false
      → str_eq b x ≡ false
      → AreNeighbours ((a, b) ∷ done) x next
  elsewhere (all, few) far far' = (λ n. ground (arith, all n, far, far'), omega (arith, few))

-- Each entity has its neighbours.
abbrev pub Shows : List String → Adjacency → List (String × String) → Type 0
Shows keys adjacency done =
    (x : String)
    → contains x keys ≡ true
    → (next : List String) × (adjacency x ≡ some next) × AreNeighbours done x next

pub connect-Shows :
    (keys : List String) (adjacency : Adjacency) (done : List (String × String)) (a b : String)
    → Shows keys adjacency done
    → contains a keys ≡ true
    → contains b keys ≡ true
    → str_eq a b ≡ false
    → (next : Adjacency) × (connect adjacency (a, b) ≡ ok next) × Shows keys next ((a, b) ∷ done)
unfolding connect
connect-Shows keys adjacency done a b shows key key' apart =
    let (of_a, at_a, all_a) = shows a key in
    let (of_b, at_b, all_b) = shows b key' in
    let first : Adjacency = set_item adjacency a (add_to b of_a) in
    let still : first b ≡ some of_b = set_item-other adjacency a b (add_to b of_a) apart ∙ at_b in
    let second : Adjacency = set_item first b (add_to a of_b) in
    (
      second,
      rw at_a (rw still refl),
      λ x known. elim (Bool-cases (str_eq a x)) [
        | inl e ↦
            let same = (eq_iff a x).0 e in
            let over : second a ≡ some (add_to b of_a) =
              set_item-other first b a (add_to a of_b) (differ_sym a b apart)
              ∙ set_item-same adjacency a (add_to b of_a) in
            subst
              (λ t.
                (next : List String) × (second t ≡ some next)
                × AreNeighbours ((a, b) ∷ done) t next)
              same
              (
                add_to b of_a,
                over,
                from_source done a a b of_a all_a (eq_refl a) (differ_sym a b apart),
              )
        | inr far ↦ elim (Bool-cases (str_eq b x)) [
          | inl e ↦
              let same = (eq_iff b x).0 e in
              subst
                (λ t.
                  (next : List String) × (second t ≡ some next)
                  × AreNeighbours ((a, b) ∷ done) t next)
                same
                (
                  add_to a of_b,
                  set_item-same first b (add_to a of_b),
                  from_target done b a b of_b all_b (eq_refl b) apart,
                )
          | inr far' ↦
              let (next, found, all) = shows x known in
              (
                next,
                set_item-other first b x (add_to a of_b) far'
                    ∙ set_item-other adjacency a x (add_to b of_a) far
                    ∙ found,
                elsewhere done x a b next all far far',
              )
        ]
      ],
    )
