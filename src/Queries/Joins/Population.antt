-- ===== src/Queries/Joins/Population.antt =====
-- What "does not multiply" promises of the rows.
use queryops_ai.Prelude.{
  ℕ, zero, suc, String, Bool, true, false, none, some, List, [], ◌∷◌, str_eq, contains, length,
  if◌then◌else◌, All, ◌≡◌, refl, sym, ap, subst, ◌∙◌, inl, inr, arith, eq_iff, Bool-cases,
  Option-cases,
}
use queryops_ai.Prelude.Results.{ok}
use queryops_ai.Prelude.Shuffles.{Removes}
use queryops_ai.Queries.Joins.{
  Cardinality, SemanticRelationship, SemanticPlan, DomainPack, pop_first, leads_out, is_to_one,
  multiplies, relationships_of, population_may_multiply,
}
use queryops_ai.Queries.Joins.Greedy.{pop_first_sound}

-- A database as far as joins go: which row of the one entity matches which row of the other. The
-- declared cardinalities hold in it.
pub record Database (Row : Type 0) : Type 1 where
  pub Matches : SemanticRelationship → Row → Row → Type 0
  pub to_one :
      (r : SemanticRelationship) (from to to' : Row)
      → Matches r from to
      → Matches r from to'
      → to ≡ to'
  pub from_one :
      (r : SemanticRelationship) (from from' to : Row)
      → r.cardinality ≡ Cardinality.one_to_one
      → Matches r from to
      → Matches r from' to
      → from ≡ from'

only_one : (c : Cardinality) → is_to_one false c ≡ true → c ≡ Cardinality.one_to_one
only_one Cardinality.one_to_one h = refl
only_one Cardinality.many_to_one h = cc

-- Of an edge that leads out, the end that has been visited.
near_end :
    (visited : List String) (r : SemanticRelationship)
    → leads_out visited r ≡ true
    → contains (if contains r.from_entity visited then r.from_entity else r.to_entity) visited
      ≡ true
near_end visited r h = elim (Bool-cases (contains r.from_entity visited)) [
  | inl s ↦ rw s s
  | inr s ↦ rw s (rw s at h)
]

far_end :
    {Row : Type 0} (source : Bool) (r : SemanticRelationship) (row row' : String → Row)
    → (row r.from_entity ≡ row' r.from_entity) × (row r.to_entity ≡ row' r.to_entity)
    → row (if source then r.to_entity else r.from_entity)
      ≡ row' (if source then r.to_entity else r.from_entity)
far_end true r row row' (e, f) = f
far_end false r row row' (e, f) = e

multiplies-stuck :
    (n : ℕ) (visited : List String) (r : SemanticRelationship) (rs : List SemanticRelationship)
    → pop_first (leads_out visited) (r ∷ rs) ≡ none
    → multiplies (suc n) visited (r ∷ rs) ≡ true
unfolding multiplies
multiplies-stuck n visited r rs e = rw (e, multiplies)

multiplies-step :
    (n : ℕ) (visited : List String) (r : SemanticRelationship) (rs : List SemanticRelationship)
    (edge : SemanticRelationship) (rest : List SemanticRelationship)
    → pop_first (leads_out visited) (r ∷ rs) ≡ some (edge, rest)
    → multiplies (suc n) visited (r ∷ rs) ≡ false
    → (is_to_one (contains edge.from_entity visited) edge.cardinality ≡ true)
      × (multiplies n
            ((if contains edge.from_entity visited then edge.to_entity else edge.from_entity)
              ∷ visited)
            rest
          ≡ false)
unfolding multiplies
multiplies-step n visited r rs edge rest e h =
    let h' = rw (e, multiplies) at h in
    elim (Bool-cases (is_to_one (contains edge.from_entity visited) edge.cardinality)) [
      | inl one ↦ (one, rw one at h')
      | inr many ↦ absurd (cc (rw many at h'))
    ]

module _ {Row : Type 0} (d : Database Row) where
  open d use {Matches, to_one, from_one}

  -- A row of the joined table: a row of each entity, which match along every edge.
  abbrev pub IsJoined : List SemanticRelationship → (String → Row) → Type 0
  IsJoined edges row = All (λ r. Matches r (row r.from_entity) (row r.to_entity)) edges

  abbrev AgreeOn : List String → (String → Row) → (String → Row) → Type 0
  AgreeOn visited row row' = (x : String) → contains x visited ≡ true → row x ≡ row' x

  -- Two joined rows agree on the ends of each edge.
  abbrev pub AgreeAlong : List SemanticRelationship → (String → Row) → (String → Row) → Type 0
  AgreeAlong edges row row' =
      All (λ r. (row r.from_entity ≡ row' r.from_entity) × (row r.to_entity ≡ row' r.to_entity))
        edges

  All-Removes :
      (P : SemanticRelationship → Type 0) (r : SemanticRelationship)
      (rs rest : List SemanticRelationship)
      → Removes r rs rest
      → All P rs
      → P r × All P rest
  All-Removes P r [] rest h k = elim h [ ]
  All-Removes P r (x ∷ xs) rest (inl (e, p)) (a, k) = (subst P (sym e) a, subst (All P) (sym p) k)
  All-Removes P r (x ∷ xs) rest (inr (rest', p, h)) (a, k) =
      let (b, more) = All-Removes P r xs rest' h k in (b, subst (All P) (sym p) (a, more))

  Removes-All :
      (P : SemanticRelationship → Type 0) (r : SemanticRelationship)
      (rs rest : List SemanticRelationship)
      → Removes r rs rest
      → P r
      → All P rest
      → All P rs
  Removes-All P r [] rest h a k = tt
  Removes-All P r (x ∷ xs) rest (inl (e, p)) a k = (subst P e a, subst (All P) p k)
  Removes-All P r (x ∷ xs) rest (inr (rest', p, h)) a k =
      let (b, more) : All P (x ∷ rest') = subst (All P) p k in
      (b, Removes-All P r xs rest' h a more)

  agree_more :
      (visited : List String) (a : String) (row row' : String → Row)
      → AgreeOn visited row row'
      → row a ≡ row' a
      → AgreeOn (a ∷ visited) row row'
  agree_more visited a row row' h e x k = elim (Bool-cases (str_eq x a)) [
    | inl same ↦ ap row ((eq_iff x a).0 same) ∙ e ∙ ap row' (sym ((eq_iff x a).0 same))
    | inr other ↦ h x (rw other at k)
  ]

  -- Along an outward edge that is to-one, what is known of one end settles the other.
  settled :
      (r : SemanticRelationship) (source : Bool) (row row' : String → Row)
      → is_to_one source r.cardinality ≡ true
      → Matches r (row r.from_entity) (row r.to_entity)
      → Matches r (row' r.from_entity) (row' r.to_entity)
      → row (if source then r.from_entity else r.to_entity)
        ≡ row' (if source then r.from_entity else r.to_entity)
      → (row r.from_entity ≡ row' r.from_entity) × (row r.to_entity ≡ row' r.to_entity)
  settled r true row row' h m m' e =
      (e, to_one r _ _ _ (subst (λ f. Matches r f (row r.to_entity)) e m) m')
  settled r false row row' h m m' e = (
    from_one r _ _ _ (only_one r.cardinality h) (subst (λ t. Matches r (row r.from_entity) t) e m)
        m',
    e,
  )

  multiplies_sound :
      (n : ℕ) (visited : List String) (edges : List SemanticRelationship) (row row' : String → Row)
      → multiplies n visited edges ≡ false
      → IsJoined edges row
      → IsJoined edges row'
      → AgreeOn visited row row'
      → AgreeAlong edges row row'
  unfolding multiplies
  multiplies_sound n visited [] row row' h j j' agree = tt
  multiplies_sound zero visited (r ∷ rs) row row' h j j' agree = cc
  multiplies_sound (suc n) visited (r ∷ rs) row row' h j j' agree =
      elim (Option-cases (pop_first (leads_out visited) (r ∷ rs))) [
        | inl e ↦ absurd (cc (h, multiplies-stuck n visited r rs e))
        | inr ((edge, rest), e) ↦
            let (out, off) = pop_first_sound (leads_out visited) (r ∷ rs) e in
            let source = contains edge.from_entity visited in
            let (one, later) : (is_to_one source edge.cardinality ≡ true)
                × (multiplies n ((if source then edge.to_entity else edge.from_entity) ∷ visited)
                      rest
                    ≡ false) =
              multiplies-step n visited r rs edge rest e h in
            let (m, more) =
              All-Removes (λ r. Matches r (row r.from_entity) (row r.to_entity)) edge (r ∷ rs) rest
                off j in
            let (m', more') =
              All-Removes (λ r. Matches r (row' r.from_entity) (row' r.to_entity)) edge (r ∷ rs)
                rest off j' in
            let both =
              settled edge source row row' one m m' (agree _ (near_end visited edge out)) in
            Removes-All
              (λ r. (row r.from_entity ≡ row' r.from_entity) × (row r.to_entity ≡ row' r.to_entity))
              edge (r ∷ rs) rest off both
              (multiplies_sound n _ rest row row' later more more' (
                agree_more visited (if source then edge.to_entity else edge.from_entity) row row'
                  agree (far_end source edge row row' both)))
      ]

-- An answer that the population does not multiply is right in every database in which the declared
-- cardinalities hold: two joined rows with the same row of the entity have the same row at every end of
-- every selected relationship, so a row of the entity stands in at most one joined row.
pub population_may_multiply_sound :
    {Row : Type 0} (d : Database Row) (entity_id : String) (plan : SemanticPlan) (pack : DomainPack)
    (edges : List SemanticRelationship) (row row' : String → Row)
    → relationships_of pack.relationships plan.relationships ≡ ok edges
    → population_may_multiply entity_id plan pack ≡ ok false
    → IsJoined d edges row
    → IsJoined d edges row'
    → row entity_id ≡ row' entity_id
    → AgreeAlong d edges row row'
unfolding population_may_multiply
population_may_multiply_sound d entity_id plan pack edges row row' found h j j' e =
    let single : multiplies (length edges) (entity_id ∷ []) edges ≡ false = ground arith in
    multiplies_sound d (length edges) (entity_id ∷ []) edges row row' single j j'
      (agree_more d [] entity_id row row' (λ x k. cc) e)
