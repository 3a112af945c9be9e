-- ===== src/Queries/Joins/Sequence.antt =====
-- Join sequences, described without the search for them.
use queryops_ai.Prelude.{
  String, true, false, ◌||◌, List, [], ◌∷◌, str_eq, contains, ◌≡◌, refl, sym, ap, subst, ◌∙◌, ◌⊎◌,
  inl, inr, arith, eq_iff, eq_refl, Bool-cases,
}
use queryops_ai.Prelude.Shuffles.{Removes}
use queryops_ai.Queries.Joins.{
  Edge, Join, JoinType, SemanticRelationship, is_joinable, added_by, may_join,
}

-- The edge has one end among the available entities, and the other end is the one that it adds. A
-- left join preserves the entity that it comes from, a reversed one the entity that it goes to.
abbrev pub Attaches : List String → SemanticRelationship → JoinType → String → Type 0
Attaches available r JoinType.left a = (contains r.from_entity available ≡ true) × (a ≡ r.to_entity)
Attaches available r JoinType.left_reverse a =
    (contains r.to_entity available ≡ true) × (a ≡ r.from_entity)
Attaches available r JoinType.inner a =
    ((contains r.from_entity available ≡ true) × (a ≡ r.to_entity))
    ⊎ ((contains r.to_entity available ≡ true) × (a ≡ r.from_entity))

abbrev pub IsStep : List String → Join → Type 0
IsStep available j =
    Attaches available j.edge.relationship j.edge.join_type j.added
    × (contains j.added available ≡ false)

-- Each join attaches an entity that is new to those before it.
abbrev pub IsJoinSequence : List String → List Join → Type 0
IsJoinSequence available [] = Unit
IsJoinSequence available (j ∷ js) = IsStep available j × IsJoinSequence (j.added ∷ available) js

abbrev pub edge_of : Join → Edge
edge_of j = j.edge

abbrev pub added_of : Join → String
added_of j = j.added

-- The two lists have the same texts.
abbrev pub SameTexts : List String → List String → Type 0
SameTexts xs ys = (x : String) → contains x xs ≡ contains x ys

step_at :
    (av : List String) (r : SemanticRelationship) (t : JoinType)
    → may_join t (contains r.from_entity av) (contains r.to_entity av) ≡ true
    → Attaches av r t (added_by av (record { relationship = r; join_type = t }))
      × (contains (added_by av (record { relationship = r; join_type = t })) av ≡ false)
step_at av r JoinType.inner h = elim (Bool-cases (contains r.from_entity av)) [
  | inl s ↦ rw s (inl (refl, refl), ground arith)
  | inr s ↦ rw s (inr (ground arith, refl), s)
]
step_at av r JoinType.left h = ground arith
step_at av r JoinType.left_reverse h = ground arith

-- What the search would join is a step.
pub step_lem :
    (av : List String) (e : Edge)
    → is_joinable av e ≡ true
    → IsStep av (record { edge = e; added = added_by av e })
step_lem av e h = step_at av e.relationship e.join_type h

-- The entity that a step adds is the one that the search would add.
step_forced :
    (av : List String) (r : SemanticRelationship) (t : JoinType) (a : String)
    → Attaches av r t a
    → contains a av ≡ false
    → (may_join t (contains r.from_entity av) (contains r.to_entity av) ≡ true)
      × (a ≡ added_by av (record { relationship = r; join_type = t }))
step_forced av r JoinType.inner a (inl (s, e)) h =
    let fresh : contains r.to_entity av ≡ false = rw e at h in (rw (s, fresh) refl, rw s e)
step_forced av r JoinType.inner a (inr (s, e)) h =
    let fresh : contains r.from_entity av ≡ false = rw e at h in (rw (s, fresh) refl, rw fresh e)
step_forced av r JoinType.left a (s, e) h =
    let fresh : contains r.to_entity av ≡ false = rw e at h in (rw (s, fresh) refl, rw s e)
step_forced av r JoinType.left_reverse a (s, e) h =
    let fresh : contains r.from_entity av ≡ false = rw e at h in (rw (s, fresh) refl, rw fresh e)

pub IsStep-is_joinable :
    (av : List String) (j : Join)
    → IsStep av j
    → (is_joinable av j.edge ≡ true) × (j.added ≡ added_by av j.edge)
IsStep-is_joinable av j (attached, fresh) =
    step_forced av j.edge.relationship j.edge.join_type j.added attached fresh

Attaches-mono :
    (av av' : List String) (r : SemanticRelationship) (t : JoinType) (a : String)
    → ((x : String) → contains x av ≡ true → contains x av' ≡ true)
    → Attaches av r t a
    → Attaches av' r t a
Attaches-mono av av' r JoinType.inner a h (inl (s, e)) = inl (h _ s, e)
Attaches-mono av av' r JoinType.inner a h (inr (s, e)) = inr (h _ s, e)
Attaches-mono av av' r JoinType.left a h (s, e) = (h _ s, e)
Attaches-mono av av' r JoinType.left_reverse a h (s, e) = (h _ s, e)

contains-cons :
    (b : String) (av : List String) (x : String) → contains x av ≡ true → contains x (b ∷ av) ≡ true
contains-cons b av x h = ground arith

-- Only the texts count, not their order.
IsJoinSequence-SameTexts :
    (av av' : List String) (js : List Join)
    → SameTexts av av'
    → IsJoinSequence av js
    → IsJoinSequence av' js
IsJoinSequence-SameTexts av av' [] same h = tt
IsJoinSequence-SameTexts av av' (j ∷ js) same ((attached, fresh), more) = (
  (
    Attaches-mono av av' j.edge.relationship j.edge.join_type j.added (λ x p. sym (same x) ∙ p)
        attached,
    sym (same j.added) ∙ fresh,
  ),
  IsJoinSequence-SameTexts (j.added ∷ av) (j.added ∷ av') js
      (λ x. ap (λ t. str_eq x j.added || t) (same x)) more,
)

-- An edge with both of its ends available attaches nothing any more.
attached_by_end :
    (av : List String) (r : SemanticRelationship) (t : JoinType) (a : String)
    → Attaches av r t a
    → contains r.from_entity av ≡ true
    → contains r.to_entity av ≡ true
    → contains a av ≡ true
attached_by_end av r JoinType.inner a (inl (s, e)) p q = rw e q
attached_by_end av r JoinType.inner a (inr (s, e)) p q = rw e p
attached_by_end av r JoinType.left a (s, e) p q = rw e q
attached_by_end av r JoinType.left_reverse a (s, e) p q = rw e p

spent_edge :
    (av : List String) (j : Join) (js rest : List Join)
    → IsJoinSequence av js
    → Removes j js rest
    → contains j.edge.relationship.from_entity av ≡ true
    → contains j.edge.relationship.to_entity av ≡ true
    → ⊥
spent_edge av j [] rest h k p q = elim k [ ]
spent_edge av j (k ∷ ks) rest ((attached, fresh), more) (inl (e, _)) p q =
    let there : contains k.added av ≡ true =
      attached_by_end av k.edge.relationship k.edge.join_type k.added attached (rw e at p)
        (rw e at q) in
    cc (there, fresh)
spent_edge av j (k ∷ ks) rest (_, more) (inr (rest', _, h)) p q =
    spent_edge (k.added ∷ av) j ks rest' more h (contains-cons k.added av _ p)
      (contains-cons k.added av _ q)

-- Once both an end of a joinable edge is available and the entity that it adds, both its ends are.
pub both_ends :
    (av : List String) (r : SemanticRelationship) (t : JoinType) (a : String)
    → Attaches av r t a
    → (contains r.from_entity (a ∷ av) ≡ true) × (contains r.to_entity (a ∷ av) ≡ true)
both_ends av r JoinType.inner a (inl (s, e)) =
    (contains-cons a av _ s, rw (e, eq_refl r.to_entity) refl)
both_ends av r JoinType.inner a (inr (s, e)) =
    (rw (e, eq_refl r.from_entity) refl, contains-cons a av _ s)
both_ends av r JoinType.left a (s, e) = (contains-cons a av _ s, rw (e, eq_refl r.to_entity) refl)
both_ends av r JoinType.left_reverse a (s, e) =
    (rw (e, eq_refl r.from_entity) refl, contains-cons a av _ s)

swap_texts : (a b : String) (av : List String) → SameTexts (a ∷ b ∷ av) (b ∷ a ∷ av)
swap_texts a b av x = ground arith

-- A joinable edge of a sequence can be joined first: it adds the same entity, and the others follow.
pub join_first :
    (av : List String) (j : Join) (a : String) (js rest : List Join)
    → IsJoinSequence av js
    → Removes j js rest
    → IsStep av (record { edge = j.edge; added = a })
    → (j.added ≡ a) × IsJoinSequence (a ∷ av) rest
join_first av j a [] rest h k step = elim k [ ]
join_first av j a (k ∷ ks) rest (first, more) (inl (e, p)) step =
    let same : j.added ≡ a =
      (IsStep-is_joinable av j (subst (IsStep av) (sym e) first)).1
      ∙ sym (IsStep-is_joinable av (record { edge = j.edge; added = a }) step).1 in
    (
      same,
      subst (λ l. IsJoinSequence (a ∷ av) l) (sym p)
          (subst (λ b. IsJoinSequence (b ∷ av) ks) (sym (ap added_of e) ∙ same) more),
    )
join_first av j a (k ∷ ks) rest ((attached, fresh), more) (inr (rest', p, h)) (att, new) =
    elim (Bool-cases (str_eq k.added a)) [
      | inl e ↦
          let ends = both_ends av j.edge.relationship j.edge.join_type a att in
          let k_is_a : k.added ≡ a = (eq_iff k.added a).0 e in
          absurd (
            spent_edge (k.added ∷ av) j ks rest' more h
              (subst (λ b. contains j.edge.relationship.from_entity (b ∷ av) ≡ true) (sym k_is_a)
                ends.0)
              (subst (λ b. contains j.edge.relationship.to_entity (b ∷ av) ≡ true) (sym k_is_a)
                ends.1))
      | inr e ↦
          let (same, tail) = join_first (k.added ∷ av) j a ks rest' more h (
            Attaches-mono av (k.added ∷ av) j.edge.relationship j.edge.join_type a
                (contains-cons k.added av) att,
            ground (arith, eq_iff k.added a, eq_iff a k.added),
          ) in
          (
            same,
            subst (λ l. IsJoinSequence (a ∷ av) l) (sym p)
                (
                  (
                    Attaches-mono av (a ∷ av) k.edge.relationship k.edge.join_type k.added
                        (contains-cons a av) attached,
                    rw e fresh,
                  ),
                  IsJoinSequence-SameTexts (a ∷ k.added ∷ av) (k.added ∷ a ∷ av) rest'
                      (swap_texts a k.added av) tail,
                ),
          )
    ]
