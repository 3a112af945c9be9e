-- ===== src/Queries/Graph/Acyclic.antt =====
-- The union-find finds out whether the edges form a cycle.
use queryops_ai.Prelude.{
  ℕ, zero, suc, ◌<◌, String, true, false, some, List, ◌∷◌, str_eq, eq_iff, if◌then◌else◌, length,
  contains, ◌≡◌, refl, sym, subst, ◌∙◌, ◌⊎◌, inl, inr, arith, Bool-cases,
}
use queryops_ai.Prelude.Results.{ok, err}
use queryops_ai.Queries.Graph.{relationship_graph_cycle, Parent, set_item, find, unite}
use queryops_ai.Queries.Graph.Parents.{Climbs, Within, Keeps, Climbs-unique, find-root}
use queryops_ai.Queries.Graph.Linked.{IsEdge, Linked, edge, same, back, chain, wider}
use queryops_ai.Queries.Graph.United.{
  Up, Meet, new_root, united-Climbs, united-Up, from_left, from_right, trans-Meet,
}

module _ (keys : List String) where
  -- What the edges so far have made of the parents.
  pub record Inv (p : Parent) (done : List (String × String)) : Type 0 where
    pub climbs :
        (x : String)
        → contains x keys ≡ true
        → (r : String) × Within p x (length done) r × Linked done x r
    pub joined : (x y : String) → IsEdge done x y → Meet p x y

  Inv-Keeps :
      (p p' : Parent) (done : List (String × String)) → Keeps p p' → Inv p done → Inv p' done
  Inv-Keeps p p' done keeps inv = record {
    climbs = λ x key.
        let (r, (n, bound, c), link) = inv.climbs x key in
        let (m, less, c') = keeps n x r c in (r, (m, omega arith, c'), link);
    joined = λ x y e.
        let (r, (n, c), (m, d)) = inv.joined x y e in
        let (n', _, c') = keeps n x r c in
        let (m', _, d') = keeps m y r d in (r, (n', c'), (m', d'));
  }

  -- Linked entities climb to one root.
  Linked-Meet :
      (p : Parent) (done : List (String × String)) (x y : String)
      → Inv p done
      → Linked done x y
      → (x ≡ y) ⊎ Meet p x y
  Linked-Meet p done x y inv (edge e) = inr (inv.joined x y e)
  Linked-Meet p done x y inv (same e) = inl e
  Linked-Meet p done x y inv (back h) = elim (Linked-Meet p done y x inv h) [
    | inl e ↦ inl (sym e)
    | inr (r, u, v) ↦ inr (r, v, u)
  ]
  Linked-Meet p done x z inv (chain {y = y} h k) =
      trans-Meet p x y z (Linked-Meet p done x y inv h) (Linked-Meet p done y z inv k)

  -- The new root of two trees.
  united-Inv :
      (p : Parent) (done : List (String × String)) (a b left right : String)
      → Inv p done
      → Up p a left
      → Up p b right
      → Linked done a left
      → Linked done b right
      → p left ≡ some left
      → p right ≡ some right
      → str_eq left right ≡ false
      → Inv (set_item p left right) ((a, b) ∷ done)
  united-Inv p done a b left right inv (n, up_a) (m, up_b) link_a link_b top top' apart = record {
    climbs = λ x key.
        let (r, (k, bound, c), link) = inv.climbs x key in
        let (k', less, c') = united-Climbs p left right top top' apart k x r c in
        (
          new_root p left right top top' apart r,
          (k', omega arith, c'),
          to_new x r (wider (a, b) done x r link),
        );
    joined = λ x y e. elim e [
      | inl (ea, eb) ↦ (
        right,
        subst (λ t. Up (set_item p left right) t right) ea
            (from_left p left right top top' apart a (n, up_a)),
        subst (λ t. Up (set_item p left right) t right) eb
            (from_right p left right top top' apart b (m, up_b)),
      )
      | inr before ↦
          let (r, u, v) = inv.joined x y before in
          (
            new_root p left right top top' apart r,
            united-Up p left right top top' apart x r u,
            united-Up p left right top top' apart y r v,
          )
    ];
  }
    where
      joins : Linked ((a, b) ∷ done) left right
      joins =
          chain (back (wider (a, b) done a left link_a))
            (chain (edge (inl (refl, refl))) (wider (a, b) done b right link_b))

      to_new :
          (x r : String)
          → Linked ((a, b) ∷ done) x r
          → Linked ((a, b) ∷ done) x (if str_eq left r then right else r)
      to_new x r link = elim (Bool-cases (str_eq left r)) [
        | inl here ↦ rw here (chain link (chain (same (sym ((eq_iff left r).0 here))) joins))
        | inr away ↦ rw away link
      ]

  one_root : (p : Parent) (x r s : String) → Up p x r → Up p x s → r ≡ s
  one_root p x r s (n, c) (m, d) = let (_, e) = Climbs-unique p x n m r s c d in e

  apart-Unlinked :
      (p : Parent) (done : List (String × String)) (a b left right : String)
      → Inv p done
      → Up p a left
      → Up p b right
      → str_eq left right ≡ false
      → Linked done a b
      → ⊥
  apart-Unlinked p done a b left right inv u v apart link = elim (Linked-Meet p done a b inv link) [
    | inl e ↦ cc (
      (eq_iff left right).1 (one_root p a left right u (subst (λ t. Up p t right) (sym e) v)),
      apart,
    )
    | inr (r, u', v') ↦
        cc ((eq_iff left right).1 (one_root p a left r u u' ∙ one_root p b r right v' v), apart)
  ]

  abbrev pub Outcome : ℕ → Parent → List (String × String) → String → String → Type 0
  Outcome fuel p done a b =
      (unite fuel p (a, b) ≡ err relationship_graph_cycle) × Linked done a b
      ⊎ (p' : Parent) × (unite fuel p (a, b) ≡ ok p') × ¬ (Linked done a b) × Inv p' ((a, b) ∷ done)

  root_of : (p : Parent) (x : String) (n : ℕ) (r : String) → Climbs p x n r → p r ≡ some r
  root_of p x zero r (e, root) = subst (λ t. p t ≡ some t) e root
  root_of p x (suc n) r (y, _, _, c) = root_of p y n r c

  unite-found :
      (fuel : ℕ) (p p1 p2 : Parent) (a b left right : String)
      → find fuel p a ≡ ok (p1, left)
      → find fuel p1 b ≡ ok (p2, right)
      → unite fuel p (a, b)
        ≡ (if str_eq left right then err relationship_graph_cycle else ok (set_item p2 left right))
  unfolding unite
  unite-found fuel p p1 p2 a b left right e e' = rw (e, e') refl

  -- The edge is refused exactly when its ends were linked.
  pub unite-Outcome :
      (fuel : ℕ) (p : Parent) (done : List (String × String)) (a b : String)
      → Inv p done
      → contains a keys ≡ true
      → contains b keys ≡ true
      → length done < fuel
      → Outcome fuel p done a b
  unite-Outcome fuel p done a b inv key key' bound =
      let (left, (n, n_bound, up_a), link_a) = inv.climbs a key in
      let (p1, found, keeps) = find-root fuel p a n left up_a (omega arith) in
      let inv1 = Inv-Keeps p p1 done keeps inv in
      let (right, (m, m_bound, up_b), link_b) = inv1.climbs b key' in
      let (p2, found', keeps') = find-root fuel p1 b m right up_b (omega arith) in
      let inv2 = Inv-Keeps p1 p2 done keeps' inv1 in
      let (n1, _, up_a1) = keeps n a left up_a in
      let (n2, _, up_a2) = keeps' n1 a left up_a1 in
      let (m2, _, up_b2) = keeps' m b right up_b in
      let runs = unite-found fuel p p1 p2 a b left right found found' in
      elim (Bool-cases (str_eq left right)) [
        | inl one ↦ inl (
          runs ∙ rw one refl,
          chain link_a (chain (same ((eq_iff left right).0 one)) (back link_b)),
        )
        | inr apart ↦ inr (
          set_item p2 left right,
          runs ∙ rw apart refl,
          apart-Unlinked p2 done a b left right inv2 (n2, up_a2) (m2, up_b2) apart,
          united-Inv p2 done a b left right inv2 (n2, up_a2) (m2, up_b2) link_a link_b
              (root_of p2 a n2 left up_a2) (root_of p2 b m2 right up_b2) apart,
        )
      ]
