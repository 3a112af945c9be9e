-- ===== src/Queries/Graph/United.antt =====
-- What the union of two trees does to the climbs.
use queryops_ai.Prelude.{
  ℕ, zero, suc, String, true, false, some, str_eq, eq_iff, eq_refl, if◌then◌else◌, ◌≡◌, refl, sym,
  subst, ◌∙◌, ◌⊎◌, inl, inr, arith, Bool-cases,
}
use queryops_ai.Queries.Graph.{Parent, set_item}
use queryops_ai.Queries.Graph.Parents.{
  Climbs, Within, Climbs-unique, up_one, not_above, set_item-other, differ_sym,
}

abbrev pub Up : Parent → String → String → Type 0
Up p x r = (n : ℕ) × Climbs p x n r

-- A root is put below another one.
module _ (p : Parent) (left right : String) (top : p left ≡ some left) (top' : p right ≡ some right)
    (apart : str_eq left right ≡ false) where
  abbrev pub united : Parent
  united = set_item p left right

  abbrev pub new_root : String → String
  new_root s = if str_eq left s then right else s

  pub united-Climbs : (n : ℕ) (w s : String) → Climbs p w n s → Within united w (suc n) (new_root s)
  united-Climbs zero w s (e, root) = elim (Bool-cases (str_eq left w)) [
    | inl here ↦
        let to_root : new_root s ≡ right =
          let there : str_eq left s ≡ true = subst (λ t. str_eq left t ≡ true) e here in
          rw there refl in
        let over : united w ≡ some right = rw here refl in
        let differ : str_eq right w ≡ false =
          subst (λ t. str_eq right t ≡ false) ((eq_iff left w).0 here)
            (differ_sym left right apart) in
        (
          1,
          omega arith,
          (right, over, differ, (sym to_root, set_item-other p left right right apart ∙ top')),
        )
    | inr away ↦
        let stays : w ≡ new_root s =
          let there : str_eq left s ≡ false = subst (λ t. str_eq left t ≡ false) e away in
          rw there e in
        (zero, omega arith, (stays, set_item-other p left w right away ∙ root))
  ]
  united-Climbs (suc n) w s (v, over, differ, c) = elim (Bool-cases (str_eq left w)) [
    | inl here ↦
        let root : p w ≡ some w = subst (λ t. p t ≡ some t) ((eq_iff left w).0 here) top in
        cc (not_above p w v over root, differ)
    | inr away ↦
        up_one united w v (suc n) (new_root s) (set_item-other p left w right away ∙ over) differ
          (united-Climbs n v s c)
  ]

  pub united-Up : (x s : String) → Up p x s → Up united x (new_root s)
  united-Up x s (n, c) = let (m, _, c') = united-Climbs n x s c in (m, c')

  pub from_left : (x : String) → Up p x left → Up united x right
  from_left x u =
      let here : new_root left ≡ right = ground (arith, eq_refl left) in
      subst (Up united x) here (united-Up x left u)

  pub from_right : (x : String) → Up p x right → Up united x right
  from_right x u =
      let away : new_root right ≡ right = rw apart refl in
      subst (Up united x) away (united-Up x right u)

-- Both climb to one root.
abbrev pub Meet : Parent → String → String → Type 0
Meet p x y = (r : String) × Up p x r × Up p y r

pub trans-Meet :
    (p : Parent) (x y z : String)
    → (x ≡ y) ⊎ Meet p x y
    → (y ≡ z) ⊎ Meet p y z
    → (x ≡ z) ⊎ Meet p x z
trans-Meet p x y z (inl e) (inl e') = inl (e ∙ e')
trans-Meet p x y z (inl e) (inr m) = inr (subst (λ t. Meet p t z) (sym e) m)
trans-Meet p x y z (inr m) (inl e) = inr (subst (λ t. Meet p x t) e m)
trans-Meet p x y z (inr (r, u, (n, c))) (inr (s, (m, d), v)) =
    let (_, e) = Climbs-unique p y n m r s c d in inr (r, u, subst (Up p z) (sym e) v)
