-- ===== src/Queries/Graph/Parents.antt =====
-- The parents of the union-find: each entity climbs to a root, in no more steps than edges were united.
use queryops_ai.Prelude.{
  ℕ, zero, suc, ◌≤◌, ◌<◌, String, true, false, Option, some, str_eq, eq_iff, eq_refl, ◌≡◌, refl,
  sym, ap, subst, ◌∙◌, inl, inr, arith, Bool-cases,
}
use mathlib.Core.Option.{some-injective}
use queryops_ai.Prelude.Results.{ok}
use queryops_ai.Queries.Graph.{Parent, set_item, find}

-- From x, n steps up lead to the root r.
abbrev pub Climbs : Parent → String → ℕ → String → Type 0
Climbs p x zero r = (x ≡ r) × (p x ≡ some x)
Climbs p x (suc n) r = (y : String) × (p x ≡ some y) × (str_eq y x ≡ false) × Climbs p y n r

pub not_above : (p : Parent) (x y : String) → p x ≡ some y → p x ≡ some x → str_eq y x ≡ true
not_above p x y up root = (eq_iff y x).1 (some-injective _ _ (sym up ∙ root))

pub differ_sym : (x y : String) → str_eq x y ≡ false → str_eq y x ≡ false
differ_sym x y h = elim (Bool-cases (str_eq y x)) [
  | inl e ↦ cc ((eq_iff x y).1 (sym ((eq_iff y x).0 e)), h)
  | inr differ ↦ differ
]

-- The root, and the number of steps, are determined.
pub Climbs-unique :
    (p : Parent) (x : String) (n m : ℕ) (r s : String)
    → Climbs p x n r
    → Climbs p x m s
    → (n ≡ m) × (r ≡ s)
Climbs-unique p x zero zero r s (e, _) (e', _) = (refl, sym e ∙ e')
Climbs-unique p x zero (suc m) r s (_, root) (y, up, other, _) = cc (not_above p x y up root, other)
Climbs-unique p x (suc n) zero r s (y, up, other, _) (_, root) = cc (not_above p x y up root, other)
Climbs-unique p x (suc n) (suc m) r s (y, up, _, c) (z, up', _, c') =
    let e : z ≡ y = some-injective _ _ (sym up' ∙ up) in
    let (same, root) = Climbs-unique p y n m r s c (subst (λ v. Climbs p v m s) e c') in
    (ap suc same, root)

-- Nobody stands above the parent's parent.
above-differs :
    (p : Parent) (x y z : String) (n : ℕ) (r : String)
    → p x ≡ some y
    → str_eq y x ≡ false
    → p y ≡ some z
    → str_eq z y ≡ false
    → Climbs p z n r
    → str_eq z x ≡ false
above-differs p x y z n r up other up' other' c = elim (Bool-cases (str_eq z x)) [
  | inl same ↦
      let whole : Climbs p z (suc (suc n)) r =
        subst (λ v. Climbs p v (suc (suc n)) r) (sym ((eq_iff z x).0 same))
          (y, up, other, (z, up', other', c)) in
      let twice = Climbs-unique p z n (suc (suc n)) r r c whole in absurd (omega (arith, twice.0))
  | inr differ ↦ differ
]

-- From x, at most n steps up lead to the root r.
abbrev pub Within : Parent → String → ℕ → String → Type 0
Within p x n r = (m : ℕ) × (m ≤ n) × Climbs p x m r

pub up_one :
    (p : Parent) (x y : String) (n : ℕ) (r : String)
    → p x ≡ some y
    → str_eq y x ≡ false
    → Within p y n r
    → Within p x (suc n) r
up_one p x y n r up other (m, bound, c) = (suc m, omega arith, (y, up, other, c))

more : (p : Parent) (x : String) (n : ℕ) (r : String) → Within p x n r → Within p x (suc n) r
more p x n r (m, bound, c) = (m, omega arith, c)

pub set_item-same {ℓ} :
    {A : Type ℓ} (p : String → Option A) (k : String) (v : A) → set_item p k v k ≡ some v
set_item-same p k v = rw (eq_refl k) refl

pub set_item-other {ℓ} :
    {A : Type ℓ} (p : String → Option A) (k x : String) (v : A)
    → str_eq k x ≡ false
    → set_item p k v x ≡ p x
set_item-other p k x v h = rw h refl

-- The parent of an entity is set to its parent's parent.
module _ (p : Parent) (x y z : String) (up : p x ≡ some y) (other : str_eq y x ≡ false)
    (up' : p y ≡ some z) where
  abbrev halved : Parent
  halved = set_item p x z

  from_child : (r : String) → Climbs p x 1 r → Within halved x 1 r
  from_child r (v, over, differ, (e, root)) =
      let parent : v ≡ y = some-injective _ _ (sym over ∙ up) in
      let top : v ≡ z = some-injective _ _ (sym root ∙ ap p parent ∙ up') in
      let over' : halved x ≡ some v = set_item-same p x z ∙ ap some (sym top) in
      let still : halved v ≡ some v = set_item-other p x v z (differ_sym v x differ) ∙ root in
      (1, omega arith, (v, over', differ, (e, still)))

  from_grandchild :
      (n : ℕ) (r : String)
      → (Climbs p z n r → Within halved z n r)
      → Climbs p x (suc (suc n)) r
      → Within halved x (suc n) r
  from_grandchild n r keeps (v, over, _, (u, over', differ, c)) =
      let parent : v ≡ y = some-injective _ _ (sym over ∙ up) in
      let top : u ≡ z = some-injective _ _ (sym over' ∙ ap p parent ∙ up') in
      let climb : Climbs p z n r = subst (λ t. Climbs p t n r) top c in
      let apart : str_eq z y ≡ false = cc (differ, parent, top) in
      up_one halved x z n r (set_item-same p x z)
        (above-differs p x y z n r up other up' apart climb) (keeps climb)

  pub halved-Climbs : (n : ℕ) (w r : String) → Climbs p w n r → Within halved w n r
  halved-Climbs zero w r (e, root) = elim (Bool-cases (str_eq x w)) [
    | inl here ↦
        let same : x ≡ w = (eq_iff x w).0 here in
        cc (not_above p x y up (subst (λ t. p t ≡ some t) (sym same) root), other)
    | inr away ↦ (zero, omega arith, (e, set_item-other p x w z away ∙ root))
  ]
  halved-Climbs (suc zero) w r c = elim (Bool-cases (str_eq x w)) [
    | inl here ↦
        let same : x ≡ w = (eq_iff x w).0 here in
        subst (λ t. Within halved t 1 r) same
          (from_child r (subst (λ t. Climbs p t 1 r) (sym same) c))
    | inr away ↦
        let (v, over, differ, top) = c in
        up_one halved w v zero r (set_item-other p x w z away ∙ over) differ
          (halved-Climbs zero v r top)
  ]
  halved-Climbs (suc (suc n)) w r c = elim (Bool-cases (str_eq x w)) [
    | inl here ↦
        let same : x ≡ w = (eq_iff x w).0 here in
        subst (λ t. Within halved t (suc (suc n)) r) same
          (more halved x (suc n) r (
            from_grandchild n r (halved-Climbs n z r)
              (subst (λ t. Climbs p t (suc (suc n)) r) (sym same) c)))
    | inr away ↦
        let (v, over, differ, rest) = c in
        up_one halved w v (suc n) r (set_item-other p x w z away ∙ over) differ
          (halved-Climbs (suc n) v r rest)
  ]

-- What holds of every climb before holds after, but that it may be shorter.
abbrev pub Keeps : Parent → Parent → Type 0
Keeps p p' = (n : ℕ) (w r : String) → Climbs p w n r → Within p' w n r

Keeps-trans : (p q t : Parent) → Keeps p q → Keeps q t → Keeps p t
Keeps-trans p q t f g n w r c =
    let (m, bound, d) = f n w r c in let (k, less, e) = g m w r d in (k, omega arith, e)

-- An entity that climbs has a parent, which climbs no further.
parent-Climbs :
    (p : Parent) (x : String) (n : ℕ) (r : String)
    → Climbs p x n r
    → (y : String) × (p x ≡ some y) × Within p y n r
parent-Climbs p x zero r (e, root) = (x, root, (zero, omega arith, (e, root)))
parent-Climbs p x (suc n) r (y, up, _, c) = (y, up, (n, omega arith, c))

-- A round of `find` halves the path, and goes on from the parent's parent.
find-round :
    (fuel : ℕ) (p : Parent) (x y z : String)
    → p x ≡ some y
    → str_eq y x ≡ false
    → p y ≡ some z
    → find (suc fuel) p x ≡ find fuel (set_item p x z) z
unfolding find
find-round fuel p x y z up other up' = ground (arith, up, other, up')

-- With fuel for one step more than the climb has, `find` gives the root, and keeps the climbs.
pub find-root :
    (fuel : ℕ) (p : Parent) (x : String) (n : ℕ) (r : String)
    → Climbs p x n r
    → n < fuel
    → (p' : Parent) × (find fuel p x ≡ ok (p', r)) × Keeps p p'
unfolding find
find-root zero p x n r c bound = absurd (omega arith)
find-root (suc fuel) p x zero r (e, root) bound =
    (p, ground (arith, root, eq_refl x, e), λ n w s c. (n, omega arith, c))
find-root (suc fuel) p x (suc n) r (y, up, other, c) bound =
    let (z, up', (m, short, climb)) = parent-Climbs p y n r c in
    let (k, shorter, climb') = halved-Climbs p x y z up other up' m z r climb in
    let (p', found, keeps) = find-root fuel (set_item p x z) z k r climb' (omega arith) in
    (
      p',
      find-round fuel p x y z up other up' ∙ found,
      Keeps-trans p (set_item p x z) p' (halved-Climbs p x y z up other up') keeps,
    )
