-- ===== src/Prelude/Shuffles.antt =====
-- Lists with the same items in another order, each as often, with the place of every item kept.
use mathlib.Core.Path.{◌≡◌, refl, sym, ap, subst, ◌∙◌}
use mathlib.Core.Logic.{◌⊎◌, inl, inr}
use mathlib.Core.Bool.{Bool}
use mathlib.Core.List.{List, [], ◌∷◌, map}
use queryops_ai.Prelude.Tests.{Bool-cases}
use queryops_ai.Prelude.Sorting.{sort_by, insert_by}

module _ {A : Type 0} where
  -- `rest` is `xs` without one occurrence of `x`.
  abbrev pub Removes : A → List A → List A → Type 0
  Removes x [] rest = ⊥
  Removes x (y ∷ ys) rest =
      ((x ≡ y) × (rest ≡ ys)) ⊎ ((rest' : List A) × (rest ≡ y ∷ rest') × Removes x ys rest')

  -- Each item of the first list is taken off the second, which is then empty.
  abbrev pub Shuffle : List A → List A → Type 0
  Shuffle [] ys = ys ≡ []
  Shuffle (x ∷ xs) ys = (rest : List A) × Removes x ys rest × Shuffle xs rest

  -- Two removals from one list are the same one, or can be made in either order.
  Removes-two :
      (x y : A) (zs r s : List A)
      → Removes x zs r
      → Removes y zs s
      → ((x ≡ y) × (r ≡ s)) ⊎ ((t : List A) × Removes y r t × Removes x s t)
  Removes-two x y [] r s h k = elim h [ ]
  Removes-two x y (z ∷ zs) r s (inl (e, p)) (inl (f, q)) = inl (e ∙ sym f, p ∙ sym q)
  Removes-two x y (z ∷ zs) r s (inl (e, p)) (inr (s', q, k)) =
      inr (s', rw p k, rw q (inl (e, refl)))
  Removes-two x y (z ∷ zs) r s (inr (r', p, h)) (inl (f, q)) =
      inr (r', rw p (inl (f, refl)), rw q h)
  Removes-two x y (z ∷ zs) r s (inr (r', p, h)) (inr (s', q, k)) =
      elim (Removes-two x y zs r' s' h k) [
        | inl (e, m) ↦ inl (e, p ∙ ap (λ l. z ∷ l) m ∙ sym q)
        | inr (t, a, b) ↦ inr (z ∷ t, rw p (inr (t, refl, a)), rw q (inr (t, refl, b)))
      ]

  pub Shuffle-Removes :
      (y : A) (xs zs rest : List A)
      → Shuffle xs zs
      → Removes y zs rest
      → (xs' : List A) × Removes y xs xs' × Shuffle xs' rest
  Shuffle-Removes y [] zs rest h k = absurd (subst (λ l. Removes y l rest) h k)
  Shuffle-Removes y (x ∷ xs) zs rest (r, h, more) k = elim (Removes-two x y zs r rest h k) [
    | inl (e, p) ↦ (xs, inl (sym e, refl), subst (λ l. Shuffle xs l) p more)
    | inr (t, a, b) ↦
        let (xs', c, d) = Shuffle-Removes y xs r t more a in
        (x ∷ xs', inr (xs', refl, c), (t, b, d))
  ]

  Shuffle-add : (x : A) (ys r xs : List A) → Removes x ys r → Shuffle r xs → Shuffle ys (x ∷ xs)
  Shuffle-add x [] r xs h k = elim h [ ]
  Shuffle-add x (y ∷ ys) r xs (inl (e, p)) k =
      (xs, inl (sym e, refl), subst (λ l. Shuffle l xs) p k)
  Shuffle-add x (y ∷ ys) r xs (inr (r', p, h)) k =
      let (q, a, b) : Shuffle (y ∷ r') xs = subst (λ l. Shuffle l xs) p k in
      (x ∷ q, inr (q, refl, a), Shuffle-add x ys r' q h b)

  pub Shuffle-sym : (xs ys : List A) → Shuffle xs ys → Shuffle ys xs
  Shuffle-sym [] ys h = subst (λ l. Shuffle l []) (sym h) refl
  Shuffle-sym (x ∷ xs) ys (r, h, more) = Shuffle-add x ys r xs h (Shuffle-sym xs r more)

  pub Shuffle-trans : (xs ys zs : List A) → Shuffle xs ys → Shuffle ys zs → Shuffle xs zs
  Shuffle-trans [] ys zs h k = subst (λ l. Shuffle l zs) h k
  Shuffle-trans (x ∷ xs) ys zs (r, h, more) k =
      let (zs', a, b) = Shuffle-Removes x zs ys r (Shuffle-sym ys zs k) h in
      (zs', a, Shuffle-trans xs r zs' more (Shuffle-sym zs' r b))

  Removes-insert_by : (le : A → A → Bool) (x : A) (xs : List A) → Removes x (insert_by le x xs) xs
  unfolding insert_by
  Removes-insert_by le x [] = inl (refl, refl)
  Removes-insert_by le x (y ∷ ys) = elim (Bool-cases (le x y)) [
    | inl h ↦ rw h (inl (refl, refl))
    | inr h ↦ rw h (inr (ys, refl, Removes-insert_by le x ys))
  ]

  pub Shuffle-sort_by : (le : A → A → Bool) (xs : List A) → Shuffle xs (sort_by le xs)
  unfolding sort_by
  Shuffle-sort_by le [] = refl
  Shuffle-sort_by le (x ∷ xs) =
      (sort_by le xs, Removes-insert_by le x (sort_by le xs), Shuffle-sort_by le xs)

-- What is removed from the images is the image of something.
pub Removes-map :
    {A B : Type 0} (f : A → B) (y : B) (xs : List A) (rest : List B)
    → Removes y (map f xs) rest
    → (x : A) × (xs' : List A) × Removes x xs xs' × (f x ≡ y) × (map f xs' ≡ rest)
Removes-map f y [] rest h = elim h [ ]
Removes-map f y (x ∷ xs) rest (inl (e, p)) = (x, xs, inl (refl, refl), sym e, sym p)
Removes-map f y (x ∷ xs) rest (inr (r, p, h)) =
    let (z, zs, a, b, c) = Removes-map f y xs r h in (z, x ∷ zs, inr (zs, refl, a), b, rw (c, p))
