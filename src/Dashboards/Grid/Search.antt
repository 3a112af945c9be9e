-- ===== src/Dashboards/Grid/Search.antt =====
-- `_first_available_coordinates` finds the first place, and there is one.
use queryops_ai.Prelude.{
  ℕ, zero, suc, ◌+◌, ◌-◌, ◌≤◌, ◌<◌, Bool, true, false, not, none, some, List, [], ◌∷◌, any, all,
  leb, ◌≡◌, refl, ◌⊎◌, inl, inr, ap, ◌∙◌, arith, Bool-cases, Option-cases,
}
use queryops_ai.Dashboards.Grid.{
  Coordinates, max_layout_y, overlaps, candidate, search_row, search_rows,
  first_available_coordinates,
}

-- The position (x, y) is read before (x', y') is.
abbrev pub Before : ℕ → ℕ → ℕ → ℕ → Type 0
Before x y x' y' = (y < y') ⊎ ((y ≡ y') × (x < x'))

module _ (w h : ℕ) (occupied : List Coordinates) where
  abbrev pub is_free : ℕ → ℕ → Bool
  is_free x y = not (any (overlaps (candidate w h occupied x y)) occupied)

  search_row-some :
      (n x y : ℕ) (c : Coordinates)
      → search_row w h occupied n x y ≡ some c
      → (i : ℕ) × (c ≡ candidate w h occupied i y)
        × (x ≤ i)
        × (i < x + n)
        × (is_free i y ≡ true)
        × ((j : ℕ) → x ≤ j → j < i → is_free j y ≡ false)
  unfolding search_row
  search_row-some zero x y c e = cc
  search_row-some (suc n) x y c e = elim (Bool-cases (is_free x y)) [
    | inl free ↦ (x, ground (arith, free), ground arith, ground arith, free, λ j l r. ground arith)
    | inr taken ↦
        let (i, at, low, high, free, first) =
          search_row-some n (x + 1) y c (ground (arith, taken)) in
        (
          i,
          at,
          omega (arith, low),
          omega (arith, high),
          free,
          λ j l r. elim (Bool-cases (leb j x)) [
            | inl here ↦ let same : j ≡ x = ground arith in ap (λ k. is_free k y) same ∙ taken
            | inr later ↦ first j (ground arith) r
          ],
        )
  ]

  search_row-none :
      (n x y : ℕ)
      → search_row w h occupied n x y ≡ none
      → (j : ℕ) → x ≤ j
      → j < x + n
      → is_free j y ≡ false
  unfolding search_row
  search_row-none zero x y e j l r = ground arith
  search_row-none (suc n) x y e j l r = elim (Bool-cases (is_free x y)) [
    | inl free ↦ ground (arith, free)
    | inr taken ↦ elim (Bool-cases (leb j x)) [
      | inl here ↦ let same : j ≡ x = ground arith in ap (λ k. is_free k y) same ∙ taken
      | inr later ↦
          search_row-none n (x + 1) y (ground (arith, taken)) j (ground arith) (ground arith)
    ]
  ]

  search_rows-some :
      (places n y : ℕ) (c : Coordinates)
      → search_rows w h occupied places n y ≡ some c
      → (i : ℕ) × (k : ℕ) × (c ≡ candidate w h occupied i k)
        × (i < places)
        × (y ≤ k)
        × (k < y + n)
        × (is_free i k ≡ true)
        × ((i' k' : ℕ) → i' < places → y ≤ k' → Before i' k' i k → is_free i' k' ≡ false)
  unfolding search_rows
  search_rows-some places zero y c e = cc
  search_rows-some places (suc n) y c e = elim (Option-cases (search_row w h occupied places 0 y)) [
    | inr (d, hit) ↦
        let found : search_row w h occupied places 0 y ≡ some c = ground (arith, hit) in
        let (i, at, low, high, free, first) = search_row-some places 0 y c found in
        (
          i,
          y,
          at,
          omega (arith, high),
          omega arith,
          omega arith,
          free,
          λ i' k' inside below earlier. elim earlier [
            | inl above ↦ ground arith
            | inr (same, left) ↦ ap (is_free i') same ∙ first i' (omega arith) left
          ],
        )
    | inl missed ↦
        let (i, k, at, high, low, late, free, first) =
          search_rows-some places n (y + 1) c (ground (arith, missed)) in
        (
          i,
          k,
          at,
          high,
          omega (arith, low),
          omega (arith, late),
          free,
          λ i' k' inside below earlier. elim (Bool-cases (leb k' y)) [
            | inl here ↦
                let same : k' ≡ y = ground arith in
                ap (is_free i') same
                ∙ search_row-none places 0 y missed i' (omega arith) (omega arith)
            | inr later ↦ first i' k' inside (ground arith) earlier
          ],
        )
  ]

  search_rows-none :
      (places n y : ℕ)
      → search_rows w h occupied places n y ≡ none
      → (i k : ℕ) → i < places
      → y ≤ k
      → k < y + n
      → is_free i k ≡ false
  unfolding search_rows
  search_rows-none places zero y e i k inside low late = ground arith
  search_rows-none places (suc n) y e i k inside low late =
      elim (Option-cases (search_row w h occupied places 0 y)) [
        | inr (d, hit) ↦ ground (arith, hit)
        | inl missed ↦ elim (Bool-cases (leb k y)) [
          | inl here ↦
              let same : k ≡ y = ground arith in
              ap (is_free i) same ∙ search_row-none places 0 y missed i (omega arith) (omega arith)
          | inr later ↦
              search_rows-none places n (y + 1) (ground (arith, missed)) i k inside (ground arith)
                (ground arith)
        ]
      ]

  -- The place that is found has the given size, lies within the columns and the rows, overlaps
  -- nothing, and is the first such place: every place before it, row by row, overlaps something.
  pub first_available_coordinates_sound :
      (columns : ℕ) (c : Coordinates)
      → first_available_coordinates columns w h occupied ≡ some c
      → (c.w ≡ w)
        × (c.h ≡ h)
        × (c.x + c.w ≤ columns)
        × (c.y ≤ max_layout_y)
        × (any (overlaps c) occupied ≡ false)
        × ((i k : ℕ)
            → i + w ≤ columns
            → Before i k c.x c.y
            → any (overlaps (candidate w h occupied i k)) occupied ≡ true)
  unfolding first_available_coordinates
  first_available_coordinates_sound columns c e =
      let (i, k, at, inside, low, late, free, first) =
        search_rows-some ((columns + 1) - w) (max_layout_y + 1) 0 c e in
      let is_x : c.x ≡ i = ap Coordinates.x at in
      let is_y : c.y ≡ k = ap Coordinates.y at in
      (
        ap Coordinates.w at,
        ap Coordinates.h at,
        omega (arith, is_x, ap Coordinates.w at, inside),
        omega (arith, is_y, late),
        ap (λ d. any (overlaps d) occupied) at ∙ ground (arith, free),
        λ i' k' fits earlier.
            let taken =
              first i' k' (omega arith) (omega arith) (ground (arith, is_x, is_y, earlier)) in
            ground (arith, taken),
      )

  below-overlaps :
      (items : List Coordinates)
      → all (λ o. leb (o.y + o.h) max_layout_y) items ≡ true
      → any (overlaps (candidate w h occupied 0 max_layout_y)) items ≡ false
  unfolding overlaps
  below-overlaps [] low = refl
  below-overlaps (o ∷ os) low = ground (arith, below-overlaps os)

  -- There is a place for whatever is no wider than the grid, as long as every occupied place has ended
  -- by row 10000, the last one of the search (y + h is at most 10000): that row itself is then free.
  pub first_available_coordinates-IsSome :
      (columns : ℕ)
      → w ≤ columns
      → all (λ o. leb (o.y + o.h) max_layout_y) occupied ≡ true
      → (c : Coordinates) × (first_available_coordinates columns w h occupied ≡ some c)
  unfolding first_available_coordinates
  first_available_coordinates-IsSome columns fits low =
      elim (Option-cases (first_available_coordinates columns w h occupied)) [
        | inr found ↦ found
        | inl absent ↦
            let taken =
              search_rows-none ((columns + 1) - w) (max_layout_y + 1) 0 absent 0 max_layout_y
                (omega arith) (omega arith) (omega arith) in
            ground (arith, taken, below-overlaps occupied low)
      ]
