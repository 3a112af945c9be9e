-- ===== src/Dashboards/Grid/Cells.antt =====
-- What an overlap is, and what is parsed.
use queryops_ai.Prelude.{ℕ, ◌+◌, ◌≤◌, ◌<◌, true, leb, if◌then◌else◌, ◌≡◌, ◌↔◌, arith}
use queryops_ai.Dashboards.Grid.{Coordinates, overlaps}

-- The cell in column `i` and row `j` lies under the card.
abbrev pub Covers : Coordinates → ℕ → ℕ → Type 0
Covers c i j = (c.x ≤ i) × (i < c.x + c.w) × (c.y ≤ j) × (j < c.y + c.h)

abbrev larger : ℕ → ℕ → ℕ
larger a b = if leb a b then b else a

overlaps_cell :
    (a b : Coordinates)
    → (0 < a.w) × (0 < a.h) × (0 < b.w) × (0 < b.h)
    → overlaps a b ≡ true
    → let i = larger a.x b.x in let j = larger a.y b.y in Covers a i j × Covers b i j
unfolding overlaps
overlaps_cell a b sizes h = ground arith

cell-overlaps : (a b : Coordinates) (i j : ℕ) → Covers a i j → Covers b i j → overlaps a b ≡ true
unfolding overlaps
cell-overlaps a b i j ha hb = ground arith

-- Two cards of at least one cell overlap exactly if some cell lies under both.
pub overlaps_iff :
    (a b : Coordinates)
    → (0 < a.w) × (0 < a.h) × (0 < b.w) × (0 < b.h)
    → (overlaps a b ≡ true) ↔ ((i : ℕ) × (j : ℕ) × Covers a i j × Covers b i j)
overlaps_iff a b sizes = (
  λ h. let (ha, hb) = overlaps_cell a b sizes h in (larger a.x b.x, larger a.y b.y, ha, hb),
  λ (i, j, ha, hb). cell-overlaps a b i j ha hb,
)

pub overlaps_comm : (a b : Coordinates) → overlaps a b ≡ overlaps b a
unfolding overlaps
overlaps_comm a b = ground arith
