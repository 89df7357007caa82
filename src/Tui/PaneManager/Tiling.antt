-- ===== src/Tui/PaneManager/Tiling.antt =====
-- packages/tui/src/components/pane-manager.ts: where the rectangles of the panes lie.
use tbridge.Base.{
  ℕ, zero, suc, ◌+◌, ◌-◌, ◌*◌, ◌/◌, ◌%◌, ◌≤◌, ◌<◌, ◌≡◌, ◌≢◌, refl, ap, sym, ◌∙◌, ◌⊎◌, inl, inr,
  List, [], ◌∷◌, All, length, nat_eq, arith,
}
use native.Mathlib.Nat.{
  mod-lt, mul-div-le, mul-le-mul_right, div-lt_iff_lt-mul, lt-div-mul-add, div-add-mod,
}
use tbridge.Tui.PaneManager.{
  Rect, ceil_sqrt_from, ceil_sqrt, ceil_div, extent, cell, cells, grid_cells, calculate_grid,
}

-- The rectangle lies in the region.
abbrev pub Inside : ℕ → ℕ → ℕ → ℕ → Rect → Type 0
Inside x y w h r = (x ≤ r.x) × (r.x + r.width ≤ x + w) × (y ≤ r.y) × (r.y + r.height ≤ y + h)

-- One is beside the other, or above it.
abbrev pub Apart : Rect → Rect → Type 0
Apart r s =
    (r.x + r.width ≤ s.x) ⊎ (s.x + s.width ≤ r.x) ⊎ (r.y + r.height ≤ s.y) ⊎ (s.y + s.height ≤ r.y)

-- So many cells take no more than the size.
cells_fit : (i n size : ℕ) → i ≤ n → i * (size / n) ≤ size
cells_fit i n size h =
    omega (arith, mul-le-mul_right {m = i} {n = n} (size / n) h, mul-div-le size n)

extent-within : (i n size : ℕ) → i < n → i * (size / n) + extent i n size ≤ size
extent-within i n size h =
    ground (arith, cells_fit i n size (omega arith), cells_fit (i + 1) n size (omega arith))

-- A cell ends before the next begins.
extent-before : (i j n size : ℕ) → i < j → j < n → i * (size / n) + extent i n size ≤ j * (size / n)
extent-before i j n size ij jn =
    ground (arith, mul-le-mul_right {m = i + 1} {n = j} (size / n) (omega arith))

ceil_sqrt_from-covers :
    (fuel c n : ℕ) → n ≤ c + fuel → n ≤ ceil_sqrt_from fuel c n * ceil_sqrt_from fuel c n
unfolding ceil_sqrt_from
ceil_sqrt_from-covers zero zero n h = omega arith
ceil_sqrt_from-covers zero (suc c) n h =
    omega (arith, mul-le-mul_right {m = 1} {n = suc c} (suc c) (omega arith))
ceil_sqrt_from-covers (suc fuel) c n h =
    ground (arith, ceil_sqrt_from-covers fuel (suc c) n (omega arith))

root-pos : (c n : ℕ) → 0 < n → n ≤ c * c → 0 < c
root-pos zero n h k = omega (arith, h, k)
root-pos (suc c) n h k = omega arith

ceil_sqrt-pos : (n : ℕ) → 0 < n → 0 < ceil_sqrt n
unfolding ceil_sqrt
ceil_sqrt-pos n h = root-pos (ceil_sqrt n) n h (ceil_sqrt_from-covers n 0 n (omega arith))

ceil_div-covers : (a b : ℕ) → 0 < b → a ≤ ceil_div a b * b
ceil_div-covers a b h = omega (arith, lt-div-mul-add {a = a + b - 1} {b = b} h)

-- The rows and columns that the grid has hold every cell.
row-bound : (count cols i : ℕ) → 0 < cols → i < count → i / cols < ceil_div count cols
row-bound count cols i c h =
    (div-lt_iff_lt-mul {k = cols} {x = i} {y = ceil_div count cols} c).1
      (omega (arith, ceil_div-covers count cols c))

cell-Inside :
    (x y w h count cols i : ℕ)
    → 0 < cols
    → i < count
    → Inside x y w h (cell x y w h cols (ceil_div count cols) i)
unfolding cell
cell-Inside x y w h count cols i c lt =
    let across = extent-within (i % cols) cols w (mod-lt i c) in
    let down = extent-within (i / cols) (ceil_div count cols) h (row-bound count cols i c lt) in
    (omega arith, omega (arith, across), omega arith, omega (arith, down))

cells-Inside :
    (x y w h count cols i n : ℕ)
    → 0 < cols
    → i + n ≤ count
    → All (Inside x y w h) (cells x y w h cols (ceil_div count cols) i n)
unfolding cells
cells-Inside x y w h count cols i zero c le = tt
cells-Inside x y w h count cols i (suc n) c le = (
  cell-Inside x y w h count cols i c (omega arith),
  cells-Inside x y w h count cols (suc i) n c (omega arith),
)

length-cells : (x y w h cols rows i n : ℕ) → length (cells x y w h cols rows i n) ≡ n
unfolding cells
length-cells x y w h cols rows i zero = refl
length-cells x y w h cols rows i (suc n) = ap suc (length-cells x y w h cols rows (suc i) n)

grid_cells-Inside :
    (x y w h count : ℕ)
    → (length (grid_cells x y w h count) ≡ count) × All (Inside x y w h) (grid_cells x y w h count)
unfolding grid_cells cells
grid_cells-Inside x y w h zero = (refl, tt)
grid_cells-Inside x y w h (suc n) =
    let cols = ceil_sqrt (suc n) in
    (
      length-cells x y w h cols (ceil_div (suc n) cols) 0 (suc n),
      cells-Inside x y w h (suc n) cols 0 (suc n) (ceil_sqrt-pos (suc n) (omega arith))
          (omega arith),
    )

-- Each pane gets a rectangle, and every rectangle lies in the manager's region.
calculate_grid-Inside :
    (x y w h count : ℕ)
    → (length (calculate_grid x y w h count) ≡ count)
      × All (Inside x y w h) (calculate_grid x y w h count)
unfolding calculate_grid
calculate_grid-Inside x y w h count = ground (arith, grid_cells-Inside x y w h count)

trichotomy : (a b : ℕ) → (a < b) ⊎ (b < a) ⊎ (a ≡ b)
trichotomy a b = ground arith

same_place : (cols i j : ℕ) → i % cols ≡ j % cols → i / cols ≡ j / cols → i ≡ j
same_place cols i j m d =
    sym (div-add-mod i cols)
    ∙ ap (λ q. cols * q + i % cols) d
    ∙ ap (λ r. cols * (j / cols) + r) m
    ∙ div-add-mod j cols

-- Different cells differ in their row or in their column.
place-cases :
    (cols i j : ℕ)
    → i ≢ j
    → (i % cols < j % cols) ⊎ (j % cols < i % cols) ⊎ (i / cols < j / cols) ⊎ (j / cols < i / cols)
place-cases cols i j ne = elim (trichotomy (i % cols) (j % cols)) [
  | inl lt ↦ inl lt
  | inr (inl lt) ↦ inr (inl lt)
  | inr (inr m) ↦ elim (trichotomy (i / cols) (j / cols)) [
    | inl lt ↦ inr (inr (inl lt))
    | inr (inl lt) ↦ inr (inr (inr lt))
    | inr (inr d) ↦ absurd (ne (same_place cols i j m d))
  ]
]

cell-Apart :
    (x y w h count cols i j : ℕ)
    → 0 < cols
    → i < count
    → j < count
    → i ≢ j
    → Apart (cell x y w h cols (ceil_div count cols) i) (cell x y w h cols (ceil_div count cols) j)
unfolding cell
cell-Apart x y w h count cols i j c li lj ne =
    let rows = ceil_div count cols in
    elim (place-cases cols i j ne) [
      | inl lt ↦ inl (omega (arith, extent-before (i % cols) (j % cols) cols w lt (mod-lt j c)))
      | inr (inl lt) ↦
          inr (inl (omega (arith, extent-before (j % cols) (i % cols) cols w lt (mod-lt i c))))
      | inr (inr (inl lt)) ↦ inr (
          inr (
            inl (
              omega (
                arith,
                extent-before (i / cols) (j / cols) rows h lt (row-bound count cols j c lj),
              ))))
      | inr (inr (inr lt)) ↦ inr (
          inr (
            inr (
              omega (
                arith,
                extent-before (j / cols) (i / cols) rows h lt (row-bound count cols i c li),
              ))))
    ]

-- Each rectangle of the list is apart from those that follow it.
abbrev pub AllApart : List Rect → Type 0
AllApart [] = Unit
AllApart (r ∷ rs) = All (Apart r) rs × AllApart rs

later-Apart :
    (x y w h count cols i k n : ℕ)
    → 0 < cols
    → i < k
    → k + n ≤ count
    → All
        (Apart (cell x y w h cols (ceil_div count cols) i))
        (cells x y w h cols (ceil_div count cols) k n)
unfolding cells
later-Apart x y w h count cols i k zero c lt le = tt
later-Apart x y w h count cols i k (suc n) c lt le = (
  cell-Apart x y w h count cols i k c (omega arith) (omega arith) (λ e. omega (arith, e)),
  later-Apart x y w h count cols i (suc k) n c (omega arith) (omega arith),
)

cells-AllApart :
    (x y w h count cols k n : ℕ)
    → 0 < cols
    → k + n ≤ count
    → AllApart (cells x y w h cols (ceil_div count cols) k n)
unfolding cells
cells-AllApart x y w h count cols k zero c le = tt
cells-AllApart x y w h count cols k (suc n) c le = (
  later-Apart x y w h count cols k (suc k) n c (omega arith) (omega arith),
  cells-AllApart x y w h count cols (suc k) n c (omega arith),
)

grid_cells-AllApart : (x y w h count : ℕ) → AllApart (grid_cells x y w h count)
unfolding grid_cells cells
grid_cells-AllApart x y w h zero = tt
grid_cells-AllApart x y w h (suc n) =
    cells-AllApart x y w h (suc n) (ceil_sqrt (suc n)) 0 (suc n)
      (ceil_sqrt-pos (suc n) (omega arith)) (omega arith)

-- No two panes share a place on the screen: of the rectangles of any number of panes, each lies
-- beside, above or below each other one.
calculate_grid-AllApart : (x y w h count : ℕ) → AllApart (calculate_grid x y w h count)
unfolding calculate_grid
calculate_grid-AllApart x y w h count = ground (arith, grid_cells-AllApart x y w h count)

-- The panes share the screen out: for any number of panes there is a rectangle for each, each lies
-- in the manager's region, and each lies beside, above or below each other one.
pub calculate_grid_tiles :
    (x y w h count : ℕ)
    → (length (calculate_grid x y w h count) ≡ count)
      × All (Inside x y w h) (calculate_grid x y w h count)
      × AllApart (calculate_grid x y w h count)
calculate_grid_tiles x y w h count =
    let (each, within) = calculate_grid-Inside x y w h count in
    (each, within, calculate_grid-AllApart x y w h count)
