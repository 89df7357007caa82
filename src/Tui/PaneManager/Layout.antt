-- ===== src/Tui/PaneManager/Layout.antt =====
-- packages/tui/src/components/pane-manager.ts: the rectangles of the panes.
use tbridge.Base.{
  ℕ, zero, suc, ◌+◌, ◌-◌, ◌*◌, ◌/◌, ◌%◌, List, [], ◌∷◌, leb, if◌then◌else◌, ◌==◌, nat_eq,
}

pub record Rect : Type 0 where
  pub x : ℕ
  pub y : ℕ
  pub width : ℕ
  pub height : ℕ

-- `Math.ceil(Math.sqrt(n))`: the least number from `c` on, among the next `fuel`, of which the
-- square is `n` at least.
unfoldable pub ceil_sqrt_from : ℕ → ℕ → ℕ → ℕ
ceil_sqrt_from zero c n = c
ceil_sqrt_from (suc fuel) c n =
    let rest = ceil_sqrt_from fuel (suc c) n in if leb n (c * c) then c else rest

unfoldable pub ceil_sqrt : ℕ → ℕ
unfolding ceil_sqrt_from
ceil_sqrt n = ceil_sqrt_from n 0 n

-- `Math.ceil(a / b)`.
abbrev pub ceil_div : ℕ → ℕ → ℕ
ceil_div a b = (a + b - 1) / b

-- The last cell of a row or column takes what is left.
abbrev pub extent : ℕ → ℕ → ℕ → ℕ
extent i n size = if i + 1 == n then size - i * (size / n) else size / n

-- The `i`th cell of the grid.
unfoldable pub cell : ℕ → ℕ → ℕ → ℕ → ℕ → ℕ → ℕ → Rect
cell x y w h cols rows i = record {
  x = x + (i % cols) * (w / cols);
  y = y + (i / cols) * (h / rows);
  width = extent (i % cols) cols w;
  height = extent (i / cols) rows h;
}

-- The loop, from `i` on, with `n` rounds left.
unfoldable pub cells : ℕ → ℕ → ℕ → ℕ → ℕ → ℕ → ℕ → ℕ → List Rect
unfolding cell
cells x y w h cols rows i zero = []
cells x y w h cols rows i (suc n) = cell x y w h cols rows i ∷ cells x y w h cols rows (suc i) n

-- The grid for four panes and more.
unfoldable pub grid_cells : ℕ → ℕ → ℕ → ℕ → ℕ → List Rect
unfolding cells ceil_sqrt
grid_cells x y w h count =
    let cols = ceil_sqrt count in cells x y w h cols (ceil_div count cols) 0 count

-- `_calculateGrid`, with the manager's region.
unfoldable pub calculate_grid : ℕ → ℕ → ℕ → ℕ → ℕ → List Rect
unfolding grid_cells
calculate_grid x y w h count =
    if count == 1
    then record { x = x; y = y; width = w; height = h } ∷ []
    else if count == 2
    then record { x = x; y = y; width = w / 2; height = h }
      ∷ record { x = x + w / 2; y = y; width = w - w / 2; height = h }
      ∷ []
    else if count == 3
    then record { x = x; y = y; width = w / 2; height = h }
      ∷ record { x = x + w / 2; y = y; width = w - w / 2; height = h / 2 }
      ∷ record { x = x + w / 2; y = y + h / 2; width = w - w / 2; height = h - h / 2 }
      ∷ []
    else grid_cells x y w h count
