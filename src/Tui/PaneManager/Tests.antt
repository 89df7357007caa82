-- ===== src/Tui/PaneManager/Tests.antt =====
-- packages/tui/src/components/pane-manager.ts: the theorems at three panes.
use tbridge.Base.{
  ◌≡◌, ◌≢◌, refl, ap, String, false, none, some, List, [], ◌∷◌, All, length, nat_eq, string_eq,
  arith, ◌==◌,
}
use tbridge.Tui.PaneManager.{
  PaneManager, new_pane_manager, calculate_grid, Event, creates, removes, next, resizes,
  handle_requests,
}
use tbridge.Tui.PaneManager.Tiling.{Inside, AllApart, calculate_grid_tiles}
use tbridge.Tui.PaneManager.Focus.{IsValid}
use tbridge.Tui.PaneManager.Requests.{handle_requests-IsValid, new_pane_manager-IsValid}

abbrev start : PaneManager
start = new_pane_manager 80 24

abbrev two_panes : List Event
two_panes = creates "a" none ∷ creates "b" (some "7") ∷ []

abbrev both : PaneManager
both = handle_requests start two_panes

differs : (a b : String) → (a == b) ≡ false → a ≢ b
differs a b h e = let q = ap (λ c. c == b) e in ground (arith, h, q, string_eq.same_iff b b)

calculate_grid_tiles_example :
    (length (calculate_grid 1 2 80 21 5) ≡ 5)
    × All (Inside 1 2 80 21) (calculate_grid 1 2 80 21 5)
    × AllApart (calculate_grid 1 2 80 21 5)
calculate_grid_tiles_example = calculate_grid_tiles 1 2 80 21 5

handle_requests-IsValid_example :
    IsValid (handle_requests start (creates "a" none ∷ next ∷ removes "a" ∷ resizes 90 30 ∷ []))
unfolding new_pane_manager
handle_requests-IsValid_example =
    handle_requests-IsValid start (creates "a" none ∷ next ∷ removes "a" ∷ resizes 90 30 ∷ [])
      ((refl, differs "a" "" refl), (tt, (tt, (tt, tt)))) (new_pane_manager-IsValid 80 24)
