-- ===== src/Tui/PaneManager.antt =====
-- packages/tui/src/components/pane-manager.ts: the panes of the terminal application.
--
-- A session is its id, and the lines that a pane keeps are counted. Columns and rows are natural
-- numbers: where the screen has fewer than 3 rows, or the offset lies beyond it, the source's sizes
-- are below 0 and the model's are 0. What is drawn, and the size that a pane passes on to its
-- session, are left out.
mod Layout
unfoldable pub use Layout.*
pub mod Tiling
pub mod Focus
pub mod Requests
pub mod Cycling
pub mod Naming
mod Tests
use tbridge.Base.{
  ℕ, zero, suc, ◌+◌, ◌-◌, ◌%◌, ◌++◌, min, max, String, Bool, true, false, not, Option, none, some,
  List, [], ◌∷◌, keep, length, get_elem?, leb, if◌then◌else◌, get, set, delete, ◌==◌, nat_eq,
  string_eq,
}

-- packages/tui/src/components/terminal-pane.ts: the fields that the manager reads or sets.
pub record TerminalPane : Type 0 where
  pub session : Option String
  pub rect : Rect
  pub focused : Bool
  pub lines : ℕ
  pub scroll_offset : ℕ

pub record PaneManager : Type 0 where
  pub columns : ℕ
  pub rows : ℕ
  pub panes : List (String × TerminalPane)
  pub focused_id : Option String
  pub pane_order : List String
  pub x : ℕ
  pub width : ℕ
  pub height : ℕ

abbrev pub top : ℕ
top = 2

unfoldable pub new_pane_manager : ℕ → ℕ → PaneManager
new_pane_manager columns rows = record {
  columns = columns;
  rows = rows;
  panes = [];
  focused_id = none;
  pane_order = [];
  x = 1;
  width = columns;
  height = rows - 3;
}

-- `pane.focused = v` of the pane of that id, if there is one.
unfoldable pub set_focused :
    List (String × TerminalPane) → String → Bool → List (String × TerminalPane)
set_focused [] id v = []
set_focused ((i, p) ∷ ps) id v =
    if i == id then (i, record p { focused = v }) ∷ ps else (i, p) ∷ set_focused ps id v

unfoldable pub resize_pane :
    List (String × TerminalPane) → String → Rect → List (String × TerminalPane)
resize_pane [] id r = []
resize_pane ((i, p) ∷ ps) id r =
    if i == id then (i, record p { rect = r }) ∷ ps else (i, p) ∷ resize_pane ps id r

-- The loop of `_relayout`, over the order and the rectangles.
unfoldable pub place :
    List (String × TerminalPane) → List String → List Rect → List (String × TerminalPane)
unfolding resize_pane
place ps [] rs = ps
place ps (id ∷ ids) [] = ps
place ps (id ∷ ids) (r ∷ rs) = place (resize_pane ps id r) ids rs

unfoldable pub relayout : PaneManager → PaneManager
unfolding place calculate_grid
relayout m = record m {
  panes =
      place m.panes m.pane_order (calculate_grid m.x top m.width m.height (length m.pane_order));
}

-- The handler of the screen's `resize`.
unfoldable pub on_resize : PaneManager → ℕ → ℕ → PaneManager
unfolding relayout
on_resize m columns rows =
    relayout (record m { columns = columns; rows = rows; width = columns; height = rows - 3 })

unfoldable pub set_offset : PaneManager → ℕ → PaneManager
unfolding relayout
set_offset m x = relayout (record m { x = x; width = m.columns + 1 - x })

-- The id that is focused, where it counts as there: the empty string does not.
abbrev pub truthy : Option String → Option String
truthy none = none
truthy (some id) = if id == "" then none else some id

abbrev pub unfocus : List (String × TerminalPane) → Option String → List (String × TerminalPane)
unfocus ps none = ps
unfocus ps (some id) = set_focused ps id false

abbrev pub is_id : Option String → String → Bool
is_id none id = false
is_id (some i) id = i == id

unfoldable pub focus_pane : PaneManager → String → PaneManager
unfolding set_focused
focus_pane m id = if is_id m.focused_id id then m else record m {
  focused_id = some id;
  panes = set_focused (unfocus m.panes (truthy m.focused_id)) id true;
}

unfoldable pub create_pane : PaneManager → String → Option String → PaneManager
unfolding focus_pane relayout
create_pane m id session =
    let rect : Rect = record { x = m.x; y = top; width = m.width; height = m.height } in
    relayout (
      focus_pane
        (record m {
          panes =
              set id
                (record {
                  session = session;
                  rect = rect;
                  focused = false;
                  lines = 0;
                  scroll_offset = 0;
                })
                m.panes;
          pane_order = m.pane_order ++ id ∷ [];
        })
        id)

abbrev pub focus_first : List (String × TerminalPane) → Option String → List (String × TerminalPane)
focus_first ps none = ps
focus_first ps (some id) = set_focused ps id true

-- Its pane is gone, and the first one left is focused where it was.
unfoldable pub drop_pane : PaneManager → String → PaneManager
unfolding set_focused
drop_pane m id =
    let order = keep (λ i. not (i == id)) m.pane_order in
    let m' = record m { panes = delete id m.panes; pane_order = order } in
    if is_id m.focused_id id
    then record m' {
      focused_id = get_elem? order 0;
      panes = focus_first m'.panes (truthy (get_elem? order 0));
    }
    else m'

unfoldable pub remove_pane : PaneManager → String → PaneManager
unfolding drop_pane relayout
remove_pane m id = elim (get id m.panes) [ none ↦ m | some p ↦ relayout (drop_pane m id) ]

-- `indexOf`: `none` for -1.
unfoldable pub index_of : List String → String → Option ℕ
index_of [] id = none
index_of (i ∷ ids) id =
    if i == id then some 0 else elim (index_of ids id) [ none ↦ none | some n ↦ some (suc n) ]

-- `idx + 1`, and `idx - 1 + n`, where `indexOf` may have given -1.
abbrev pub after : Option ℕ → ℕ
after none = 0
after (some i) = suc i

abbrev pub before : Option ℕ → ℕ → ℕ
before none n = n - 2
before (some i) n = i + n - 1

abbrev pub at_index : PaneManager → Option String → PaneManager
at_index m none = m
at_index m (some id) = focus_pane m id

unfoldable pub focus_next : PaneManager → PaneManager
unfolding focus_pane index_of
focus_next m =
    if leb (length m.pane_order) 1
    then m
    else at_index m (
        get_elem? m.pane_order (
          after (elim (truthy m.focused_id) [ none ↦ none | some id ↦ index_of m.pane_order id ])
          % length m.pane_order))

unfoldable pub focus_prev : PaneManager → PaneManager
unfolding focus_pane index_of
focus_prev m =
    if leb (length m.pane_order) 1
    then m
    else at_index m (
        get_elem? m.pane_order (
          before (elim (truthy m.focused_id) [ none ↦ some 0 | some id ↦ index_of m.pane_order id ])
            (length m.pane_order)
          % length m.pane_order))

-- What the application asks of the manager.
pub data Event : Type 0 where
  creates : String → Option String → Event
  removes focuses : String → Event
  next prev : Event
  resizes : ℕ → ℕ → Event
  offsets : ℕ → Event

unfoldable pub handle : PaneManager → Event → PaneManager
unfolding create_pane remove_pane focus_pane focus_next focus_prev on_resize set_offset
handle m (creates id session) = create_pane m id session
handle m (removes id) = remove_pane m id
handle m (focuses id) = focus_pane m id
handle m next = focus_next m
handle m prev = focus_prev m
handle m (resizes columns rows) = on_resize m columns rows
handle m (offsets x) = set_offset m x

unfoldable pub handle_requests : PaneManager → List Event → PaneManager
handle_requests m [] = m
handle_requests m (e ∷ es) = handle_requests (handle m e) es

-- packages/tui/src/components/terminal-pane.ts: the height inside the border and the title.
unfoldable pub content_height : TerminalPane → ℕ
content_height p = max 1 (p.rect.height - 3)

-- The count of the kept lines after `more` lines have come, and the view at its end again.
unfoldable pub append_lines : TerminalPane → ℕ → TerminalPane
append_lines p more = record p { lines = min 10000 (p.lines + more); scroll_offset = 0 }

unfoldable pub scroll_up : ℕ → TerminalPane → TerminalPane
unfolding content_height
scroll_up n p = record p { scroll_offset = min (p.scroll_offset + n) (p.lines - content_height p) }

unfoldable pub scroll_down : ℕ → TerminalPane → TerminalPane
scroll_down n p = record p { scroll_offset = p.scroll_offset - n }
