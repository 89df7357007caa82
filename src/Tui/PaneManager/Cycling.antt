-- ===== src/Tui/PaneManager/Cycling.antt =====
-- packages/tui/src/components/pane-manager.ts: the focus goes round.
use tbridge.Base.{Bool, false, none, some, nat_eq}
use tbridge.Tui.PaneManager.{PaneManager}
use tbridge.Tui.PaneManager.Focus.{mem}

abbrev pub mem_focused : PaneManager → Bool
mem_focused m = elim m.focused_id [ none ↦ false | some id ↦ mem id m.pane_order ]
