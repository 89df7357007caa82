-- ===== src/Tui/App/Actions.antt =====
-- packages/tui/src/app.ts: the actions that the palette offers.
use tbridge.Base.{String, Option, none, some, List, [], ◌∷◌, string_eq}
use tbridge.Tui.Keys.{units}
use tbridge.Tui.CommandPalette.{PaletteAction}
use tbridge.Tui.App.State.{
  Action, new_pane, close_pane, next_pane, prev_pane, toggles_sidebar, renames_session,
  kills_process, interrupts_process, scrolls_up, scrolls_down, clears_pane, connects_peer,
  sends_message, quits,
}

abbrev pub offer : String → String → String → Option String → String → Action → PaletteAction Action
offer id label description shortcut category handler = record {
  id = id;
  label = units label;
  description = some (units description);
  shortcut = shortcut;
  category = some (units category);
  handler = handler;
}

abbrev pub palette_actions : List (PaletteAction Action)
palette_actions =
    offer "new-pane" "New Terminal Pane" "Create a new local terminal session" (some "Ctrl+B, N")
      "Session" new_pane
    ∷ offer "close-pane" "Close Current Pane" "Close the focused terminal pane" (some "Ctrl+B, W")
        "Session" close_pane
    ∷ offer "next-pane" "Focus Next Pane" "Switch to the next pane" (some "Ctrl+B, →") "Navigation"
        next_pane
    ∷ offer "prev-pane" "Focus Previous Pane" "Switch to the previous pane" (some "Ctrl+B, ←")
        "Navigation" prev_pane
    ∷ offer "toggle-sidebar" "Toggle Sidebar" "Show or hide the session sidebar" (some "Ctrl+B, S")
        "Layout" toggles_sidebar
    ∷ offer "rename-session" "Rename Session" "Rename the current terminal session" none "Session"
        renames_session
    ∷ offer "kill-process" "Kill Process" "Send SIGKILL to the current session" none "Session"
        kills_process
    ∷ offer "interrupt-process" "Interrupt Process (Ctrl+C)" "Send SIGINT to the current session"
        none "Session" interrupts_process
    ∷ offer "scroll-up" "Scroll Up" "Scroll the current pane up" (some "Ctrl+B, PgUp") "Navigation"
        scrolls_up
    ∷ offer "scroll-down" "Scroll Down" "Scroll the current pane down" (some "Ctrl+B, PgDn")
        "Navigation" scrolls_down
    ∷ offer "clear-pane" "Clear Terminal" "Clear the current pane's scrollback" none "Session"
        clears_pane
    ∷ offer "connect-peer" "Connect to Peer" "Start a new peer connection" (some "/connect")
        "Network" connects_peer
    ∷ offer "send-message" "Send Message" "Send a message to a connected peer" (some "/msg")
        "Network" sends_message
    ∷ offer "quit" "Quit TBridge" "Close all sessions and exit" (some "Ctrl+B, Q") "System" quits
    ∷ []
