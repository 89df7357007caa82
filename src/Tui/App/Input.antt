-- ===== src/Tui/App/Input.antt =====
-- packages/tui/src/app.ts: what a key does, and packages/tui/src/screen.ts: what a chunk of input
-- does.
use tbridge.Base.{
  ℕ, ◌-◌, String, Bool, true, false, ◌&&◌, ◌||◌, not, Option, none, some, List, [], ◌∷◌,
  if◌then◌else◌, get_elem?, ◌==◌, string_eq, nat_eq, ltb,
}
use tbridge.Engine.ExecutionEngine.Interface.{Sessions}
use tbridge.Engine.Session.{is_active}
use tbridge.Tui.Keys.{KeyEvent, parse_key}
use tbridge.Tui.PaneManager.{
  TerminalPane, focus_next, focus_prev, focus_pane, scroll_up, scroll_down, truthy,
}
use tbridge.Tui.CommandPalette.{Call, closes, runs, open_palette, handle_key as palette_handle_key}
use tbridge.Tui.CommandBar.{is_input, enter_input, handle_key as bar_handle_key}
use tbridge.Tui.Sidebar.{selected_id, select_next, select_prev}
use tbridge.Tui.Toast.{ToastLevel}
use tbridge.Tui.App.State.{
  App, Action, ctrl_c_sent, unknown_prefix, Submit, runs_command, stop, crashed, notify,
  focused_pane, after_call, update_status_bar, update_bars, toggle_sidebar, session_in,
}
use tbridge.Tui.App.Panes.{
  Env, create_local_session, close_current_pane, close_pane_of, stop_if_empty, scroll, focus_by,
  run_action,
}
use tbridge.Tui.App.Commands.{submit}

pub data PrefixKey : Type 0 where
  prefix_new prefix_close prefix_next prefix_prev prefix_quit : PrefixKey
  prefix_sidebar prefix_up prefix_down : PrefixKey
  prefix_pane : ℕ → PrefixKey
  prefix_unknown : PrefixKey

unfoldable pub prefix_key : String → PrefixKey
prefix_key name =
    if name == "n"
    then prefix_new
    else if name == "w"
    then prefix_close
    else if (name == "right") || (name == "l")
    then prefix_next
    else if (name == "left") || (name == "h")
    then prefix_prev
    else if name == "q"
    then prefix_quit
    else if name == "s"
    then prefix_sidebar
    else if name == "pageup"
    then prefix_up
    else if name == "pagedown"
    then prefix_down
    else if name == "1"
    then prefix_pane 0
    else if name == "2"
    then prefix_pane 1
    else if name == "3"
    then prefix_pane 2
    else if name == "4"
    then prefix_pane 3
    else if name == "5"
    then prefix_pane 4
    else if name == "6"
    then prefix_pane 5
    else if name == "7"
    then prefix_pane 6
    else if name == "8"
    then prefix_pane 7
    else if name == "9"
    then prefix_pane 8
    else prefix_unknown

pub data SidebarKey : Type 0 where
  sidebar_prev sidebar_next sidebar_open sidebar_leave sidebar_delete sidebar_other : SidebarKey

unfoldable pub sidebar_key : String → SidebarKey
sidebar_key name =
    if (name == "up") || (name == "k")
    then sidebar_prev
    else if (name == "down") || (name == "j")
    then sidebar_next
    else if name == "return"
    then sidebar_open
    else if name == "escape"
    then sidebar_leave
    else if (name == "d") || (name == "delete")
    then sidebar_delete
    else sidebar_other

pub data QuitKey : Type 0 where
  quit_now quit_ctrl_c quit_not : QuitKey

unfoldable pub quit_key : String → QuitKey
quit_key name =
    if (name == "ctrl-d") || (name == "ctrl-q") || (name == "ctrl-x")
    then quit_now
    else if name == "ctrl-c"
    then quit_ctrl_c
    else quit_not

abbrev pub is_session : Option String → String → Bool
is_session none i = false
is_session (some j) i = j == i

-- The first pane of a session, by its id.
unfoldable pub pane_of : List (String × TerminalPane) → String → Option String
pane_of [] i = none
pane_of ((id, p) ∷ ps) i =
    let rest = pane_of ps i in if is_session p.session i then some id else rest

abbrev pub is_some_pane : Option (String × TerminalPane) → Bool
is_some_pane none = false
is_some_pane (some ip) = true

abbrev pub is_ctrl_x : List ℕ → Bool
is_ctrl_x [] = false
is_ctrl_x (b ∷ []) = b == 24
is_ctrl_x (b ∷ c ∷ bs) = false

module _ {S : Type 0} (I : Sessions S) (env : Env S) where
  -- `now - last < 1200`, where the clock has not gone back.
  unfoldable pub second_ctrl_c : App I → Bool
  second_ctrl_c a = ltb (env.now - a.last_ctrl_c_at) 1200

  -- The keys are typed elsewhere than in a pane.
  unfoldable pub outside_pane : App I → Bool
  unfolding focused_pane
  outside_pane a =
      a.palette.visible
      || is_input a.bar.mode
      || a.sidebar_focused
      || not (is_some_pane (focused_pane I a))

  abbrev pub ctrl_c : App I → Bool → Bool × App I
  ctrl_c a true = (true, a)
  ctrl_c a false = (
    false,
    notify I (record a { last_ctrl_c_at = env.now }) ctrl_c_sent ToastLevel.warning 1200 env.now,
  )

  abbrev pub quit_for : App I → QuitKey → Bool × App I
  quit_for a quit_now = (true, a)
  quit_for a quit_ctrl_c = ctrl_c a (outside_pane a || second_ctrl_c a)
  quit_for a quit_not = (false, a)

  unfoldable pub should_quit : App I → KeyEvent → Bool × App I
  unfolding quit_key outside_pane second_ctrl_c notify
  should_quit a key = quit_for a (quit_key key.name)

  abbrev pub focus_of : App I → Option (String × TerminalPane) → App I
  focus_of a none = a
  focus_of a (some ip) = focus_by I env (λ m. focus_pane m ip.0) a

  unfoldable pub handle_prefix_key : App I → PrefixKey → String → App I
  unfolding create_local_session close_current_pane focus_next focus_prev focus_pane stop
      toggle_sidebar scroll scroll_up scroll_down notify
  handle_prefix_key a prefix_new name = create_local_session I env a none
  handle_prefix_key a prefix_close name = close_current_pane I env a
  handle_prefix_key a prefix_next name = focus_by I env focus_next a
  handle_prefix_key a prefix_prev name = focus_by I env focus_prev a
  handle_prefix_key a prefix_quit name = stop I a
  handle_prefix_key a prefix_sidebar name = toggle_sidebar I a env.now
  handle_prefix_key a prefix_up name = scroll I env (scroll_up 10) a
  handle_prefix_key a prefix_down name = scroll I env (scroll_down 10) a
  handle_prefix_key a (prefix_pane n) name = focus_of a (get_elem? a.panes.panes n)
  handle_prefix_key a prefix_unknown name =
      notify I a (unknown_prefix name) ToastLevel.warning 1500 env.now

  abbrev pub open_selected : App I → Option String → App I
  open_selected a none = a
  open_selected a (some i) = elim (pane_of a.panes.panes i) [
    | none ↦ a
    | some id ↦ record a { panes = focus_pane a.panes id }
  ]

  abbrev pub close_selected : App I → Option String → App I
  close_selected a none = a
  close_selected a (some i) =
      let a' : App I = elim (pane_of a.panes.panes i) [
        | none ↦ update_bars I a
        | some id ↦ close_pane_of I env a id (some i)
      ] in
      stop_if_empty I env a' a'

  -- Whether the key is taken.
  unfoldable pub handle_sidebar_key : App I → SidebarKey → Bool × App I
  unfolding select_prev select_next selected_id pane_of focus_pane close_pane_of
  handle_sidebar_key a sidebar_prev = (true, record a { sidebar = select_prev a.sidebar })
  handle_sidebar_key a sidebar_next = (true, record a { sidebar = select_next a.sidebar })
  handle_sidebar_key a sidebar_open =
      (true, record (open_selected a (truthy (selected_id a.sidebar))) { sidebar_focused = false })
  handle_sidebar_key a sidebar_leave = (true, record a { sidebar_focused = false })
  handle_sidebar_key a sidebar_delete = (true, close_selected a (truthy (selected_id a.sidebar)))
  handle_sidebar_key a sidebar_other = (false, a)

  abbrev pub write_active : App I → Option S → String → App I
  write_active a none text = a
  write_active a (some s) text =
      if is_active (I.status s) then after_call I a (I.write s text) else a

  -- `handleInput` of the focused pane.
  unfoldable pub forward : App I → KeyEvent → App I
  unfolding focused_pane stop
  forward a key = elim (focused_pane I a) [
    | none ↦ if key.name == "ctrl-c" then stop I a else a
    | some ip ↦ write_active a (session_in I a.engine.sessions ip.1.session) (env.decode key.raw)
  ]

  -- From the sidebar's keys on.
  unfoldable pub below_tab : App I → KeyEvent → App I
  unfolding handle_sidebar_key sidebar_key forward update_status_bar
  below_tab a key =
      let (handled, a') = handle_sidebar_key a (sidebar_key key.name) in
      let a2 = update_status_bar I a' in
      if a.sidebar_focused
      then (if handled
          then a2
          else forward (update_status_bar I (record a2 { sidebar_focused = false })) key)
      else forward a key

  -- From `Ctrl+P` on.
  unfoldable pub below_bar : App I → KeyEvent → App I
  unfolding below_tab open_palette handle_prefix_key prefix_key enter_input update_status_bar
  below_bar a key =
      if key.name == "ctrl-p"
      then record a { palette = open_palette env.to_lower_case a.palette (some tt) }
      else if key.name == "ctrl-b"
      then record a { prefix_mode = true }
      else if a.prefix_mode
      then handle_prefix_key (record a { prefix_mode = false }) (prefix_key key.name) key.name
      else if (key.ch == "/") && not (is_input a.bar.mode)
      then update_status_bar I (record a { bar = enter_input runs_command })
      else if key.name == "tab"
      then update_status_bar I (record a { sidebar_focused = not a.sidebar_focused })
      else below_tab a key

  -- A handler that stops the process leaves nothing to the ones after it.
  unfoldable pub run_calls : App I → List (Call Action Unit) → App I
  unfolding run_action
  run_calls a [] = a
  run_calls a (closes c ∷ cs) = run_calls a cs
  run_calls a (runs h ∷ cs) = run_calls (run_action I env a h) cs

  unfoldable pub palette_step : App I → KeyEvent → App I
  unfolding palette_handle_key run_calls
  palette_step a key =
      let (handled, p, calls) = palette_handle_key env.to_lower_case a.palette key in
      run_calls (record a { palette = p }) calls

  abbrev pub submit_line : App I → Option (Submit × List ℕ) → App I
  submit_line a none = a
  submit_line a (some (s, text)) = submit I env a s text

  -- The submitted line is run before the bar is left.
  unfoldable pub bar_step : App I → KeyEvent → Bool × App I
  unfolding bar_handle_key submit update_status_bar
  bar_step a key =
      let (handled, b, line) = bar_handle_key a.bar key.name key.ch in
      (handled, update_status_bar I (record (submit_line a line) { bar = b }))

  unfoldable pub above_bar : App I → KeyEvent → App I
  unfolding palette_step bar_step below_bar
  above_bar a key =
      if a.palette.visible
      then palette_step a key
      else if not (is_input a.bar.mode)
      then below_bar a key
      else (let (handled, a') = bar_step a key in if handled then a' else below_bar a' key)

  unfoldable pub handle_key : App I → KeyEvent → App I
  unfolding should_quit above_bar stop
  handle_key a key =
      let (quits, a') = should_quit a key in if quits then stop I a' else above_bar a' key

  -- `_onInput` of the screen, with the application's listener: Ctrl+X, byte 24, ends the process at
  -- once, and so does a chunk of which `parseKey` throws.
  unfoldable pub on_input : App I → List ℕ → App I
  unfolding handle_key parse_key stop
  on_input a raw =
      if is_ctrl_x raw
      then stop I a
      else elim (parse_key env.decode env.from_char_code env.inherited raw) [
        | none ↦ record a { over = some crashed }
        | some key ↦ handle_key a key
      ]
