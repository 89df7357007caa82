-- ===== src/Tui/App/Panes.antt =====
-- packages/tui/src/app.ts: the panes and their sessions, and the actions of the palette.
use tbridge.Base.{
  ℕ, suc, String, Bool, Option, none, some, List, length, if◌then◌else◌, set, ◌==◌, string_eq,
  nat_eq, ltb,
}
use tbridge.Engine.ExecutionEngine.{attach_session, close_session}
use tbridge.Engine.ExecutionEngine.Interface.{Sessions}
use tbridge.Tui.PaneManager.{
  TerminalPane, PaneManager, create_pane, remove_pane, focus_next, focus_prev, scroll_up,
  scroll_down,
}
use tbridge.Tui.CommandBar.{enter_input}
use tbridge.Tui.Toast.{ToastLevel}
use tbridge.Tui.App.State.{
  App, Action, new_pane, close_pane, next_pane, prev_pane, toggles_sidebar, renames_session,
  kills_process, interrupts_process, scrolls_up, scrolls_down, clears_pane, connects_peer,
  sends_message, quits, renames, connects, pane_created, create_failed, pane_closed, process_killed,
  messaging_later, renamed, stop, notify, focused_pane, focused_session, store_session, after_call,
  update_sidebar, update_bars, toggle_sidebar,
}

-- What a step of the application takes from outside: the time, `engine.createSession` with a title,
-- which throws or gives the session that its constructor made, `pane-${n}`, a text of units as a
-- text, the assignment of a title, `toLowerCase`, the decoding of UTF-8, `String.fromCharCode`, and
-- the property names that every object inherits.
pub record Env (S : Type 0) : Type 0 where
  pub now : ℕ
  pub create : Option (List ℕ) → Option S
  pub pane_id : ℕ → String
  pub text_of : List ℕ → String
  pub set_title : String → S → S
  pub to_lower_case : List ℕ → List ℕ
  pub decode : List ℕ → String
  pub from_char_code : ℕ → String
  pub inherited : String → Bool

module _ {S : Type 0} (I : Sessions S) (env : Env S) where
  -- A session that is shown in a pane of its own.
  unfoldable pub mount : App I → S → App I
  unfolding create_pane attach_session
  mount a s =
      let n = suc a.pane_counter in
      record a {
        engine = attach_session I a.engine s;
        pane_counter = n;
        panes = create_pane a.panes (env.pane_id n) (some (I.id s));
      }

  abbrev pub announce_pane : App I → App I
  announce_pane a =
      if ltb 1 a.pane_counter
      then notify I a (pane_created a.pane_counter) ToastLevel.success 1500 env.now
      else a

  unfoldable pub create_local_session : App I → Option (List ℕ) → App I
  unfolding mount notify
  create_local_session a title = elim (env.create title) [
    | none ↦ notify I a create_failed ToastLevel.error 4000 env.now
    | some s ↦ announce_pane (update_bars I (mount a s))
  ]

  abbrev pub close_of : App I → Option String → App I
  close_of a none = a
  close_of a (some i) = record a { engine = close_session I a.engine i }

  unfoldable pub close_pane_of : App I → String → Option String → App I
  unfolding close_session remove_pane
  close_pane_of a id session =
      let a' = close_of a session in update_bars I (record a' { panes = remove_pane a'.panes id })

  -- The last pane is closed, or there are others.
  abbrev pub stop_if_empty : App I → App I → App I
  stop_if_empty a b = if length a.panes.panes == 0 then stop I a else b

  unfoldable pub close_current_pane : App I → App I
  unfolding close_pane_of focused_pane stop notify
  close_current_pane a = elim (focused_pane I a) [
    | none ↦ a
    | some ip ↦
        let a' = close_pane_of a ip.0 ip.1.session in
        stop_if_empty a' (notify I a' pane_closed ToastLevel.info 1500 env.now)
  ]

  unfoldable pub rename_current_session : App I → List ℕ → App I
  unfolding focused_session update_sidebar notify
  rename_current_session a title = elim (focused_session I a) [
    | none ↦ a
    | some s ↦
        notify I (update_sidebar I (store_session I a (env.set_title (env.text_of title) s)))
          (renamed title) ToastLevel.success 1500 env.now
  ]

  unfoldable pub kill_session : App I → App I
  unfolding focused_session
  kill_session a = elim (focused_session I a) [ none ↦ a | some s ↦ store_session I a (I.kill s) ]

  unfoldable pub cancel_session : App I → App I
  unfolding focused_session
  cancel_session a = elim (focused_session I a) [
    | none ↦ a
    | some s ↦ store_session I a (I.cancel s)
  ]

  unfoldable pub write_session : App I → String → App I
  unfolding focused_session
  write_session a text = elim (focused_session I a) [
    | none ↦ a
    | some s ↦ after_call I a (I.write s text)
  ]

  unfoldable pub scroll : (TerminalPane → TerminalPane) → App I → App I
  unfolding focused_pane
  scroll f a = elim (focused_pane I a) [
    | none ↦ a
    | some ip ↦ record a { panes = record a.panes { panes = set ip.0 (f ip.1) a.panes.panes } }
  ]

  abbrev pub focus_by : (PaneManager → PaneManager) → App I → App I
  focus_by f a = update_sidebar I (record a { panes = f a.panes })

  -- The handlers of the palette's actions.
  unfoldable pub run_action : App I → Action → App I
  unfolding create_local_session close_current_pane focus_next focus_prev toggle_sidebar
      kill_session cancel_session scroll scroll_up scroll_down write_session notify stop enter_input
  run_action a new_pane = create_local_session a none
  run_action a close_pane = close_current_pane a
  run_action a next_pane = focus_by focus_next a
  run_action a prev_pane = focus_by focus_prev a
  run_action a toggles_sidebar = toggle_sidebar I a env.now
  run_action a renames_session = record a { bar = enter_input renames }
  run_action a kills_process = elim (focused_session I a) [
    | none ↦ a
    | some s ↦ notify I (kill_session a) process_killed ToastLevel.warning 3000 env.now
  ]
  run_action a interrupts_process = cancel_session a
  run_action a scrolls_up = scroll (scroll_up 10) a
  run_action a scrolls_down = scroll (scroll_down 10) a
  run_action a clears_pane = write_session a "clear\n"
  run_action a connects_peer = record a { bar = enter_input connects }
  run_action a sends_message = notify I a messaging_later ToastLevel.info 3000 env.now
  run_action a quits = stop I a
