-- ===== src/Tui/App/Upkeep/Commands.antt =====
-- packages/tui/src/app.ts: what the typed commands make of the panes.
use tbridge.Base.{ℕ, ◌++◌, String, Option, none, some, List, [], ◌∷◌, nat_eq, string_eq}
use tbridge.Engine.ExecutionEngine.Interface.{Sessions}
use tbridge.Tui.Keys.{units}
use tbridge.Tui.PaneManager.{truthy}
use tbridge.Tui.App.State.{
  App, Submit, runs_command, renames, connects, stop, notify, update_status_bar,
}
use tbridge.Tui.App.Panes.{Env}
use tbridge.Tui.App.Commands.{
  Command, command_new, command_close, command_quit, command_split, command_rename, command_kill,
  command_clear, command_sessions, command_sidebar, command_connect, command_msg, command_share,
  command_help, command_unknown, run_command, handle_command, parse_command, submit, share_of,
  or_none, join,
}
use tbridge.Tui.App.Input.{submit_line}
use tbridge.Tui.App.Upkeep.Actions.{
  Named, InOrder, create_local_session-InOrder, close_current_pane-InOrder,
  rename_current_session-InOrder, kill_session-InOrder, write_session-InOrder,
  toggle_sidebar-InOrder,
}

module _ {S : Type 0} (I : Sessions S) (env : Env S) (names : Named env.pane_id) where
  abbrev Kept : App I → Type 0
  Kept a = InOrder I env names a

  rename_to-InOrder :
      (a : App I) (args : List (List ℕ)) → Kept a → Kept (run_command I env a command_rename args)
  unfolding run_command notify
  rename_to-InOrder a [] h = h
  rename_to-InOrder a (w ∷ ws) h = rename_current_session-InOrder I env names a (join (w ∷ ws)) h

  connect_to-InOrder :
      (a : App I) (args : List (List ℕ)) → Kept a → Kept (run_command I env a command_connect args)
  unfolding run_command notify
  connect_to-InOrder a [] h = h
  connect_to-InOrder a (w ∷ ws) h = h

  share_of-InOrder : (a : App I) (o : Option String) → Kept a → Kept (share_of I env a o)
  unfolding notify update_status_bar
  share_of-InOrder a none h = h
  share_of-InOrder a (some code) h = h

  run_command-InOrder :
      (a : App I) (c : Command) (args : List (List ℕ)) → Kept a → Kept (run_command I env a c args)
  unfolding run_command notify stop
  run_command-InOrder a command_new args h =
      create_local_session-InOrder I env names a (or_none (join args)) h
  run_command-InOrder a command_close args h = close_current_pane-InOrder I env names a h
  run_command-InOrder a command_quit args h = h
  run_command-InOrder a command_split args h = create_local_session-InOrder I env names a none h
  run_command-InOrder a command_rename args h = rename_to-InOrder a args h
  run_command-InOrder a command_kill args h = kill_session-InOrder I env names a h
  run_command-InOrder a command_clear args h = write_session-InOrder I env names a "clear\n" h
  run_command-InOrder a command_sessions args h = h
  run_command-InOrder a command_sidebar args h = toggle_sidebar-InOrder I env names a env.now h
  run_command-InOrder a command_connect args h = connect_to-InOrder a args h
  run_command-InOrder a command_msg args h = h
  run_command-InOrder a command_share args h = share_of-InOrder a (truthy a.share_code) h
  run_command-InOrder a command_help args h = h
  run_command-InOrder a (command_unknown w) args h = h

  handle_command-InOrder : (a : App I) (raw : List ℕ) → Kept a → Kept (handle_command I env a raw)
  unfolding handle_command
  handle_command-InOrder a raw h =
      let p = parse_command env.to_lower_case raw in run_command-InOrder a p.0 p.1 h

  pub submit_line-InOrder :
      (a : App I) (o : Option (Submit × List ℕ)) → Kept a → Kept (submit_line I env a o)
  unfolding submit
  submit_line-InOrder a none h = h
  submit_line-InOrder a (some (runs_command, text)) h = handle_command-InOrder a text h
  submit_line-InOrder a (some (renames, text)) h =
      rename_current_session-InOrder I env names a text h
  submit_line-InOrder a (some (connects, text)) h =
      handle_command-InOrder a (units "connect " ++ text) h
