-- ===== src/Tui/App/Commands.antt =====
-- packages/tui/src/app.ts: the commands that are typed in the command bar.
use tbridge.Base.{
  ℕ, String, Bool, true, false, ◌&&◌, ◌||◌, not, Option, none, some, List, [], ◌∷◌, ◌++◌, drop, map,
  if◌then◌else◌, get_elem?, ◌==◌, string_eq, nat_eq,
}
use tbridge.Engine.ExecutionEngine.Interface.{Sessions}
use tbridge.Engine.Session.{is_active}
use tbridge.Tui.Keys.{units}
use tbridge.Tui.CommandPalette.{is_prefix}
use tbridge.Tui.CommandBar.{is_space, trim}
use tbridge.Tui.PaneManager.{truthy}
use tbridge.Tui.Toast.{ToastLevel}
use tbridge.Tui.App.State.{
  App, process_killed, messaging_later, usage_rename, usage_connect, still_generating, help,
  connecting_via, unknown_command, share_code_is, sessions_listed, stop, notify, toggle_sidebar,
  update_status_bar, Submit, runs_command, renames, connects,
}
use tbridge.Tui.App.Panes.{
  Env, create_local_session, close_current_pane, rename_current_session, kill_session,
  write_session,
}

-- `replace(/^\//, '')`.
abbrev pub strip_slash : List ℕ → List ℕ
strip_slash [] = []
strip_slash (u ∷ us) = if u == 47 then us else u ∷ us

-- `split(/\s+/)` from a place that is in a run of spaces or not: the word there, and the later
-- ones.
unfoldable pub split_from : Bool → List ℕ → List ℕ × List (List ℕ)
unfolding is_space
split_from gap [] = ([], [])
split_from gap (u ∷ us) =
    let (w, ws) = split_from (is_space u) us in
    if is_space u then (if gap then (w, ws) else ([], w ∷ ws)) else (u ∷ w, ws)

-- `args.join(" ")`.
unfoldable pub join : List (List ℕ) → List ℕ
join [] = []
join (w ∷ []) = w
join (w ∷ v ∷ vs) = w ++ 32 ∷ join (v ∷ vs)

pub data Command : Type 0 where
  command_new command_close command_quit command_split command_rename command_kill : Command
  command_clear command_sessions command_sidebar command_connect command_msg : Command
  command_share command_help : Command
  command_unknown : List ℕ → Command

unfoldable pub same_units : List ℕ → List ℕ → Bool
same_units [] [] = true
same_units [] (v ∷ vs) = false
same_units (u ∷ us) [] = false
same_units (u ∷ us) (v ∷ vs) = (u == v) && same_units us vs

abbrev pub is_word : List ℕ → String → Bool
is_word us s = same_units us (units s)

-- The cases of the `switch` over a command.
unfoldable pub command_named : List ℕ → Command
unfolding same_units
command_named cmd =
    if is_word cmd "new" || is_word cmd "n"
    then command_new
    else if is_word cmd "close" || is_word cmd "c"
    then command_close
    else if is_word cmd "quit" || is_word cmd "q" || is_word cmd "exit"
    then command_quit
    else if is_word cmd "split" || is_word cmd "sp"
    then command_split
    else if is_word cmd "rename" || is_word cmd "rn"
    then command_rename
    else if is_word cmd "kill"
    then command_kill
    else if is_word cmd "clear"
    then command_clear
    else if is_word cmd "sessions" || is_word cmd "ls"
    then command_sessions
    else if is_word cmd "sidebar"
    then command_sidebar
    else if is_word cmd "connect"
    then command_connect
    else if is_word cmd "msg"
    then command_msg
    else if is_word cmd "share"
    then command_share
    else if is_word cmd "help" || is_word cmd "?"
    then command_help
    else command_unknown cmd

-- `input[7] !== " "`, where the input is longer than 7.
abbrev pub glued : Option ℕ → Bool
glued none = false
glued (some u) = not (u == 32)

-- The command and its arguments; `connect123` is `connect 123`.
unfoldable pub parse_command : (List ℕ → List ℕ) → List ℕ → Command × List (List ℕ)
unfolding trim split_from command_named
parse_command to_lower_case raw =
    let line = strip_slash (trim raw) in
    let (word, args) = split_from false line in
    if is_prefix (units "connect") (to_lower_case line) && glued (get_elem? line 7)
    then (command_connect, drop 7 line ∷ [])
    else (command_named (to_lower_case word), args)

abbrev pub or_none : List ℕ → Option (List ℕ)
or_none [] = none
or_none (u ∷ us) = some (u ∷ us)

module _ {S : Type 0} (I : Sessions S) (env : Env S) where
  abbrev pub rename_to : App I → List (List ℕ) → App I
  rename_to a [] = notify I a usage_rename ToastLevel.warning 3000 env.now
  rename_to a (w ∷ ws) = rename_current_session I env a (join (w ∷ ws))

  abbrev pub connect_to : App I → List (List ℕ) → App I
  connect_to a [] = notify I a usage_connect ToastLevel.warning 3000 env.now
  connect_to a (w ∷ ws) =
      let a' = notify I a (connecting_via w) ToastLevel.info 3000 env.now in
      record a' { pair_requests = a'.pair_requests ++ w ∷ [] }

  abbrev pub share_of : App I → Option String → App I
  share_of a none = notify I a still_generating ToastLevel.warning 3000 env.now
  share_of a (some code) =
      update_status_bar I (notify I a (share_code_is code) ToastLevel.success 5000 env.now)

  abbrev pub session_line : (String × S) → Bool × String
  session_line (i, s) = (is_active (I.status s), (I.to_info s).title)

  unfoldable pub run_command : App I → Command → List (List ℕ) → App I
  unfolding create_local_session close_current_pane stop rename_current_session kill_session
      write_session notify toggle_sidebar update_status_bar join
  run_command a command_new args = create_local_session I env a (or_none (join args))
  run_command a command_close args = close_current_pane I env a
  run_command a command_quit args = stop I a
  run_command a command_split args = create_local_session I env a none
  run_command a command_rename args = rename_to a args
  run_command a command_kill args =
      notify I (kill_session I env a) process_killed ToastLevel.warning 3000 env.now
  run_command a command_clear args = write_session I env a "clear\n"
  run_command a command_sessions args =
      notify I a (sessions_listed (map session_line a.engine.sessions)) ToastLevel.info 4000 env.now
  run_command a command_sidebar args = toggle_sidebar I a env.now
  run_command a command_connect args = connect_to a args
  run_command a command_msg args = notify I a messaging_later ToastLevel.info 3000 env.now
  run_command a command_share args = share_of a (truthy a.share_code)
  run_command a command_help args = notify I a help ToastLevel.info 5000 env.now
  run_command a (command_unknown cmd) args =
      notify I a (unknown_command cmd) ToastLevel.error 2000 env.now

  unfoldable pub handle_command : App I → List ℕ → App I
  unfolding parse_command run_command
  handle_command a raw =
      let (command, args) = parse_command env.to_lower_case raw in run_command a command args

  -- The callbacks of the command bar.
  unfoldable pub submit : App I → Submit → List ℕ → App I
  unfolding handle_command rename_current_session
  submit a runs_command text = handle_command a text
  submit a renames text = rename_current_session I env a text
  submit a connects text = handle_command a (units "connect " ++ text)
