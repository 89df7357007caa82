-- ===== src/Tui/App/State.antt =====
-- packages/tui/src/app.ts: the state of the application, and the lists that it shows.
use Prim.Native.Char.{code}
use Prim.Native.String.{◌++◌ as append}
use tbridge.Base.{
  ℕ, ◌+◌, String, Bool, false, not, ◌&&◌, Option, none, some, List, [], ◌∷◌, ◌++◌, length, keep,
  map, if◌then◌else◌, get, set, ◌==◌, string_eq, leb, ltb,
}
use tbridge.Protocol.Envelopes.{SessionInfo, Payload}
use tbridge.Protocol.Envelopes
use tbridge.Engine.ExecutionEngine.{ExecutionEngine, active_in, shutdown}
use tbridge.Engine.ExecutionEngine.Interface.{Sessions}
use tbridge.Tui.PaneManager.{TerminalPane, PaneManager, truthy, set_offset}
use tbridge.Tui.CommandPalette.{CommandPalette}
use tbridge.Tui.CommandBar.{CommandBar, is_input}
use tbridge.Tui.Sidebar.{
  Sidebar, SidebarEntry, session_entry, peer_entry, EntryStatus, set_entries, select_by_id, width,
}
use tbridge.Tui.Sidebar
use tbridge.Tui.Toast.{Toast, ToastLevel, show}
use tbridge.Network.PeerConnection.{Status, is_encrypted}
use tbridge.Network.PeerConnection

-- The handlers of the palette's actions.
pub data Action : Type 0 where
  new_pane close_pane next_pane prev_pane toggles_sidebar renames_session : Action
  kills_process interrupts_process scrolls_up scrolls_down clears_pane : Action
  connects_peer sends_message quits : Action

-- The callbacks of a line that is submitted.
pub data Submit : Type 0 where
  runs_command renames connects : Submit

-- The messages of the toasts.
pub data Notice : Type 0 where
  session_exited : Option ℕ → Notice
  pane_created : ℕ → Notice
  create_failed pane_closed process_killed messaging_later ctrl_c_sent : Notice
  usage_rename usage_connect still_generating help sidebar_shown sidebar_hidden : Notice
  renamed connecting_via unknown_command : List ℕ → Notice
  unknown_prefix share_code_is auto_accepting established secure_channel peer_disconnected :
      String → Notice
  sessions_listed : List (Bool × String) → Notice
  session_error network_error relay_error : String → Notice
  network_connected network_disconnected : Notice
  message_from : String → String → Notice
  secure_with_host host_disconnected welcome : Notice

pub data Focus : Type 0 where
  on_terminal on_sidebar on_command : Focus

pub record StatusBar : Type 0 where
  pub connected : Bool
  pub active_sessions : ℕ
  pub peer_count : ℕ
  pub share_code : Option String
  pub focus : Focus

-- A connection as the application sees it, and what it was told to send.
pub record Peer : Type 0 where
  pub peer_user : String
  pub peer_device : String
  pub status : Status
  pub sent : List Payload

-- The process ends by `stop`, or by an error that nothing catches.
pub data Over : Type 0 where
  stopped crashed : Over

-- What `stop` asks of the embedded relay, the network and the screen.
pub data Teardown : Type 0 where
  terminates_relay disconnects_network stops_screen : Teardown

module _ {S : Type 0} (I : Sessions S) where
  pub record App : Type 0 where
    pub engine : ExecutionEngine I
    pub palette : CommandPalette Action Unit
    pub bar : CommandBar Submit
    pub sidebar : Sidebar
    pub panes : PaneManager
    pub toast : Toast Notice
    pub status_bar : StatusBar
    pub peers : List (String × Peer)
    pub pair_requests : List (List ℕ)
    pub share_code : Option String
    pub user_id : String
    pub prefix_mode : Bool
    pub sidebar_focused : Bool
    pub pane_counter : ℕ
    pub last_ctrl_c_at : ℕ
    pub relay_worker : Bool
    pub torn_down : List Teardown
    pub over : Option Over

  -- The active sessions are closed before the process exits, which does not wait for their promises.
  unfoldable pub stop : App → App
  unfolding shutdown
  stop a = record a {
    engine = shutdown I a.engine;
    torn_down =
        a.torn_down
        ++ (if a.relay_worker
            then terminates_relay ∷ disconnects_network ∷ stops_screen ∷ []
            else disconnects_network ∷ stops_screen ∷ []);
    over = some stopped;
  }

  unfoldable pub notify : App → Notice → ToastLevel → ℕ → ℕ → App
  notify a n level duration now = record a { toast = show a.toast n level duration now }

  -- `focusedPane`, with its id.
  unfoldable pub focused_pane : App → Option (String × TerminalPane)
  focused_pane a = elim (truthy a.panes.focused_id) [
    | none ↦ none
    | some id ↦ elim (get id a.panes.panes) [ none ↦ none | some p ↦ some (id, p) ]
  ]

  abbrev pub session_in : List (String × S) → Option String → Option S
  session_in ss none = none
  session_in ss (some i) = get i ss

  abbrev pub session_id_of : Option (String × TerminalPane) → Option String
  session_id_of none = none
  session_id_of (some (id, p)) = p.session

  -- The id of the focused pane's session, and that session.
  unfoldable pub focused_session_id : App → Option String
  unfolding focused_pane
  focused_session_id a = session_id_of (focused_pane a)

  unfoldable pub focused_session : App → Option S
  unfolding focused_session_id
  focused_session a = session_in a.engine.sessions (focused_session_id a)

  abbrev pub store_session : App → S → App
  store_session a s = record a {
    engine = record a.engine { sessions = set (I.id s) s a.engine.sessions };
  }

  -- A call of a session that returns, or throws where nothing catches it.
  abbrev pub after_call : App → Bool × S → App
  after_call a (returned, s) = record (store_session a s) {
    over = if returned then a.over else some crashed;
  }

  abbrev pub pick_peer : (String × Peer) → Bool
  pick_peer (k, p) = is_encrypted p.status

  unfoldable pub encrypted_count : App → ℕ
  encrypted_count a = length (keep pick_peer a.peers)

  unfoldable pub current_focus : App → Focus
  current_focus a =
      if is_input a.bar.mode
      then on_command
      else if a.sidebar_focused
      then on_sidebar
      else on_terminal

  unfoldable pub update_status_bar : App → App
  unfolding encrypted_count active_in current_focus
  update_status_bar a =
      let n = encrypted_count a in
      record a {
        status_bar = record a.status_bar {
          active_sessions = active_in I a.engine.sessions;
          peer_count = n;
          share_code = if ltb 0 n then none else a.share_code;
          focus = current_focus a;
        };
      }

-- The text after the last character `c`: `split(c).pop()`.
abbrev pub after_last : ℕ → String → String → String
after_last c rest String.[] = rest
after_last c rest (String.◌∷◌ d s) =
    after_last c (if leb (code d) c && leb c (code d) then s else rest) s

abbrev pub last_part : ℕ → String → String
last_part c s = after_last c s s

abbrev pub session_status : Envelopes.SessionStatus → EntryStatus
session_status Envelopes.active = Sidebar.active
session_status Envelopes.idle = Sidebar.idle
session_status Envelopes.exited = Sidebar.exited

unfoldable pub session_row : String → SessionInfo → SidebarEntry
session_row user s =
    let is_remote = not (s.owner == user) in
    record {
      id = s.id;
      type_of = session_entry;
      label = if is_remote then s.title else last_part 58 s.title;
      sublabel = if is_remote then append "commands run on @" s.owner else last_part 47 s.shell;
      status = session_status s.status;
      is_local = not is_remote;
    }

-- The texts of a connection's status.
abbrev pub status_text : Status → String
status_text PeerConnection.connecting = "connecting"
status_text PeerConnection.handshake = "handshake"
status_text PeerConnection.encrypted = "encrypted"
status_text PeerConnection.disconnected = "disconnected"

unfoldable pub peer_row : Peer → SidebarEntry
peer_row p = record {
  id = append "peer:" (append p.peer_user (append ":" p.peer_device));
  type_of = peer_entry;
  label = append "@" p.peer_user;
  sublabel = if is_encrypted p.status then p.peer_device else status_text p.status;
  status = if is_encrypted p.status then Sidebar.online else Sidebar.connecting;
  is_local = false;
}

module _ {S : Type 0} (I : Sessions S) where
  abbrev pub info_of : (String × S) → SessionInfo
  info_of (i, s) = I.to_info s

  abbrev pub peer_of : (String × Peer) → Peer
  peer_of (k, p) = p

  unfoldable pub sidebar_rows : App I → List SidebarEntry
  unfolding session_row peer_row
  sidebar_rows a =
      map (λ (i : String × S). session_row a.user_id (info_of i)) a.engine.sessions
      ++ map (λ (k : String × Peer). peer_row (peer_of k)) a.peers

  abbrev pub select_session : Sidebar → Option String → Sidebar
  select_session s none = s
  select_session s (some id) = select_by_id s id

  unfoldable pub update_sidebar : App I → App I
  unfolding sidebar_rows focused_session_id set_entries select_by_id
  update_sidebar a = record a {
    sidebar = select_session (set_entries a.sidebar (sidebar_rows a)) (focused_session_id I a);
  }

  -- `_updateSidebar` and then `_updateStatusBar`.
  abbrev pub update_bars : App I → App I
  update_bars a = update_status_bar I (update_sidebar a)

  unfoldable pub toggle_sidebar : App I → ℕ → App I
  unfolding set_offset width notify
  toggle_sidebar a now =
      let visible = not a.sidebar.visible in
      let sidebar = record a.sidebar { visible = visible } in
      notify I
        (record a {
          sidebar = sidebar;
          panes = set_offset a.panes (if visible then width sidebar + 1 else 1);
        })
        (if visible then sidebar_shown else sidebar_hidden) ToastLevel.info 1000 now
