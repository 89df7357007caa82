-- ===== src/Tui/App/Peers.antt =====
-- packages/tui/src/app.ts: what the engine and the connections to peers tell the application.
--
-- `connections` of the network manager is a table of `Peer`s: a change of one comes as an event.
use tbridge.Base.{
  ℕ, suc, String, true, Option, none, some, List, [], ◌∷◌, ◌++◌, if◌then◌else◌, get, set, ◌==◌,
  string_eq, nat_eq,
}
use tbridge.Protocol.Envelopes.{SessionInfo, Payload}
use tbridge.Engine.ExecutionEngine.{command, writes, resizes, list_session_infos}
use tbridge.Engine.ExecutionEngine.Interface.{Sessions}
use tbridge.Network.PeerConnection.{is_encrypted}
use tbridge.Network.NetworkManager as Manager
use tbridge.Tui.Toast.{ToastLevel}
use tbridge.Tui.PaneManager.{set_offset}
use tbridge.Tui.Sidebar.{width}
use tbridge.Tui.App.State.{
  App, Peer, session_exited, share_code_is, auto_accepting, established, secure_channel,
  secure_with_host, peer_disconnected, session_error, network_error, relay_error, network_connected,
  network_disconnected, message_from, host_disconnected, welcome, notify, update_bars,
  update_status_bar,
}
use tbridge.Tui.App.Panes.{Env, mount, create_local_session}

-- `conn.send`, where it returns.
abbrev pub send_to : Peer → Payload → Peer
send_to p payload = record p { sent = p.sent ++ payload ∷ [] }

unfoldable pub broadcast_to : List (String × Peer) → Payload → List (String × Peer)
broadcast_to [] payload = []
broadcast_to ((k, p) ∷ ps) payload =
    (k, if is_encrypted p.status then send_to p payload else p) ∷ broadcast_to ps payload

module _ {S : Type 0} (I : Sessions S) (env : Env S) where
  -- The listener of the engine's `session:exit`.
  abbrev pub exit_level : Option ℕ → ToastLevel
  exit_level none = ToastLevel.warning
  exit_level (some n) = if n == 0 then ToastLevel.info else ToastLevel.warning

  unfoldable pub on_session_exit : App I → Option ℕ → App I
  unfolding notify
  on_session_exit a code =
      update_bars I (notify I a (session_exited code) (exit_level code) 3000 env.now)

  -- The listener of the engine's `session:data`.
  unfoldable pub on_session_data : App I → String → String → App I
  unfolding broadcast_to
  on_session_data a id text = record a { peers = broadcast_to a.peers (Payload.pty_data id text) }

  -- What `start` does after its listeners are set, up to the network.
  unfoldable pub start : App I → App I
  unfolding set_offset width create_local_session notify
  start a =
      notify I
        (create_local_session I env
          (record a { panes = set_offset a.panes (suc (width a.sidebar)) }) none)
        welcome ToastLevel.success 2000 env.now

  -- The handler of `resize`, after the manager's own.
  unfoldable pub on_resize : App I → App I
  unfolding set_offset width
  on_resize a = record a {
    panes = set_offset a.panes (if a.sidebar.visible then suc (width a.sidebar) else 1);
  }

  -- The listener of a local session's `error`.
  unfoldable pub on_session_error : App I → String → App I
  unfolding notify
  on_session_error a text = notify I a (session_error text) ToastLevel.error 3000 env.now

  -- The listener of the network's `status`.
  unfoldable pub on_status : App I → Manager.Status → App I
  unfolding notify
  on_status a Manager.connected = notify I a network_connected ToastLevel.success 1500 env.now
  on_status a Manager.disconnected = notify I a network_disconnected ToastLevel.warning 2000 env.now
  on_status a s = a

  unfoldable pub on_message : App I → String → Payload → App I
  unfolding notify
  on_message a user (Payload.message text) =
      notify I a (message_from user text) ToastLevel.info 3000 env.now
  on_message a user payload = a

  unfoldable pub on_network_error : App I → String → App I
  unfolding notify
  on_network_error a text = notify I a (network_error text) ToastLevel.error 3000 env.now

  -- The `catch` around the start of the relay and of the connection to it.
  unfoldable pub on_relay_error : App I → String → App I
  unfolding notify
  on_relay_error a text = notify I a (relay_error text) ToastLevel.error 3000 env.now

  unfoldable pub on_share_code : App I → String → App I
  unfolding update_status_bar notify
  on_share_code a code =
      notify I
        (update_status_bar I (record a {
          share_code = some code;
          status_bar = record a.status_bar { connected = true };
        }))
        (share_code_is code) ToastLevel.success 5000 env.now

  -- A guest asks to be paired, and is accepted: `acceptPairRequest` gives the connection.
  unfoldable pub on_pair_request : App I → String → String → Peer → App I
  unfolding notify
  on_pair_request a user key conn =
      let a' = notify I a (auto_accepting user) ToastLevel.info 2000 env.now in
      record a' { peers = set key conn a'.peers }

  -- A host has accepted, and the manager has the connection in its table.
  unfoldable pub on_connection_established : App I → String → Peer → App I
  unfolding notify
  on_connection_established a key conn = update_bars I (
      notify I (record a { peers = set key conn a.peers }) (established conn.peer_user)
        ToastLevel.success 2000 env.now)

  abbrev pub send_key : List (String × Peer) → String → Option Peer → Payload → List (String × Peer)
  send_key ps key none payload = ps
  send_key ps key (some p) payload = set key (send_to p payload) ps

  -- The host's connection is ready: the guest is told the sessions.
  unfoldable pub on_host_ready : App I → String → String → App I
  unfolding notify list_session_infos
  on_host_ready a key user =
      let a' = update_bars I (notify I a (secure_channel user) ToastLevel.success 3000 env.now) in
      record a' {
        peers =
            send_key a'.peers key (get key a'.peers)
              (Payload.sync_sessions (list_session_infos I a'.engine));
      }

  -- A payload of a guest. Where a session throws, the connection catches it.
  unfoldable pub on_host_payload : App I → Payload → App I
  unfolding command
  on_host_payload a (Payload.pty_data id text) = record a {
    engine = (command I a.engine (writes id text)).1;
  }
  on_host_payload a (Payload.pty_resize id cols rows) = record a {
    engine = (command I a.engine (resizes id cols rows)).1;
  }
  on_host_payload a payload = a

  unfoldable pub on_host_close : App I → String → App I
  unfolding notify
  on_host_close a user =
      update_bars I (notify I a (peer_disconnected user) ToastLevel.warning 3000 env.now)

  unfoldable pub on_guest_ready : App I → App I
  unfolding notify
  on_guest_ready a = update_bars I (notify I a secure_with_host ToastLevel.success 3000 env.now)

  -- `new RemoteSession`, with its title, is given for each of the host's sessions.
  unfoldable pub mount_all : (SessionInfo → S) → App I → List SessionInfo → App I
  unfolding mount
  mount_all remote a [] = a
  mount_all remote a (info ∷ infos) = mount_all remote (mount I env a (remote info)) infos

  -- A payload of the host. A remote session listens to its own.
  unfoldable pub on_guest_payload : (SessionInfo → S) → App I → Payload → App I
  unfolding mount_all
  on_guest_payload remote a (Payload.sync_sessions infos) = update_bars I (mount_all remote a infos)
  on_guest_payload remote a payload = a

  unfoldable pub on_guest_close : App I → App I
  unfolding notify
  on_guest_close a = update_bars I (notify I a host_disconnected ToastLevel.warning 3000 env.now)
