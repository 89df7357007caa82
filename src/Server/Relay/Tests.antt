-- ===== src/Server/Relay/Tests.antt =====
-- apps/server/src/main.ts: the theorems at a host and a guest that share a terminal.
use tbridge.Base.{
  ℕ, ◌≡◌, refl, String, true, false, some, List, [], ◌∷◌, get, set, delete, nat_eq, string_eq, has,
  arith,
}
use tbridge.Protocol.{PeerIdentity}
use tbridge.Protocol.Legacy.{ClientMessage}
use tbridge.Server.RateLimiter.{
  RateLimiter, new_rate_limiter, check, prune, first_valid, timestamps,
}
use tbridge.Server.SessionManager.{
  pending, active, RelayRoom, new_session_manager, register_host, register_guest, approve,
  reconnect, expire_rooms, open_room, join_room, get_room, expire_rooms, release_socket,
}
use tbridge.Server.SessionManager.Invariant.{IsValid, new_session_manager-IsValid}
use tbridge.Server.SessionManager.Lifecycle.{is_active_at}
use tbridge.Server.Relay.{
  Relay, decoded, Event, connects, receives, closes, fires, handle, handle_all, handle_reconnect,
  handle_message, on_connection, on_message, on_close, on_timer, handle_disconnect, cleanup_room,
  start_grace, send, close, approve_access, relay_register_host, relay_register_guest,
}
use tbridge.Server.Relay.Calls.{Calls}
use tbridge.Server.Relay.Refinement.{handle-Calls, handle_all-IsValid, handle_consent}
use tbridge.Server.Relay.Grace.{is_ended_at, reconnect_strands}

abbrev who : String → PeerIdentity
who d = record { user_id = d; device_id = d; device_name = d; public_key = d }

abbrev limiter : RateLimiter
limiter = new_rate_limiter 10 1000

abbrev idle : Relay
idle = record {
  sessions = new_session_manager 1000;
  start_times = [];
  grace_timers = [];
  timers = [];
  next_timer = 0;
  socket_ips = [];
  connection_limiter = limiter;
  registration_limiter = limiter;
  message_limiter = limiter;
  open_sockets = λ k. false;
  attached = [];
  out = [];
}

abbrev says : ℕ → ClientMessage → Event
says k m = receives k (decoded m) "s" 0

abbrev asking : List Event
asking =
    connects 1 "a" 0
    ∷ connects 2 "b" 0
    ∷ says 1 (ClientMessage.register_host "123-456" (who "h"))
    ∷ says 2 (ClientMessage.register_guest "123-456" (who "g"))
    ∷ []

-- Socket 1 has shared a terminal, and socket 2 asks for it.
abbrev asked : Relay
asked = handle_all idle asking

-- Socket 1 has let socket 2 in.
abbrev shared : Relay
shared = handle asked (says 1 ClientMessage.access_approved)

-- The guest has gone.
abbrev left : Relay
left = handle shared (closes 2)

-- Both have gone, the host first.
abbrev gone : Relay
gone = handle (handle shared (closes 1)) (closes 2)

-- The host is back on socket 3.
abbrev back : Relay
back = handle_reconnect gone 3 "s" (who "h")

asked-IsValid : IsValid asked.sessions
asked-IsValid = handle_all-IsValid idle asking (new_session_manager-IsValid 1000)

gone-IsValid : IsValid gone.sessions
unfolding handle handle_all
gone-IsValid =
    handle_all-IsValid asked (says 1 ClientMessage.access_approved ∷ closes 1 ∷ closes 2 ∷ [])
      asked-IsValid

handle_all-IsValid_example : IsValid asked.sessions
handle_all-IsValid_example = handle_all-IsValid idle asking (new_session_manager-IsValid 1000)

handle-Calls_example :
    Calls asked.timers (says 1 ClientMessage.access_approved) asked.sessions shared.sessions
handle-Calls_example = handle-Calls asked (says 1 ClientMessage.access_approved)

handle_consent_example :
    (room : RelayRoom) × (uuid : String) × (now : ℕ) × (asked.sessions.heap 0 ≡ some room)
    × (room.state ≡ pending)
    × (says 1 ClientMessage.access_approved
        ≡ receives room.host.socket (decoded ClientMessage.access_approved) uuid now)
unfolding handle_all handle new_session_manager get set delete has expire_rooms register_host
    register_guest approve open_room join_room get_room new_rate_limiter check prune first_valid
    timestamps on_connection on_message handle_message relay_register_host relay_register_guest
    approve_access send close
handle_consent_example = handle_consent asked (says 1 ClientMessage.access_approved) 0 refl refl

reconnect_strands_example :
    (is_ended_at ((handle gone (fires 1)).sessions.heap 0) ≡ true)
    × (handle back (fires 1) ≡ back)
    × (get 2 back.sessions.by_socket ≡ some 0)
    × (is_active_at (back.sessions.heap 0) ≡ true)
unfolding handle_all handle new_session_manager get set delete has expire_rooms register_host
    register_guest approve open_room join_room get_room new_rate_limiter check prune first_valid
    timestamps on_connection on_message handle_message relay_register_host relay_register_guest
    approve_access send close on_close handle_disconnect start_grace on_timer cleanup_room
    release_socket reconnect handle_reconnect
reconnect_strands_example =
    reconnect_strands gone 3 0 1 "s" (who "h")
      (record {
        code = "123-456";
        created_at = 0;
        expires_at = 1000;
        state = active;
        host = record { socket = 1; identity = who "h" };
        guest = some (record { socket = 2; identity = who "g" });
        session_id = some "s";
      })
      (record { socket = 2; identity = who "g" })
      (record { id = 1; session = "s"; room = 0; socket = 2 }) gone-IsValid refl refl refl refl refl
      (omega arith) (omega arith) refl refl refl refl refl
