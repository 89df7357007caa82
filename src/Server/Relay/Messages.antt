-- ===== src/Server/Relay/Messages.antt =====
-- apps/server/src/main.ts: `handleMessage` and the handlers of the messages.
use tbridge.Base.{
  ℕ, String, Option, none, some, if◌then◌else◌, get, set, delete, ◌==◌, nat_eq, string_eq,
}
use tbridge.Protocol.{PeerIdentity}
use tbridge.Protocol.Legacy.{ClientRole, ClientMessage, ServerMessage}
use tbridge.Server.RateLimiter.{check}
use tbridge.Server.SessionManager.{
  RelayRoom, message, Result, ok, err, socket_of, register_host, register_guest, approve, reject,
  reconnect, get_peer,
}
use tbridge.Server.Relay.State.{Relay, send, close, send_to, close_at, fail, with_sessions, at_room}

-- The answer to a failed registration or reconnect.
abbrev pub turn_away : Relay → ℕ → String → Relay
turn_away s socket text = close (fail s socket text) socket

-- `registerHost`, once the limiter has allowed it.
unfoldable pub host_registered : Relay → ℕ → Result ℕ → Relay
host_registered s socket (err f) = turn_away s socket (message f)
host_registered s socket (ok r) =
    at_room s r λ room. send s socket (ServerMessage.host_registered room.code)

-- `registerGuest`, likewise.
unfoldable pub guest_registered : Relay → ℕ → String → PeerIdentity → Result ℕ → Relay
guest_registered s socket code identity (err f) = turn_away s socket (message f)
guest_registered s socket code identity (ok r) =
    at_room s r λ room. send s room.host.socket (ServerMessage.access_request code identity)

-- The rate limit in front of both registrations.
unfoldable pub limit_registration : Relay → ℕ → String → ℕ → (Relay → Relay) → Relay
limit_registration s socket ip now go =
    let (r, l) = check s.registration_limiter ip now in
    let s' = record s { registration_limiter = l } in
    if r.allowed then go s' else turn_away s' socket "too many registration attempts"

unfoldable pub relay_register_host : Relay → ℕ → String → PeerIdentity → String → ℕ → Relay
unfolding limit_registration host_registered
relay_register_host s socket code identity ip now = limit_registration s socket ip now λ t.
    let (result, m) = register_host t.sessions socket code identity now in
    host_registered (with_sessions t m) socket result

unfoldable pub relay_register_guest : Relay → ℕ → String → PeerIdentity → String → ℕ → Relay
unfolding limit_registration guest_registered
relay_register_guest s socket code identity ip now = limit_registration s socket ip now λ t.
    let (result, m) = register_guest t.sessions socket code identity now in
    guest_registered (with_sessions t m) socket code identity result

-- `SESSION_READY` to both ends, then each end's identity to the other. Without a guest, which an
-- approval does not leave, the source throws at `guest!` before it sends.
unfoldable pub announce : Relay → RelayRoom → String → Relay
announce s room id = elim room.guest [
  | none ↦ s
  | some guest ↦
      send
        (send
          (send (send s room.host.socket (ServerMessage.session_ready id ClientRole.host))
            guest.socket (ServerMessage.session_ready id ClientRole.guest))
          room.host.socket (ServerMessage.session_info guest.identity))
        guest.socket (ServerMessage.session_info room.host.identity)
]

unfoldable pub approved : Relay → ℕ → ℕ → Result (ℕ × String) → Relay
unfolding announce
approved s socket now (err f) = fail s socket (message f)
approved s socket now (ok (r, id)) =
    at_room (record s { start_times = set id now s.start_times }) r
      λ room. announce (record s { start_times = set id now s.start_times }) room id

unfoldable pub approve_access : Relay → ℕ → String → ℕ → Relay
unfolding approved
approve_access s socket uuid now =
    let (result, m) = approve s.sessions socket uuid in
    approved (with_sessions s m) socket now result

-- The default of the parameter `reason`.
abbrev pub reason_or : Option String → String
reason_or none = "host rejected access"
reason_or (some reason) = reason

unfoldable pub rejected : Relay → ℕ → Option String → Result (ℕ × String) → Relay
rejected s socket reason (err f) = fail s socket (message f)
rejected s socket reason (ok (r, id)) = at_room s r λ room.
    close_at (send_to s (socket_of room.guest) (ServerMessage.access_rejected (reason_or reason)))
      (socket_of room.guest)

unfoldable pub reject_access : Relay → ℕ → Option String → Relay
unfolding rejected
reject_access s socket reason =
    let (result, m) = reject s.sessions socket in rejected (with_sessions s m) socket reason result

-- `clearTimeout` of the session's grace timer, and its entry goes.
unfoldable pub cancel_grace : Relay → String → Relay
cancel_grace s id = elim (get id s.grace_timers) [
  | none ↦ s
  | some t ↦ record s { timers = delete t s.timers; grace_timers = delete id s.grace_timers }
]

unfoldable pub reconnected : Relay → ℕ → String → Result ℕ → Relay
unfolding cancel_grace
reconnected s socket id (err f) = turn_away s socket (message f)
reconnected s socket id (ok r) = at_room s r λ room. send (cancel_grace s id) socket (
    ServerMessage.reconnect_ok id
      (if room.host.socket == socket then ClientRole.host else ClientRole.guest))

unfoldable pub handle_reconnect : Relay → ℕ → String → PeerIdentity → Relay
unfolding reconnected
handle_reconnect s socket id identity =
    let (result, m) = reconnect s.sessions socket id identity in
    reconnected (with_sessions s m) socket id result

unfoldable pub forward_to_peer : Relay → ℕ → ServerMessage → Relay
forward_to_peer s socket m = elim (get_peer s.sessions socket) [
  | err f ↦ fail s socket (message f)
  | ok (r, peer) ↦ send s peer m
]

-- The switch of `handleMessage`.
unfoldable pub handle_message : Relay → ℕ → ClientMessage → String → String → ℕ → Relay
handle_message s socket (ClientMessage.register_host code identity) ip uuid now =
    relay_register_host s socket code identity ip now
handle_message s socket (ClientMessage.register_guest code identity) ip uuid now =
    relay_register_guest s socket code identity ip now
handle_message s socket ClientMessage.access_approved ip uuid now = approve_access s socket uuid now
handle_message s socket (ClientMessage.access_rejected reason) ip uuid now =
    reject_access s socket reason
handle_message s socket (ClientMessage.reconnect id identity) ip uuid now =
    handle_reconnect s socket id identity
handle_message s socket (ClientMessage.key_exchange key) ip uuid now =
    forward_to_peer s socket (ServerMessage.key_exchange key)
handle_message s socket (ClientMessage.encrypted_data text nonce) ip uuid now =
    forward_to_peer s socket (ServerMessage.encrypted_data text nonce)
handle_message s socket (ClientMessage.pty_input text) ip uuid now =
    forward_to_peer s socket (ServerMessage.pty_input text)
handle_message s socket (ClientMessage.pty_output text) ip uuid now =
    forward_to_peer s socket (ServerMessage.pty_output text)
handle_message s socket (ClientMessage.pty_resize cols rows) ip uuid now =
    forward_to_peer s socket (ServerMessage.pty_resize cols rows)
handle_message s socket (ClientMessage.pty_exit code) ip uuid now =
    forward_to_peer s socket (ServerMessage.pty_exit code)
handle_message s socket (ClientMessage.session_terminate reason) ip uuid now =
    forward_to_peer s socket (ServerMessage.session_terminate reason)
