-- ===== src/Server/Relay.antt =====
-- apps/server/src/main.ts: the relay's event handlers.
--
-- The state is the module's variables, the sockets that are open, the handlers that are attached
-- and the timers that run. What the handlers send and close is appended to `out`. The clock, the
-- fresh session id and the outcome of `decodeMessage` come with the event. Log lines are left out.
mod State
mod Messages
pub mod Calls
pub mod Refinement
pub mod Growth
pub mod Answers
pub mod Delivery
pub mod Grace
mod Tests
unfoldable pub use State.*
unfoldable pub use Messages.*
use tbridge.Base.{
  ℕ, suc, ◌+◌, ◌++◌, String, Bool, true, false, ◌&&◌, Option, none, some, List, [], ◌∷◌,
  if◌then◌else◌, get, set, delete, has, is_some, ◌==◌, nat_eq, string_eq,
}
use tbridge.Protocol.{PeerIdentity}
use tbridge.Protocol.Legacy.{ClientRole, ClientMessage, ServerMessage}
use tbridge.Server.RateLimiter.{RateLimiter, RateLimitResult, check}
use tbridge.Server.SessionManager.{
  RelayRoom, SessionManager, Failure, message, Result, ok, err, is_active, truthy, or_blank,
  socket_of, other_socket, get_room, register_host, register_guest, approve, reject, reconnect,
  get_peer, release_socket, expire_rooms,
}

-- What `decodeMessage` makes of the bytes: an error with its text, a message of the protocol, or an
-- object whose `type` the protocol does not know.
pub data Decoded : Type 0 where
  malformed : String → Decoded
  decoded : ClientMessage → Decoded
  unsupported : Decoded

-- `cleanupRoom`, once the room is found. `peer` is read before the release, the guest to close after.
unfoldable pub cleanup_found : Relay → ℕ → ℕ → RelayRoom → Option String → Relay
cleanup_found s socket r room session_id =
    let s1 = with_sessions s (release_socket s.sessions socket).1 in
    let s2 = record s1 {
      start_times =
          if truthy session_id then delete (or_blank session_id) s1.start_times else s1.start_times;
    } in
    let s3 =
      send_to s2 (other_socket room socket)
        (ServerMessage.session_terminate (some "peer disconnected")) in
    at_room s3 r
      λ after. if socket == after.host.socket then close_at s3 (socket_of after.guest) else s3

unfoldable pub cleanup_room : Relay → ℕ → Option String → Relay
unfolding cleanup_found
cleanup_room s socket session_id = elim (get_room s.sessions socket) [
  | none ↦ s
  | some (r, room) ↦ cleanup_found s socket r room session_id
]

-- The grace period of an active session.
unfoldable pub start_grace : Relay → ℕ → ℕ → RelayRoom → String → Relay
start_grace s socket r room id =
    let s' =
      send_to s (other_socket room socket)
        (ServerMessage.session_terminate (some "peer disconnected (may reconnect)")) in
    record s' {
      timers =
          set s.next_timer (record { id = s.next_timer; socket = socket; session = id; room = r })
            s'.timers;
      grace_timers = set id s.next_timer s'.grace_timers;
      next_timer = suc s.next_timer;
    }

unfoldable pub handle_disconnect : Relay → ℕ → Relay
unfolding start_grace cleanup_room
handle_disconnect s socket = elim (get_room s.sessions socket) [
  | none ↦ s
  | some (r, room) ↦
      if is_active room.state && truthy room.session_id
      then start_grace s socket r room (or_blank room.session_id)
      else cleanup_room s socket room.session_id
]

-- The handler of `connection`. A socket that is refused gets no further handlers.
unfoldable pub on_connection : Relay → ℕ → String → ℕ → Relay
on_connection s socket ip now =
    let (r, l) = check s.connection_limiter ip now in
    let s' = record s {
      open_sockets = λ k. if k == socket then true else s.open_sockets k;
      socket_ips = set socket ip s.socket_ips;
      connection_limiter = l;
    } in
    if r.allowed
    then record s' { attached = set socket ip s'.attached }
    else close (fail s' socket "too many connections") socket

-- The handler of `message`, with the address that its closure holds.
unfoldable pub on_decoded : Relay → ℕ → Decoded → String → String → ℕ → Relay
on_decoded s socket (malformed text) ip uuid now = fail s socket text
on_decoded s socket (decoded m) ip uuid now = handle_message s socket m ip uuid now
on_decoded s socket unsupported ip uuid now = fail s socket "unsupported message"

unfoldable pub on_message : Relay → ℕ → Decoded → String → String → ℕ → Relay
unfolding on_decoded
on_message s socket m ip uuid now =
    let (r, l) = check s.message_limiter ip now in
    let s' = record s { message_limiter = l } in
    if r.allowed
    then on_decoded s' socket m ip uuid now
    else fail s' socket "message rate limit exceeded"

-- The handler of `close`; the socket is closed by then.
unfoldable pub on_close : Relay → ℕ → Relay
unfolding handle_disconnect
on_close s socket =
    let s1 = record s { open_sockets = λ k. if k == socket then false else s.open_sockets k } in
    let s2 = handle_disconnect s1 socket in
    record s2 { socket_ips = delete socket s2.socket_ips; attached = delete socket s2.attached }

-- A grace timer runs out. `room.sessionId` is read as it is then.
unfoldable pub on_timer : Relay → Timer → Relay
unfolding cleanup_room
on_timer s t =
    let s' = record s {
      timers = delete t.id s.timers;
      grace_timers = delete t.session s.grace_timers;
    } in
    at_room s' t.room λ room. cleanup_room s' t.socket room.session_id

-- The loop of the expiry sweep, over the rooms that expired.
unfoldable pub sweep_one : Relay → ℕ → Relay
sweep_one s r = at_room s r λ room.
    close_at
      (close (fail s room.host.socket "share code expired before a guest connected")
        room.host.socket)
      (socket_of room.guest)

unfoldable pub sweep_rooms : Relay → List ℕ → Relay
sweep_rooms s [] = s
sweep_rooms s (r ∷ rs) = sweep_rooms (sweep_one s r) rs

unfoldable pub on_sweep : Relay → ℕ → Relay
unfolding sweep_rooms
on_sweep s now =
    let (m, expired) = expire_rooms s.sessions now in sweep_rooms (with_sessions s m) expired

-- What can happen to the relay.
pub data Event : Type 0 where
  connects : ℕ → String → ℕ → Event
  receives : ℕ → Decoded → String → ℕ → Event
  closes : ℕ → Event
  fires : ℕ → Event
  sweeps : ℕ → Event

-- A socket's messages and its end are heard while its handlers are attached; a timer fires while it
-- runs.
unfoldable pub handle : Relay → Event → Relay
unfolding on_connection on_message on_close on_timer on_sweep
handle s (connects socket ip now) = on_connection s socket ip now
handle s (receives socket m uuid now) = elim (get socket s.attached) [
  | none ↦ s
  | some ip ↦ on_message s socket m ip uuid now
]
handle s (closes socket) = elim (get socket s.attached) [ none ↦ s | some ip ↦ on_close s socket ]
handle s (fires t) = elim (get t s.timers) [ none ↦ s | some timer ↦ on_timer s timer ]
handle s (sweeps now) = on_sweep s now

unfoldable pub handle_all : Relay → List Event → Relay
handle_all s [] = s
handle_all s (e ∷ es) = handle_all (handle s e) es
