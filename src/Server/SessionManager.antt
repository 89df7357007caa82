-- ===== src/Server/SessionManager.antt =====
-- apps/server/src/session-manager.ts: rooms, and the three maps that lead to them.
--
-- A room is a shared mutable object, so the manager holds a heap of rooms and the maps hold
-- references. A socket is known by its reference only. `now` and the fresh `crypto.randomUUID()`
-- are arguments. A method returns its result and the manager after it.
mod Types
pub mod Invariant
pub mod Preservation
pub mod Lifecycle
pub mod Routing
pub mod Expiry
pub mod ShareCodes
mod Tests
unfoldable pub use Types.*
use tbridge.Base.{
  ℕ, suc, ◌+◌, ◌++◌, String, Bool, true, false, ◌&&◌, ◌||◌, not, Option, none, some, List, [], ◌∷◌,
  leb, if◌then◌else◌, get, set, delete, has, is_some, ◌==◌, nat_eq, string_eq,
}
use tbridge.Protocol.{PeerIdentity}

unfoldable pub new_session_manager : ℕ → SessionManager
new_session_manager ttl = record {
  code_ttl_ms = ttl;
  heap = λ r. none;
  next = 0;
  by_code = [];
  by_socket = [];
  by_session = [];
}

unfoldable pub get_room : SessionManager → ℕ → Option (ℕ × RelayRoom)
get_room m socket = follow m.heap (get socket m.by_socket)

-- One round of the loop of `expireRooms`.
pub expire_one : ℕ → SessionManager → ℕ → SessionManager × List ℕ
expire_one now m r = elim (m.heap r) [
  | none ↦ (m, [])
  | some room ↦
      if is_expired now room
      then (
        record m {
          heap = update m.heap r (record room { state = ended });
          by_code = delete room.code m.by_code;
          by_socket = drop_guest room.guest (delete room.host.socket m.by_socket);
          by_session = drop_session room.session_id m.by_session;
        },
        r ∷ [],
      )
      else (m, [])
]

-- The loop of `expireRooms`. It deletes no entry but the one at which it stands, since the key of
-- an entry is its room's code; so it walks the entries as they are at its start.
pub expire_all : ℕ → SessionManager → List (String × ℕ) → SessionManager × List ℕ
expire_all now m [] = (m, [])
expire_all now m ((c, r) ∷ es) =
    let (m', out) = expire_one now m r in
    let (m'', rest) = expire_all now m' es in (m'', out ++ rest)

unfoldable pub expire_rooms : SessionManager → ℕ → SessionManager × List ℕ
unfolding expire_all expire_one
expire_rooms m now = expire_all now m m.by_code

-- `registerHost` behind its call of `expireRooms`.
unfoldable pub open_room :
    SessionManager → ℕ → String → PeerIdentity → ℕ → Result ℕ × SessionManager
open_room m socket code identity now =
    if code == ""
    then (err code_required, m)
    else if has code m.by_code
    then (err code_active, m)
    else (
      ok m.next,
      record m {
        heap = update m.heap m.next (record {
          code = code;
          created_at = now;
          expires_at = now + m.code_ttl_ms;
          state = waiting;
          host = record { socket = socket; identity = identity };
          guest = none;
          session_id = none;
        });
        next = suc m.next;
        by_code = set code m.next m.by_code;
        by_socket = set socket m.next m.by_socket;
      },
    )

unfoldable pub register_host :
    SessionManager → ℕ → String → PeerIdentity → ℕ → Result ℕ × SessionManager
register_host m socket code identity now = open_room (expire_rooms m now).0 socket code identity now

-- `registerGuest` behind its call of `expireRooms`.
unfoldable pub join_room : SessionManager → ℕ → String → PeerIdentity → Result ℕ × SessionManager
join_room m socket code identity = elim (follow m.heap (get code m.by_code)) [
  | none ↦ (err code_unknown, m)
  | some (r, room) ↦ if not (is_waiting room.state) then (err (code_is room.state), m) else (
    ok r,
    record m {
      heap = update m.heap r (record room {
        guest = some (record { socket = socket; identity = identity });
        state = pending;
      });
      by_socket = set socket r m.by_socket;
    },
  )
]

unfoldable pub register_guest :
    SessionManager → ℕ → String → PeerIdentity → ℕ → Result ℕ × SessionManager
register_guest m socket code identity now = join_room (expire_rooms m now).0 socket code identity

unfoldable pub approve : SessionManager → ℕ → String → Result (ℕ × String) × SessionManager
approve m host_socket uuid = elim (follow m.heap (get host_socket m.by_socket)) [
  | none ↦ (err no_pending, m)
  | some (r, room) ↦
      if not (room.host.socket == host_socket) || not (is_some room.guest)
      then (err no_pending, m)
      else if not (is_pending room.state)
      then (err (session_is room.state), m)
      else (
        ok (r, uuid),
        record m {
          heap = update m.heap r (record room { session_id = some uuid; state = active });
          by_code = delete room.code m.by_code;
          by_session = set uuid r m.by_session;
        },
      )
]

unfoldable pub reject : SessionManager → ℕ → Result (ℕ × String) × SessionManager
reject m host_socket = elim (follow m.heap (get host_socket m.by_socket)) [
  | none ↦ (err no_pending, m)
  | some (r, room) ↦
      if not (room.host.socket == host_socket) || not (is_some room.guest)
      then (err no_pending, m)
      else (
        ok (r, or_blank room.session_id),
        record m {
          heap = update m.heap r (record room { state = ended });
          by_code = delete room.code m.by_code;
        },
      )
]

-- The assignments of `reconnect` for one role: the old socket's entry goes, the new one's comes.
abbrev pub move_socket : Option ℕ → ℕ → ℕ → List (ℕ × ℕ) → List (ℕ × ℕ)
move_socket none socket r l = set socket r l
move_socket (some old) socket r l = set socket r (delete old l)

unfoldable pub reconnect : SessionManager → ℕ → String → PeerIdentity → Result ℕ × SessionManager
reconnect m socket session_id identity = elim (follow m.heap (get session_id m.by_session)) [
  | none ↦ (err session_unknown, m)
  | some (r, room) ↦
      if not (is_active room.state)
      then (err (session_is room.state), m)
      else if room.host.identity.device_id == identity.device_id
      then (
        ok r,
        record m {
          heap =
              update m.heap r
                (record room { host = record { socket = socket; identity = identity } });
          by_socket = move_socket (some room.host.socket) socket r m.by_socket;
        },
      )
      else if has_device room.guest identity.device_id
      then (
        ok r,
        record m {
          heap =
              update m.heap r
                (record room { guest = some (record { socket = socket; identity = identity }) });
          by_socket = move_socket (socket_of room.guest) socket r m.by_socket;
        },
      )
      else (err mismatch, m)
]

unfoldable pub get_peer : SessionManager → ℕ → Result (ℕ × ℕ)
get_peer m socket = elim (follow m.heap (get socket m.by_socket)) [
  | none ↦ err session_unknown
  | some (r, room) ↦
      if not (is_active room.state)
      then err not_ready
      else elim (other_socket room socket) [ none ↦ err no_peer | some peer ↦ ok (r, peer) ]
]

-- The rest of `releaseSocket`, once the room is found.
pub release_from : SessionManager → ℕ → ℕ → RelayRoom → SessionManager
release_from m socket r room =
    if socket == room.host.socket
    then record m {
      heap = update m.heap r (record room { state = ended });
      by_code = delete room.code m.by_code;
      by_socket = drop_guest room.guest (delete socket m.by_socket);
      by_session = drop_session room.session_id m.by_session;
    }
    else if sits_at room.guest socket
    then if is_pending room.state || is_active room.state
      then record m {
        heap = update m.heap r (record room { guest = none; state = ended });
        by_code = delete room.code m.by_code;
        by_socket = delete socket m.by_socket;
        by_session = drop_session room.session_id m.by_session;
      }
      else record m {
        heap = update m.heap r (record room { guest = none });
        by_socket = delete socket m.by_socket;
      }
    else record m { by_socket = delete socket m.by_socket }

unfoldable pub release_socket : SessionManager → ℕ → Option ℕ × SessionManager
unfolding release_from
release_socket m socket = elim (follow m.heap (get socket m.by_socket)) [
  | none ↦ (none, m)
  | some (r, room) ↦ (some r, release_from m socket r room)
]

-- One call of a method that changes the state. The time or the fresh id is an argument of it.
pub data Call : Type 0 where
  registers_host : ℕ → String → PeerIdentity → ℕ → Call
  registers_guest : ℕ → String → PeerIdentity → ℕ → Call
  approves : ℕ → String → Call
  rejects : ℕ → Call
  reconnects : ℕ → String → PeerIdentity → Call
  releases : ℕ → Call
  expires : ℕ → Call

unfoldable pub step : SessionManager → Call → SessionManager
step m (registers_host socket code identity now) = (register_host m socket code identity now).1
step m (registers_guest socket code identity now) = (register_guest m socket code identity now).1
step m (approves socket uuid) = (approve m socket uuid).1
step m (rejects socket) = (reject m socket).1
step m (reconnects socket session_id identity) = (reconnect m socket session_id identity).1
step m (releases socket) = (release_socket m socket).1
step m (expires now) = (expire_rooms m now).0

pub run : SessionManager → List Call → SessionManager
run m [] = m
run m (c ∷ cs) = run (step m c) cs
