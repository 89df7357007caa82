-- ===== src/Server/SessionManager/Types.antt =====
-- apps/server/src/session-manager.ts: rooms, peers, results, and the expressions on them.
use Prim.Native.String.{◌++◌ as text_append}
use tbridge.Base.{
  ℕ, String, Bool, true, false, ◌&&◌, not, Option, none, some, List, leb, if◌then◌else◌, delete,
  ◌==◌, nat_eq, string_eq,
}
use tbridge.Protocol.{PeerIdentity}

pub data RelayState : Type 0 where
  waiting pending active ended : RelayState

-- The role of a `RelayPeer` is the field of the room in which it stands.
pub record RelayPeer : Type 0 where
  pub socket : ℕ
  pub identity : PeerIdentity

pub record RelayRoom : Type 0 where
  pub code : String
  pub created_at : ℕ
  pub expires_at : ℕ
  pub state : RelayState
  pub host : RelayPeer
  pub guest : Option RelayPeer
  pub session_id : Option String

pub record SessionManager : Type 0 where
  pub code_ttl_ms : ℕ
  pub heap : ℕ → Option RelayRoom
  pub next : ℕ
  pub by_code : List (String × ℕ)
  pub by_socket : List (ℕ × ℕ)
  pub by_session : List (String × ℕ)

-- The messages of the failed results.
pub data Failure : Type 0 where
  code_required code_active code_unknown no_pending session_unknown mismatch : Failure
  not_ready no_peer : Failure
  code_is session_is : RelayState → Failure

abbrev pub state_name : RelayState → String
state_name waiting = "waiting"
state_name pending = "pending"
state_name active = "active"
state_name ended = "ended"

abbrev pub message : Failure → String
message code_required = "share code is required"
message code_active = "share code is already active"
message code_unknown = "share code not found or expired"
message no_pending = "no pending access request"
message session_unknown = "session not found"
message mismatch = "identity does not match session peers"
message not_ready = "session is not ready"
message no_peer = "peer is not connected"
message (code_is s) = text_append "share code is " (state_name s)
message (session_is s) = text_append "session is " (state_name s)

pub data Result {ℓ} (A : Type ℓ) : Type ℓ where
  ok : A → Result A
  err : Failure → Result A

abbrev pub is_waiting : RelayState → Bool
is_waiting waiting = true
is_waiting _ = false

abbrev pub is_pending : RelayState → Bool
is_pending pending = true
is_pending _ = false

abbrev pub is_active : RelayState → Bool
is_active active = true
is_active _ = false

-- A string in a condition: `undefined` and the empty string are false.
abbrev pub truthy : Option String → Bool
truthy none = false
truthy (some s) = not (s == "")

abbrev pub or_blank : Option String → String
or_blank none = ""
or_blank (some s) = s

-- `guest?.socket`
abbrev pub socket_of : Option RelayPeer → Option ℕ
socket_of none = none
socket_of (some p) = some p.socket

-- `guest?.socket === s`
abbrev pub sits_at : Option RelayPeer → ℕ → Bool
sits_at none s = false
sits_at (some p) s = p.socket == s

-- `guest?.identity.deviceId === d`
abbrev pub has_device : Option RelayPeer → String → Bool
has_device none d = false
has_device (some p) d = p.identity.device_id == d

abbrev pub update : (ℕ → Option RelayRoom) → ℕ → RelayRoom → ℕ → Option RelayRoom
update h r room s = if r == s then some room else h s

-- A lookup in one of the maps, followed to the room.
abbrev pub follow : (ℕ → Option RelayRoom) → Option ℕ → Option (ℕ × RelayRoom)
follow h none = none
follow h (some r) = elim (h r) [ none ↦ none | some room ↦ some (r, room) ]

abbrev pub drop_session : Option String → List (String × ℕ) → List (String × ℕ)
drop_session s l = if truthy s then delete (or_blank s) l else l

abbrev pub drop_guest : Option RelayPeer → List (ℕ × ℕ) → List (ℕ × ℕ)
drop_guest none l = l
drop_guest (some p) l = delete p.socket l

abbrev pub is_expired : ℕ → RelayRoom → Bool
is_expired now room = not (is_active room.state) && leb room.expires_at now

-- `socket === room.host.socket ? room.guest?.socket : room.host.socket`
abbrev pub other_socket : RelayRoom → ℕ → Option ℕ
other_socket room socket =
    if socket == room.host.socket then socket_of room.guest else some room.host.socket
