-- ===== src/Server/SessionManager/Lifecycle.antt =====
-- apps/server/src/session-manager.ts: how a room moves through its states.
use tbridge.Base.{
  ℕ, ◌≤◌, ◌≡◌, refl, inl, inr, String, Bool, true, false, Option, none, some, List, [], ◌∷◌, get,
  nat_eq, string_eq, arith,
}
use tbridge.Protocol.{PeerIdentity}
use tbridge.Server.SessionManager.{
  RelayState, waiting, pending, active, ended, RelayRoom, SessionManager, is_active, expire_one,
  expire_all, expire_rooms, open_room, register_host, join_room, register_guest, approve, reject,
  reconnect, release_socket, Call, registers_host, registers_guest, approves, rejects, reconnects,
  releases, expires, step, run,
}
use tbridge.Server.SessionManager.Invariant.{IsValid, follow-cases}
use tbridge.Server.SessionManager.Preservation.{expire_rooms-IsValid, step-IsValid}

abbrev pub rank : RelayState → ℕ
rank waiting = 0
rank pending = 1
rank active = 2
rank ended = 3

-- `b` is what has become of the room `a`: it has the same code, times and host device, and its state
-- has not gone back.
abbrev pub Later : RelayRoom → RelayRoom → Type 0
Later a b =
    (b.code ≡ a.code)
    × (b.created_at ≡ a.created_at)
    × (b.expires_at ≡ a.expires_at)
    × (b.host.identity.device_id ≡ a.host.identity.device_id)
    × (rank a.state ≤ rank b.state)

abbrev pub Became : Option RelayRoom → Option RelayRoom → Type 0
Became none o = Unit {0}
Became (some a) none = ⊥
Became (some a) (some b) = Later a b

Became-refl : (o : Option RelayRoom) → Became o o
Became-refl none = tt
Became-refl (some a) = (refl, refl, refl, refl, omega arith)

Became-trans : (o p q : Option RelayRoom) → Became o p → Became p q → Became o q
Became-trans none p q h k = tt
Became-trans (some a) none q h k = absurd h
Became-trans (some a) (some b) none h k = absurd k
Became-trans (some a) (some b) (some c) h k = ground arith

pub expire_one-Became :
    (m : SessionManager) (now r s : ℕ) → Became (m.heap s) ((expire_one now m r).0.heap s)
unfolding expire_one
expire_one-Became m now r s = ground (arith, Became-refl (m.heap s))

pub expire_all-Became :
    (m : SessionManager) (now : ℕ) (es : List (String × ℕ)) (s : ℕ)
    → Became (m.heap s) ((expire_all now m es).0.heap s)
unfolding expire_all
expire_all-Became m now [] s = Became-refl (m.heap s)
expire_all-Became m now ((c, r) ∷ es) s =
    Became-trans (m.heap s) ((expire_one now m r).0.heap s) _ (expire_one-Became m now r s)
      (expire_all-Became (expire_one now m r).0 now es s)

pub expire_rooms-Became :
    (m : SessionManager) (now s : ℕ) → Became (m.heap s) ((expire_rooms m now).0.heap s)
unfolding expire_rooms
expire_rooms-Became m now s = expire_all-Became m now m.by_code s

open_room-Became :
    {m : SessionManager}
    → IsValid m
    → (socket : ℕ) (code : String) (identity : PeerIdentity) (now s : ℕ)
    → Became (m.heap s) ((open_room m socket code identity now).1.heap s)
unfolding open_room
open_room-Became {m} v socket code identity now s =
    ground (arith, Became-refl (m.heap s), v.fresh m.next)

join_room-Became :
    (m : SessionManager) (socket : ℕ) (code : String) (identity : PeerIdentity) (s : ℕ)
    → Became (m.heap s) ((join_room m socket code identity).1.heap s)
unfolding join_room
join_room-Became m socket code identity s = ground (arith, Became-refl (m.heap s))

approve-Became :
    (m : SessionManager) (socket : ℕ) (uuid : String) (s : ℕ)
    → Became (m.heap s) ((approve m socket uuid).1.heap s)
unfolding approve
approve-Became m socket uuid s = ground (arith, Became-refl (m.heap s))

reject-Became : (m : SessionManager) (socket s : ℕ) → Became (m.heap s) ((reject m socket).1.heap s)
unfolding reject
reject-Became m socket s = ground (arith, Became-refl (m.heap s))

reconnect-Became :
    (m : SessionManager) (socket : ℕ) (id : String) (identity : PeerIdentity) (s : ℕ)
    → Became (m.heap s) ((reconnect m socket id identity).1.heap s)
unfolding reconnect
reconnect-Became m socket id identity s = elim (follow-cases m.heap (get id m.by_session)) [
  | inl e ↦ ground (arith, Became-refl (m.heap s))
  | inr (r, room, x, y, e) ↦ ground (
    arith,
    Became-refl (m.heap s),
    string_eq.same_iff room.host.identity.device_id identity.device_id,
  )
]

release_socket-Became :
    (m : SessionManager) (socket s : ℕ) → Became (m.heap s) ((release_socket m socket).1.heap s)
unfolding release_socket
release_socket-Became m socket s = ground (arith, Became-refl (m.heap s))

step-Became :
    {m : SessionManager} (c : Call) (s : ℕ) → IsValid m → Became (m.heap s) ((step m c).heap s)
unfolding step register_host register_guest
step-Became {m} (registers_host socket code identity now) s v =
    Became-trans (m.heap s) ((expire_rooms m now).0.heap s) _ (expire_rooms-Became m now s)
      (open_room-Became (expire_rooms-IsValid now v) socket code identity now s)
step-Became {m} (registers_guest socket code identity now) s v =
    Became-trans (m.heap s) ((expire_rooms m now).0.heap s) _ (expire_rooms-Became m now s)
      (join_room-Became (expire_rooms m now).0 socket code identity s)
step-Became {m} (approves socket uuid) s v = approve-Became m socket uuid s
step-Became {m} (rejects socket) s v = reject-Became m socket s
step-Became {m} (reconnects socket id identity) s v = reconnect-Became m socket id identity s
step-Became {m} (releases socket) s v = release_socket-Became m socket s
step-Became {m} (expires now) s v = expire_rooms-Became m now s

-- From a valid manager, through any history of calls, a room keeps its code, its times and its
-- host's device id, and its state never goes back: waiting, pending, active, ended. So a room that
-- has ended stays ended.
pub run-Became :
    (m : SessionManager) (cs : List Call) (s : ℕ)
    → IsValid m
    → Became (m.heap s) ((run m cs).heap s)
unfolding run
run-Became m [] s v = Became-refl (m.heap s)
run-Became m (c ∷ cs) s v =
    Became-trans (m.heap s) ((step m c).heap s) _ (step-Became c s v)
      (run-Became (step m c) cs s (step-IsValid c v))

abbrev pub is_active_at : Option RelayRoom → Bool
is_active_at none = false
is_active_at (some room) = is_active room.state

-- The call is an approval by the host of the pending room.
abbrev pub Approved : SessionManager → Call → ℕ → Type 0
Approved m c s =
    (room : RelayRoom) × (uuid : String) × (m.heap s ≡ some room)
    × (room.state ≡ pending)
    × (c ≡ approves room.host.socket uuid)

-- A call by which no room becomes active.
abbrev Quiet : SessionManager → SessionManager → ℕ → Type 0
Quiet m n s = is_active_at (n.heap s) ≡ true → is_active_at (m.heap s) ≡ true

expire_all-Quiet :
    (m : SessionManager) (now : ℕ) (es : List (String × ℕ)) (s : ℕ)
    → Quiet m (expire_all now m es).0 s
unfolding expire_all expire_one
expire_all-Quiet m now [] s h = h
expire_all-Quiet m now ((c, r) ∷ es) s h =
    ground (arith, expire_all-Quiet (expire_one now m r).0 now es s h)

expire_rooms-Quiet : (m : SessionManager) (now s : ℕ) → Quiet m (expire_rooms m now).0 s
unfolding expire_rooms
expire_rooms-Quiet m now s = expire_all-Quiet m now m.by_code s

open_room-Quiet :
    (m : SessionManager) (socket : ℕ) (code : String) (identity : PeerIdentity) (now s : ℕ)
    → Quiet m (open_room m socket code identity now).1 s
unfolding open_room
open_room-Quiet m socket code identity now s h = ground arith

join_room-Quiet :
    (m : SessionManager) (socket : ℕ) (code : String) (identity : PeerIdentity) (s : ℕ)
    → Quiet m (join_room m socket code identity).1 s
unfolding join_room
join_room-Quiet m socket code identity s h = ground arith

approve-Approved :
    (m : SessionManager) (socket : ℕ) (uuid : String) (s : ℕ)
    → is_active_at (m.heap s) ≡ false
    → is_active_at ((approve m socket uuid).1.heap s) ≡ true
    → Approved m (approves socket uuid) s
unfolding approve
approve-Approved m socket uuid s before after =
    elim (follow-cases m.heap (get socket m.by_socket)) [
      | inl e ↦ absurd (ground arith)
      | inr (r, room, x, y, e) ↦ (room, uuid, ground arith, ground arith, ground arith)
    ]

abbrev pub nobody : PeerIdentity
nobody = record { user_id = ""; device_id = ""; device_name = ""; public_key = "" }

Quiet-calls :
    (m : SessionManager) (socket s : ℕ) (id : String) (identity : PeerIdentity)
    → Quiet m (reject m socket).1 s
      × Quiet m (reconnect m socket id identity).1 s
      × Quiet m (release_socket m socket).1 s
unfolding reject reconnect release_socket
Quiet-calls m socket s id identity = (λ h. ground arith, λ h. ground arith, λ h. ground arith)

-- No session without consent: a call after which a room is active that was not active before (or
-- was not there) is an approval that comes from the socket of that room's host, and the room was
-- pending.
pub step-Approved :
    (m : SessionManager) (c : Call) (s : ℕ)
    → is_active_at (m.heap s) ≡ false
    → is_active_at ((step m c).heap s) ≡ true
    → Approved m c s
unfolding step register_host register_guest
step-Approved m (registers_host socket code identity now) s before after = absurd (
    ground (
      arith,
      expire_rooms-Quiet m now s,
      open_room-Quiet (expire_rooms m now).0 socket code identity now s after,
    ))
step-Approved m (registers_guest socket code identity now) s before after = absurd (
    ground (
      arith,
      expire_rooms-Quiet m now s,
      join_room-Quiet (expire_rooms m now).0 socket code identity s after,
    ))
step-Approved m (approves socket uuid) s before after =
    approve-Approved m socket uuid s before after
step-Approved m (rejects socket) s before after =
    absurd (ground (arith, (Quiet-calls m socket s "" nobody).0 after))
step-Approved m (reconnects socket id identity) s before after =
    absurd (ground (arith, (Quiet-calls m socket s id identity).1 after))
step-Approved m (releases socket) s before after =
    absurd (ground (arith, (Quiet-calls m socket s "" nobody).2 after))
step-Approved m (expires now) s before after =
    absurd (ground (arith, expire_rooms-Quiet m now s after))
