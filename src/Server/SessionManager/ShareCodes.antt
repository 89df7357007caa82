-- ===== src/Server/SessionManager/ShareCodes.antt =====
-- apps/server/src/session-manager.ts: a share code admits one guest, once.
use tbridge.Base.{
  ℕ, ◌≡◌, inl, inr, String, false, none, some, List, [], ◌∷◌, leb, if◌then◌else◌, nat_eq, string_eq,
  get-delete, Unique, set-Unique, delete-Unique, get, arith, Option-cases,
}
use tbridge.Protocol.{PeerIdentity}
use tbridge.Server.SessionManager.{
  RelayRoom, SessionManager, ok, err, code_unknown, is_waiting, new_session_manager, expire_one,
  expire_all, expire_rooms, open_room, register_host, join_room, register_guest, approve, reject,
  reconnect, release_socket, Call, registers_host, registers_guest, approves, rejects, reconnects,
  releases, expires, step, run,
}
use tbridge.Server.SessionManager.Invariant.{follow-cases}
use tbridge.Server.SessionManager.Preservation.{run_new-IsValid}
use tbridge.Server.SessionManager.Expiry.{expire_rooms-free, expire_rooms_exact}
use tbridge.Server.SessionManager.Lifecycle.{nobody}

-- No two entries of the map of codes have one code.
expire_all-Unique :
    (m : SessionManager) (now : ℕ) (es : List (String × ℕ))
    → Unique m.by_code
    → Unique (expire_all now m es).0.by_code
unfolding expire_all
expire_all-Unique m now [] u = u
expire_all-Unique m now ((k, r) ∷ es) u =
    expire_all-Unique (expire_one now m r).0 now es (one m r u)
  where
    one : (m : SessionManager) (r : ℕ) → Unique m.by_code → Unique (expire_one now m r).0.by_code
    one m r u =
        unfold expire_one in
        elim (Option-cases (m.heap r)) [
          | inl e ↦ ground arith
          | inr (room, e) ↦ ground (arith, delete-Unique room.code m.by_code u)
        ]

expire_rooms-Unique :
    (m : SessionManager) (now : ℕ) → Unique m.by_code → Unique (expire_rooms m now).0.by_code
unfolding expire_rooms
expire_rooms-Unique m now u = expire_all-Unique m now m.by_code u

open_room-Unique :
    (m : SessionManager) (socket : ℕ) (code : String) (identity : PeerIdentity) (now : ℕ)
    → Unique m.by_code
    → Unique (open_room m socket code identity now).1.by_code
unfolding open_room
open_room-Unique m socket code identity now u = ground (arith, set-Unique code m.next m.by_code u)

join_room-Unique :
    (m : SessionManager) (socket : ℕ) (code : String) (identity : PeerIdentity)
    → Unique m.by_code
    → Unique (join_room m socket code identity).1.by_code
unfolding join_room
join_room-Unique m socket code identity u = ground arith

room-Unique :
    (m : SessionManager) (socket : ℕ) (uuid id : String) (identity : PeerIdentity)
    → Unique m.by_code
    → Unique (approve m socket uuid).1.by_code
      × Unique (reject m socket).1.by_code
      × Unique (reconnect m socket id identity).1.by_code
      × Unique (release_socket m socket).1.by_code
unfolding approve reject reconnect release_socket
room-Unique m socket uuid id identity u = elim (follow-cases m.heap (get socket m.by_socket)) [
  | inl e ↦ (ground arith, ground arith, ground arith, ground arith)
  | inr (r, room, x, y, e) ↦
      let cut = delete-Unique room.code m.by_code u in
      (ground arith, ground arith, ground arith, ground arith)
]

step-Unique : (m : SessionManager) (c : Call) → Unique m.by_code → Unique (step m c).by_code
unfolding step register_host register_guest
step-Unique m (registers_host socket code identity now) u =
    open_room-Unique _ socket code identity now (expire_rooms-Unique m now u)
step-Unique m (registers_guest socket code identity now) u =
    join_room-Unique _ socket code identity (expire_rooms-Unique m now u)
step-Unique m (approves socket uuid) u = (room-Unique m socket uuid "" nobody u).0
step-Unique m (rejects socket) u = (room-Unique m socket "" "" nobody u).1
step-Unique m (reconnects socket id identity) u = (room-Unique m socket "" id identity u).2
step-Unique m (releases socket) u = (room-Unique m socket "" "" nobody u).3
step-Unique m (expires now) u = expire_rooms-Unique m now u

run-Unique : (m : SessionManager) (cs : List Call) → Unique m.by_code → Unique (run m cs).by_code
unfolding run
run-Unique m [] u = u
run-Unique m (c ∷ cs) u = run-Unique (step m c) cs (step-Unique m c u)

-- After any history of calls, a call of `expireRooms` at `now` frees the codes of the rooms whose
-- time has come, and leaves every other code as it was.
pub run-expire_exact :
    (ttl : ℕ) (cs : List Call) (now r : ℕ) (c : String) (room : RelayRoom)
    → get c (run (new_session_manager ttl) cs).by_code ≡ some r
    → (run (new_session_manager ttl) cs).heap r ≡ some room
    → get c (expire_rooms (run (new_session_manager ttl) cs) now).0.by_code
      ≡ (if leb room.expires_at now then none else some r)
run-expire_exact ttl cs now r c room h y =
    expire_rooms_exact (run (new_session_manager ttl) cs) now r c room (run_new-IsValid ttl cs)
      (run-Unique (new_session_manager ttl) cs (unfold new_session_manager in tt)) h y

join_room-free :
    (m : SessionManager) (g : ℕ) (c : String) (identity : PeerIdentity)
    → get c m.by_code ≡ none
    → (join_room m g c identity).0 ≡ err code_unknown
unfolding join_room
join_room-free m g c identity h = ground arith

approve-frees :
    (m : SessionManager) (s r : ℕ) (uuid id : String) (room : RelayRoom)
    → (approve m s uuid).0 ≡ ok (r, id)
    → m.heap r ≡ some room
    → get room.code (approve m s uuid).1.by_code ≡ none
unfolding approve
approve-frees m s r uuid id room h y = elim (follow-cases m.heap (get s m.by_socket)) [
  | inl e ↦ absurd (ground arith)
  | inr (r', other, x, y', e) ↦
      ground
        (arith, get-delete other.code room.code m.by_code, string_eq.same_iff room.code room.code)
]

-- A share code is good for one session: once the host has approved, a guest who brings the room's
-- code, at whatever time, is told that it is not found.
pub approve_consumes :
    (m : SessionManager) (s r : ℕ) (uuid id : String) (room : RelayRoom)
    → (approve m s uuid).0 ≡ ok (r, id)
    → m.heap r ≡ some room
    → (g : ℕ) (identity : PeerIdentity) (now : ℕ)
    → (register_guest (approve m s uuid).1 g room.code identity now).0 ≡ err code_unknown
unfolding register_guest
approve_consumes m s r uuid id room h y g identity now =
    join_room-free (expire_rooms (approve m s uuid).1 now).0 g room.code identity
      (expire_rooms-free (approve m s uuid).1 now room.code (approve-frees m s r uuid id room h y))

-- The room that a code leads to, if any, is past waiting.
abbrev Taken : SessionManager → String → ℕ → Type 0
Taken m c r =
    ((x : ℕ) → get c m.by_code ≡ some x → x ≡ r)
    × ((room : RelayRoom) → m.heap r ≡ some room → is_waiting room.state ≡ false)
