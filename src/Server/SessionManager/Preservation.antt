-- ===== src/Server/SessionManager/Preservation.antt =====
-- apps/server/src/session-manager.ts: every call keeps the invariant.
use tbridge.Base.{
  ℕ, ◌≡◌, refl, inl, inr, String, ◌||◌, not, none, some, List, [], ◌∷◌, get, delete, has, is_some,
  ◌==◌, nat_eq, string_eq, get-set, get-delete, arith, Bool-cases, Option-cases,
}
use tbridge.Protocol.{PeerIdentity}
use tbridge.Server.SessionManager.{
  ended, RelayRoom, SessionManager, is_waiting, is_pending, is_active, socket_of, sits_at,
  has_device, is_expired, new_session_manager, expire_one, expire_all, expire_rooms, open_room,
  register_host, join_room, register_guest, approve, reject, reconnect, release_from,
  release_socket, Call, registers_host, registers_guest, approves, rejects, reconnects, releases,
  expires, step, run,
}
use tbridge.Server.SessionManager.Invariant.{
  IsValid, new_session_manager-IsValid, get-delete_sub, get-drop_session_sub, get-drop_guest_sub,
  close-IsValid, move-IsValid, follow-cases, get-move_socket,
}

module _ {m : SessionManager} (v : IsValid m) where
  expire_one-IsValid : (now r : ℕ) → IsValid (expire_one now m r).0
  unfolding expire_one
  expire_one-IsValid now r = elim (Option-cases (m.heap r)) [
    | inl e ↦ rw (e, expire_one) v
    | inr (room, e) ↦ elim (Bool-cases (is_expired now room)) [
      | inl x ↦
          rw (e, x, expire_one)
            (close-IsValid v r room e (record room { state = ended }) _ _ refl refl
              (λ k s h.
                get-delete_sub room.host.socket k m.by_socket s
                  (get-drop_guest_sub room.guest k _ s h))
              (λ k h o. o) (λ i s h. get-drop_session_sub room.session_id i m.by_session s h))
      | inr x ↦ rw (e, x, expire_one) v
    ]
  ]

  open_room-IsValid :
      (socket : ℕ) (code : String) (identity : PeerIdentity) (now : ℕ)
      → IsValid (open_room m socket code identity now).1
  unfolding open_room
  open_room-IsValid socket code identity now = elim (Bool-cases (code == "")) [
    | inl x ↦ rw (x, open_room) v
    | inr x ↦ elim (Bool-cases (has code m.by_code)) [
      | inl y ↦ rw (x, y, open_room) v
      | inr y ↦
          rw (x, y, open_room)
            (record {
              codes = λ c s h. ground (
                arith,
                v.codes c s,
                get-set code c m.next m.by_code,
                string_eq.same_iff code c,
                v.fresh m.next,
              );
              sessions = λ i s h. ground (arith, v.sessions i s, v.fresh m.next);
              members = λ k s h.
                  ground
                    (arith, v.members k s, get-set socket k m.next m.by_socket, v.fresh m.next);
              shapes = λ s. ground (arith, v.shapes s);
              fresh = λ s h. ground (arith, v.fresh s);
            })
    ]
  ]

  join_room-IsValid :
      (socket : ℕ) (code : String) (identity : PeerIdentity)
      → IsValid (join_room m socket code identity).1
  unfolding join_room
  join_room-IsValid socket code identity = elim (follow-cases m.heap (get code m.by_code)) [
    | inl x ↦ rw (x, join_room) v
    | inr (r, room, x, y, e) ↦ elim (Bool-cases (is_waiting room.state)) [
      | inl z ↦
          rw (e, z, join_room)
            (record {
              codes = λ c s h. ground (arith, v.codes c s, v.codes c r);
              sessions = λ i s h. ground (arith, v.sessions i s, v.codes code r x);
              members = λ k s h.
                  ground (arith, v.members k s, get-set socket k r m.by_socket, v.shapes r);
              shapes = λ s. ground (arith, v.shapes s, v.shapes r);
              fresh = λ s h. ground (arith, v.fresh s);
            })
      | inr z ↦ rw (e, z, join_room) v
    ]
  ]

  approve-IsValid : (socket : ℕ) (uuid : String) → IsValid (approve m socket uuid).1
  unfolding approve
  approve-IsValid socket uuid = elim (follow-cases m.heap (get socket m.by_socket)) [
    | inl x ↦ rw (x, approve) v
    | inr (r, room, x, y, e) ↦
        elim (Bool-cases (not (room.host.socket == socket) || not (is_some room.guest))) [
          | inl z ↦ rw (e, z, approve) v
          | inr z ↦ elim (Bool-cases (is_pending room.state)) [
            | inl w ↦
                rw (e, z, w, approve)
                  (record {
                    codes = λ c s h. ground (
                      arith,
                      v.codes c s,
                      get-delete room.code c m.by_code,
                      string_eq.same_iff room.code c,
                    );
                    sessions = λ i s h. ground (
                      arith,
                      v.sessions i s,
                      v.shapes r,
                      get-set uuid i r m.by_session,
                      string_eq.same_iff uuid i,
                    );
                    members = λ k s h. ground (arith, v.members k s);
                    shapes = λ s. ground (arith, v.shapes s, v.shapes r);
                    fresh = λ s h. ground (arith, v.fresh s);
                  })
            | inr w ↦ rw (e, z, w, approve) v
          ]
        ]
  ]

  reject-IsValid : (socket : ℕ) → IsValid (reject m socket).1
  unfolding reject
  reject-IsValid socket = elim (follow-cases m.heap (get socket m.by_socket)) [
    | inl x ↦ rw (x, reject) v
    | inr (r, room, x, y, e) ↦
        elim (Bool-cases (not (room.host.socket == socket) || not (is_some room.guest))) [
          | inl z ↦ rw (e, z, reject) v
          | inr z ↦
              rw (e, z, reject)
                (close-IsValid v r room y (record room { state = ended }) m.by_socket m.by_session
                  refl refl (λ k s h. h) (λ k h o. o) (λ i s h. h))
        ]
  ]

  pub reconnect-IsValid :
      (socket : ℕ) (id : String) (identity : PeerIdentity)
      → IsValid (reconnect m socket id identity).1
  unfolding reconnect
  reconnect-IsValid socket id identity = elim (follow-cases m.heap (get id m.by_session)) [
    | inl x ↦ rw (x, reconnect) v
    | inr (r, room, x, y, e) ↦ elim (Bool-cases (is_active room.state)) [
      | inr z ↦ rw (e, z, reconnect) v
      | inl z ↦ elim (Bool-cases (room.host.identity.device_id == identity.device_id)) [
        | inl w ↦
            rw (e, z, w, reconnect)
              (move-IsValid v r room y
                (record room { host = record { socket = socket; identity = identity } }) _
                (ground arith) (ground arith) refl refl refl
                (λ k s h ne. ground (
                  arith,
                  get-set socket k r (delete room.host.socket m.by_socket),
                  get-delete room.host.socket k m.by_socket,
                ))
                (λ k h. ground (
                  arith,
                  v.members k r,
                  get-set socket k r (delete room.host.socket m.by_socket),
                  get-delete room.host.socket k m.by_socket,
                )))
        | inr w ↦ elim (Bool-cases (has_device room.guest identity.device_id)) [
          | inl u ↦
              rw (e, z, w, u, reconnect)
                (move-IsValid v r room y
                  (record room { guest = some (record { socket = socket; identity = identity }) }) _
                  (ground arith) (ground arith) refl refl (ground arith)
                  (λ k s h ne.
                    ground (arith, get-move_socket (socket_of room.guest) socket r k m.by_socket))
                  (λ k h. ground (
                    arith,
                    v.members k r,
                    get-move_socket (socket_of room.guest) socket r k m.by_socket,
                  )))
          | inr u ↦ rw (e, z, w, u, reconnect) v
        ]
      ]
    ]
  ]

  release_from-IsValid :
      (socket r : ℕ) (room : RelayRoom)
      → m.heap r ≡ some room
      → IsValid (release_from m socket r room)
  unfolding release_from
  release_from-IsValid socket r room y = elim (Bool-cases (socket == room.host.socket)) [
    | inl z ↦ rw z (
        close-IsValid v r room y (record room { state = ended }) _ _ refl refl
          (λ k s h. get-delete_sub socket k m.by_socket s (get-drop_guest_sub room.guest k _ s h))
          (λ k h o. o) (λ i s h. get-drop_session_sub room.session_id i m.by_session s h))
    | inr z ↦ elim (Bool-cases (sits_at room.guest socket)) [
      | inr w ↦
          rw (z, w)
            (record {
              codes = v.codes;
              sessions = v.sessions;
              shapes = v.shapes;
              fresh = v.fresh;
              members = λ k s h. v.members k s (get-delete_sub socket k m.by_socket s h);
            })
      | inl w ↦ elim (Bool-cases (is_pending room.state || is_active room.state)) [
        | inl u ↦
            rw (z, w, u)
              (close-IsValid v r room y (record room { guest = none; state = ended }) _ _ refl refl
                (λ k s h. get-delete_sub socket k m.by_socket s h)
                (λ k h o. ground (arith, get-delete socket k m.by_socket))
                (λ i s h. get-drop_session_sub room.session_id i m.by_session s h))
        | inr u ↦
            rw (z, w, u)
              (record {
                codes = λ c s h. ground (arith, v.codes c s, v.shapes r);
                sessions = λ i s h. ground (arith, v.sessions i s);
                members = λ k s h. ground (arith, v.members k s, get-delete socket k m.by_socket);
                shapes = λ s. ground (arith, v.shapes s, v.shapes r);
                fresh = λ s h. ground (arith, v.fresh s);
              })
      ]
    ]
  ]

  release_socket-IsValid : (socket : ℕ) → IsValid (release_socket m socket).1
  unfolding release_socket
  release_socket-IsValid socket = elim (follow-cases m.heap (get socket m.by_socket)) [
    | inl x ↦ rw (x, release_socket) v
    | inr (r, room, x, y, e) ↦ rw (e, release_socket) (release_from-IsValid socket r room y)
  ]

expire_all-IsValid :
    (m : SessionManager) (now : ℕ) (es : List (String × ℕ))
    → IsValid m
    → IsValid (expire_all now m es).0
unfolding expire_all
expire_all-IsValid m now [] v = v
expire_all-IsValid m now ((c, r) ∷ es) v =
    expire_all-IsValid (expire_one now m r).0 now es (expire_one-IsValid v now r)

pub expire_rooms-IsValid :
    {m : SessionManager} (now : ℕ) → IsValid m → IsValid (expire_rooms m now).0
unfolding expire_rooms
expire_rooms-IsValid {m} now v = expire_all-IsValid m now m.by_code v

-- Every call keeps the manager valid.
pub step-IsValid : {m : SessionManager} (c : Call) → IsValid m → IsValid (step m c)
unfolding step register_host register_guest
step-IsValid (registers_host socket code identity now) v =
    open_room-IsValid (expire_rooms-IsValid now v) socket code identity now
step-IsValid (registers_guest socket code identity now) v =
    join_room-IsValid (expire_rooms-IsValid now v) socket code identity
step-IsValid (approves socket uuid) v = approve-IsValid v socket uuid
step-IsValid (rejects socket) v = reject-IsValid v socket
step-IsValid (reconnects socket id identity) v = reconnect-IsValid v socket id identity
step-IsValid (releases socket) v = release_socket-IsValid v socket
step-IsValid (expires now) v = expire_rooms-IsValid now v

run-IsValid : (m : SessionManager) (cs : List Call) → IsValid m → IsValid (run m cs)
unfolding run
run-IsValid m [] v = v
run-IsValid m (c ∷ cs) v = run-IsValid (step m c) cs (step-IsValid c v)

-- After any history of calls, whatever sockets, codes, identities, times and ids they bring: a code
-- leads to a room of that code which is waiting or pending; a session id to the room approved under
-- it; a socket to a room in which it is the host or the guest; a waiting room has no guest, a
-- pending one has a guest and no session, an active one has both.
pub run_new-IsValid : (ttl : ℕ) (cs : List Call) → IsValid (run (new_session_manager ttl) cs)
run_new-IsValid ttl cs = run-IsValid _ cs (new_session_manager-IsValid ttl)
