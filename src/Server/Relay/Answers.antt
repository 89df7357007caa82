-- ===== src/Server/Relay/Answers.antt =====
-- apps/server/src/main.ts: whom the handlers of the client's messages talk to.
use tbridge.Base.{
  ℕ, ◌≡◌, refl, sym, inl, inr, String, Option, some, get, set, nat_eq, string_eq, arith, Bool-cases,
  Option-cases,
}
use tbridge.Protocol.{PeerIdentity}
use tbridge.Protocol.Legacy.{ServerMessage}
use tbridge.Server.RateLimiter.{check}
use tbridge.Server.SessionManager.{
  RelayRoom, SessionManager, ok, socket_of, register_host, register_guest, approve, reject,
  reconnect, expire_rooms, join_room,
}
use tbridge.Server.Relay.{
  Relay, send_to, close_at, with_sessions, at_room, host_registered, guest_registered,
  limit_registration, relay_register_host, relay_register_guest, announce, approved, approve_access,
  reason_or, rejected, reject_access, cancel_grace, reconnected, handle_reconnect,
}
use mathlib.Core.Path.{subst}
use tbridge.Server.SessionManager.Invariant.{MemberOk, follow-cases}
use tbridge.Server.Relay.Calls.{sessions-send}
use tbridge.Server.SessionManager.Routing.{Ends}
use tbridge.Server.Relay.Growth.{
  Grows, Grows-send, Grows-refl, Grows-turn_away, Grows-announce, Concerned, Result-cases,
  host-sits, guest-sits, seated, approve-host, reject-host, Grows-at_room, Grows-send_to,
  Grows-close_at, out-cancel_grace,
}

pub approve_access-Grows :
    (s : Relay) (k : ℕ) (uuid : String) (now : ℕ)
    → Grows (Concerned (approve s.sessions k uuid).1 k) s (approve_access s k uuid now)
unfolding approve_access approved
approve_access-Grows s k uuid now = elim (Result-cases (approve s.sessions k uuid).0) [
  | inl (f, e) ↦
      rw (e, approved)
        (Grows-send (Grows-refl s (with_sessions s (approve s.sessions k uuid).1) refl) k _
          (inl refl))
  | inr ((r, id), e) ↦
      let m = (approve s.sessions k uuid).1 in
      let t : Relay = record s {
        sessions = (approve s.sessions k uuid).1;
        start_times = set id now s.start_times;
      } in
      rw (e, approved)
        (Grows-at_room t r (λ room. announce t room id) (Grows-refl s t refl)
          λ room y.
            let mine = approve-host s.sessions k r uuid id room e y in
            Grows-announce (Grows-refl s t refl) room id (inl mine)
              λ p x. seated m k p.socket r room y (host-sits k room mine) (guest-sits room p x))
]

pub reject_access-Grows :
    (s : Relay) (k : ℕ) (reason : Option String)
    → Grows (Concerned (reject s.sessions k).1 k) s (reject_access s k reason)
unfolding reject_access rejected
reject_access-Grows s k reason = elim (Result-cases (reject s.sessions k).0) [
  | inl (f, e) ↦
      rw (e, rejected)
        (Grows-send (Grows-refl s (with_sessions s (reject s.sessions k).1) refl) k _ (inl refl))
  | inr ((r, id), e) ↦
      let m = (reject s.sessions k).1 in
      let t : Relay = with_sessions s (reject s.sessions k).1 in
      rw (e, rejected)
        (Grows-at_room t r
          (λ room.
            close_at
              (send_to t (socket_of room.guest) (ServerMessage.access_rejected (reason_or reason)))
              (socket_of room.guest))
          (Grows-refl s t refl)
          λ room y.
            let there = λ (j : ℕ) (x : socket_of room.guest ≡ some j).
              seated m k j r room y (host-sits k room (reject-host s.sessions k r id room e y))
                (inr x) in
            Grows-close_at (Grows-send_to (Grows-refl s t refl) (socket_of room.guest) _ there)
              (socket_of room.guest) there)
]

pub handle_reconnect-Grows :
    (s : Relay) (k : ℕ) (id : String) (identity : PeerIdentity)
    → Grows
        (Concerned (reconnect s.sessions k id identity).1 k)
        s
        (handle_reconnect s k id identity)
unfolding handle_reconnect
handle_reconnect-Grows s k id identity =
    elim (Result-cases (reconnect s.sessions k id identity).0) [
      | inl (f, e) ↦
          rw (e, reconnected)
            (Grows-turn_away
              (Grows-refl s (with_sessions s (reconnect s.sessions k id identity).1) refl) k _
              (inl refl))
      | inr (r, e) ↦
          let t : Relay = with_sessions s (reconnect s.sessions k id identity).1 in
          rw (e, reconnected)
            (Grows-at_room t r _ (Grows-refl s t refl) λ room y.
              Grows-send (Grows-refl s (cancel_grace t id) (out-cancel_grace t id)) k _ (inl refl))
    ]

pub relay_register_host-Grows :
    (P : ℕ → Type 0) (s : Relay) (k : ℕ) (code : String) (identity : PeerIdentity) (ip : String)
    (now : ℕ)
    → P k
    → Grows P s (relay_register_host s k code identity ip now)
unfolding relay_register_host
relay_register_host-Grows P s k code identity ip now h =
    let l = (check s.registration_limiter ip now).1 in
    let s' : Relay = record s { registration_limiter = l } in
    let m = register_host s.sessions k code identity now in
    let t : Relay = with_sessions s' (register_host s.sessions k code identity now).1 in
    elim (Bool-cases (check s.registration_limiter ip now).0.allowed) [
      | inr x ↦ rw (x, limit_registration) (Grows-turn_away (Grows-refl s s' refl) k _ h)
      | inl x ↦ elim (Result-cases (register_host s.sessions k code identity now).0) [
        | inl (f, e) ↦
            rw (x, limit_registration, e, host_registered)
              (Grows-turn_away (Grows-refl s t refl) k _ h)
        | inr (r, e) ↦
            rw (x, limit_registration, e, host_registered)
              (Grows-at_room t r _ (Grows-refl s t refl)
                λ room y. Grows-send (Grows-refl s t refl) k _ h)
      ]
    ]

pub join_room-guest :
    (m : SessionManager) (k r : ℕ) (code : String) (identity : PeerIdentity) (room : RelayRoom)
    → (join_room m k code identity).0 ≡ ok r
    → (join_room m k code identity).1.heap r ≡ some room
    → socket_of room.guest ≡ some k
unfolding join_room
join_room-guest m k r code identity room h y = elim (follow-cases m.heap (get code m.by_code)) [
  | inl e ↦ ground arith
  | inr (r', other, x, y', e) ↦ ground arith
]

pub register_guest-guest :
    (m : SessionManager) (k r : ℕ) (code : String) (identity : PeerIdentity) (now : ℕ)
    (room : RelayRoom)
    → (register_guest m k code identity now).0 ≡ ok r
    → (register_guest m k code identity now).1.heap r ≡ some room
    → socket_of room.guest ≡ some k
unfolding register_guest
register_guest-guest m k r code identity now room h y =
    join_room-guest (expire_rooms m now).0 k r code identity room h y

pub settled :
    {s t : Relay} {m : SessionManager} (k : ℕ)
    → t.sessions ≡ m
    → Grows (Concerned m k) s t
    → Grows (Concerned t.sessions k) s t
settled {s} {t} k e g = subst (λ n. Grows (Concerned n k) s t) (sym e) g

pub relay_register_guest-Grows :
    (s : Relay) (k : ℕ) (code : String) (identity : PeerIdentity) (ip : String) (now : ℕ)
    → Grows
        (Concerned (relay_register_guest s k code identity ip now).sessions k)
        s
        (relay_register_guest s k code identity ip now)
unfolding relay_register_guest
relay_register_guest-Grows s k code identity ip now =
    let s' : Relay = record s { registration_limiter = (check s.registration_limiter ip now).1 } in
    let m = (register_guest s.sessions k code identity now).1 in
    let t : Relay = with_sessions s' (register_guest s.sessions k code identity now).1 in
    elim (Bool-cases (check s.registration_limiter ip now).0.allowed) [
      | inr x ↦ rw (x, limit_registration) (Grows-turn_away (Grows-refl s s' refl) k _ (inl refl))
      | inl x ↦ elim (Result-cases (register_guest s.sessions k code identity now).0) [
        | inl (f, e) ↦
            rw (x, limit_registration, e, guest_registered)
              (Grows-turn_away (Grows-refl s t refl) k _ (inl refl))
        | inr (r, e) ↦ elim (Option-cases (m.heap r)) [
          | inl y ↦
              rw (x, limit_registration, e, guest_registered, y, at_room) (Grows-refl s t refl)
          | inr (room, y) ↦
              rw (x, limit_registration, e, guest_registered, y, at_room)
                (settled k
                  (sessions-send t room.host.socket (ServerMessage.access_request code identity))
                  (Grows-send (Grows-refl s t refl) room.host.socket _ (
                    seated m k room.host.socket r room y
                      (inr (register_guest-guest s.sessions k r code identity now room e y))
                      (inl refl))))
        ]
      ]
    ]

pub Ends-members :
    (room : RelayRoom) (k p : ℕ) → Ends room k p → MemberOk k (some room) × MemberOk p (some room)
Ends-members room k p (inl (h, g)) = (inl h, inr g)
Ends-members room k p (inr (g, h)) = (inr g, inl h)
