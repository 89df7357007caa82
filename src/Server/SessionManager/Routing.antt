-- ===== src/Server/SessionManager/Routing.antt =====
-- apps/server/src/session-manager.ts: whom the messages of a socket reach.
use tbridge.Base.{
  ℕ, ◌≡◌, ◌∙◌, ap, ◌⊎◌, inl, inr, String, none, some, get, ◌==◌, nat_eq, string_eq, arith,
  Bool-cases, Option-cases,
}
use tbridge.Protocol.{PeerIdentity}
use tbridge.Server.SessionManager.{
  active, RelayRoom, SessionManager, ok, socket_of, follow, other_socket, reconnect, get_peer,
}
use tbridge.Server.SessionManager.Invariant.{
  IsValid, MemberOk, ShapeOk, follow-cases, get-move_socket,
}
use tbridge.Server.SessionManager.Preservation.{reconnect-IsValid}

-- `s` and `p` are the two ends of the room.
abbrev pub Ends : RelayRoom → ℕ → ℕ → Type 0
Ends room s p =
    ((room.host.socket ≡ s) × (socket_of room.guest ≡ some p))
    ⊎ ((socket_of room.guest ≡ some s) × (room.host.socket ≡ p))

other_socket-Ends :
    (s : ℕ) (room : RelayRoom)
    → ShapeOk (some room)
    → room.state ≡ active
    → MemberOk s (some room)
    → (p : ℕ) × (other_socket room s ≡ some p) × Ends room s p
other_socket-Ends s room shape st member = elim (Option-cases room.guest) [
  | inl e ↦ absurd (ground arith)
  | inr (g, e) ↦ elim (Bool-cases (s == room.host.socket)) [
    | inl x ↦ (g.socket, ground arith, ground arith)
    | inr x ↦ (room.host.socket, ground arith, ground arith)
  ]
]

Ends-symm : (room : RelayRoom) (s p q : ℕ) → Ends room s p → Ends room p q → q ≡ s
Ends-symm room s p q h k = ground arith

-- What the answer of `getPeer` says of the socket's room.
abbrev Answer : SessionManager → ℕ → ℕ → ℕ → ℕ → RelayRoom → Type 0
Answer m s r p r' room = (r' ≡ r) × (room.state ≡ active) × (other_socket room s ≡ some p)

get_peer-ok :
    (m : SessionManager) (s r p r' : ℕ) (room : RelayRoom)
    → follow m.heap (get s m.by_socket) ≡ some (r', room)
    → get_peer m s ≡ ok (r, p)
    → Answer m s r p r' room
unfolding get_peer
get_peer-ok m s r p r' room e h = ground arith

get_peer-missing :
    (m : SessionManager) (s r p : ℕ)
    → follow m.heap (get s m.by_socket) ≡ none
    → get_peer m s ≡ ok (r, p)
    → ⊥
unfolding get_peer
get_peer-missing m s r p e h = ground arith

module _ {m : SessionManager} (v : IsValid m) where
  -- In a valid manager a registered socket whose room is active has a peer, the other end of that
  -- room: `getPeer` answers with it, and never with "peer is not connected".
  pub get_peer_total :
      (s r : ℕ) (room : RelayRoom)
      → get s m.by_socket ≡ some r
      → m.heap r ≡ some room
      → room.state ≡ active
      → (p : ℕ) × (get_peer m s ≡ ok (r, p)) × Ends room s p
  unfolding get_peer
  get_peer_total s r room x y st =
      let (p, e, ends) =
        other_socket-Ends s room (rw y at (v.shapes r)) st (rw y at (v.members s r x)) in
      (p, ground arith, ends)

  -- In a valid manager, what a socket sends reaches only the other end of the one active room in
  -- which it is registered.
  pub get_peer-Ends :
      (s r p : ℕ)
      → get_peer m s ≡ ok (r, p)
      → (room : RelayRoom) × (get s m.by_socket ≡ some r)
        × (m.heap r ≡ some room)
        × (room.state ≡ active)
        × Ends room s p
  get_peer-Ends s r p h = elim (follow-cases m.heap (get s m.by_socket)) [
    | inl e ↦ absurd (get_peer-missing m s r p e h)
    | inr (r', room, x, y, e) ↦
        let (same, st, to) = get_peer-ok m s r p r' room e h in
        let (p', w, ends) =
          other_socket-Ends s room (rw y at (v.shapes r')) st (rw y at (v.members s r' x)) in
        (room, x ∙ ap some same, rw (← same) y, st, ground arith)
  ]

  -- Routing in a valid manager is symmetric: if what `s` sends reaches `p`, and `p` is registered
  -- in that room, then what `p` sends reaches `s`.
  pub get_peer_symm :
      (s r p : ℕ) → get_peer m s ≡ ok (r, p) → get p m.by_socket ≡ some r → get_peer m p ≡ ok (r, s)
  get_peer_symm s r p h k =
      let (room, x, y, st, ends) = get_peer-Ends s r p h in
      let (q, e, back) = get_peer_total p r room k y st in rw (Ends-symm room s p q ends back) at e

-- The room after a `reconnect` that succeeds.
reconnected :
    (m : SessionManager) (k : ℕ) (id : String) (identity : PeerIdentity) (r : ℕ)
    → (reconnect m k id identity).0 ≡ ok r
    → (room : RelayRoom) × (get k (reconnect m k id identity).1.by_socket ≡ some r)
      × ((reconnect m k id identity).1.heap r ≡ some room)
      × (room.state ≡ active)
unfolding reconnect
reconnected m k id identity r h = elim (follow-cases m.heap (get id m.by_session)) [
  | inl e ↦ absurd (ground arith)
  | inr (r', room, x, y, e) ↦
      elim (Bool-cases (room.host.identity.device_id == identity.device_id)) [
        | inl w ↦ (
          record room { host = record { socket = k; identity = identity } },
          ground (arith, get-move_socket (some room.host.socket) k r' k m.by_socket),
          ground arith,
          ground arith,
        )
        | inr w ↦ (
          record room { guest = some (record { socket = k; identity = identity }) },
          ground (arith, get-move_socket (socket_of room.guest) k r' k m.by_socket),
          ground arith,
          ground arith,
        )
      ]
]

-- In a valid manager a `reconnect` that succeeds puts the new socket in touch with a peer: what it
-- sends next reaches the other end of the session's room.
pub reconnect_resumes :
    {m : SessionManager}
    → IsValid m
    → (k : ℕ) (id : String) (identity : PeerIdentity) (r : ℕ) → (reconnect m k id identity).0 ≡ ok r
    → (p : ℕ) × (get_peer (reconnect m k id identity).1 k ≡ ok (r, p))
reconnect_resumes {m} v k id identity r h =
    let (room, x, y, st) = reconnected m k id identity r h in
    let (p, e, ends) = get_peer_total (reconnect-IsValid v k id identity) k r room x y st in (p, e)
