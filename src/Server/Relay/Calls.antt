-- ===== src/Server/Relay/Calls.antt =====
-- apps/server/src/main.ts over session-manager.ts: the calls that each handler makes.
use tbridge.Base.{
  ℕ, ◌≡◌, refl, ◌∙◌, ◌⊎◌, inl, inr, String, ◌&&◌, Option, some, get, List, [], ◌∷◌, nat_eq,
  string_eq, arith, Bool-cases, Option-cases,
}
use tbridge.Protocol.{PeerIdentity}
use tbridge.Protocol.Legacy.{ClientMessage, ServerMessage}
use tbridge.Server.RateLimiter.{check}
use tbridge.Server.SessionManager.{
  SessionManager, is_active, truthy, get_room, register_host, register_guest, approve, reject,
  reconnect, release_socket, Call, registers_host, registers_guest, approves, rejects, reconnects,
  releases, expires, step,
}
use tbridge.Server.Relay.{
  Timer, Relay, send, close, relay_register_host, relay_register_guest, approve_access,
  reject_access, handle_reconnect, forward_to_peer, handle_message, Decoded, malformed, decoded,
  unsupported, cleanup_room, handle_disconnect, on_decoded, on_message, sweep_one, sweep_rooms,
  Event, receives, closes, fires, sweeps,
}

pub sessions-send : (s : Relay) (k : ℕ) (m : ServerMessage) → (send s k m).sessions ≡ s.sessions
unfolding send
sessions-send s k m = ground arith

pub sessions-close : (s : Relay) (k : ℕ) → (close s k).sessions ≡ s.sessions
unfolding close
sessions-close s k = refl

pub sessions-approve_access :
    (s : Relay) (k : ℕ) (uuid : String) (now : ℕ)
    → (approve_access s k uuid now).sessions ≡ (approve s.sessions k uuid).1
unfolding approve_access send
sessions-approve_access s k uuid now = ground arith

pub sessions-reject_access :
    (s : Relay) (k : ℕ) (reason : Option String)
    → (reject_access s k reason).sessions ≡ (reject s.sessions k).1
unfolding reject_access send close
sessions-reject_access s k reason = ground arith

pub sessions-handle_reconnect :
    (s : Relay) (k : ℕ) (id : String) (identity : PeerIdentity)
    → (handle_reconnect s k id identity).sessions ≡ (reconnect s.sessions k id identity).1
unfolding handle_reconnect send close
sessions-handle_reconnect s k id identity = ground arith

pub sessions-forward_to_peer :
    (s : Relay) (k : ℕ) (m : ServerMessage) → (forward_to_peer s k m).sessions ≡ s.sessions
unfolding forward_to_peer send
sessions-forward_to_peer s k m = ground arith

-- The event leads the relay, with these timers, to make this call of the session manager.
pub data Asks : List (ℕ × Timer) → Event → Call → Type 0 where
  host :
      {l : List (ℕ × Timer)} {k now : ℕ} {code uuid : String} {identity : PeerIdentity}
      → Asks l
          (receives k (decoded (ClientMessage.register_host code identity)) uuid now)
          (registers_host k code identity now)
  guest :
      {l : List (ℕ × Timer)} {k now : ℕ} {code uuid : String} {identity : PeerIdentity}
      → Asks l
          (receives k (decoded (ClientMessage.register_guest code identity)) uuid now)
          (registers_guest k code identity now)
  consent :
      {l : List (ℕ × Timer)} {k now : ℕ} {uuid : String}
      → Asks l (receives k (decoded ClientMessage.access_approved) uuid now) (approves k uuid)
  refusal :
      {l : List (ℕ × Timer)} {k now : ℕ} {uuid : String} {reason : Option String}
      → Asks l (receives k (decoded (ClientMessage.access_rejected reason)) uuid now) (rejects k)
  resumption :
      {l : List (ℕ × Timer)} {k now : ℕ} {id uuid : String} {identity : PeerIdentity}
      → Asks l
          (receives k (decoded (ClientMessage.reconnect id identity)) uuid now)
          (reconnects k id identity)
  hang_up : {l : List (ℕ × Timer)} {k : ℕ} → Asks l (closes k) (releases k)
  timeout :
      {l : List (ℕ × Timer)} {i : ℕ} {t : Timer}
      → get i l ≡ some t
      → Asks l (fires i) (releases t.socket)
  sweep : {l : List (ℕ × Timer)} {now : ℕ} → Asks l (sweeps now) (expires now)

-- At most one call, and one that the event asks for.
abbrev pub Calls : List (ℕ × Timer) → Event → SessionManager → SessionManager → Type 0
Calls l e m n = (n ≡ m) ⊎ ((c : Call) × Asks l e c × (n ≡ step m c))

pub relay_register_host-Calls :
    (s : Relay) (k : ℕ) (code : String) (identity : PeerIdentity) (ip : String) (now : ℕ)
    → ((relay_register_host s k code identity ip now).sessions ≡ s.sessions)
      ⊎ ((relay_register_host s k code identity ip now).sessions
          ≡ (register_host s.sessions k code identity now).1)
unfolding relay_register_host send close
relay_register_host-Calls s k code identity ip now =
    elim (Bool-cases (check s.registration_limiter ip now).0.allowed) [
      | inl x ↦ inr (ground arith)
      | inr x ↦ inl (ground arith)
    ]

pub relay_register_guest-Calls :
    (s : Relay) (k : ℕ) (code : String) (identity : PeerIdentity) (ip : String) (now : ℕ)
    → ((relay_register_guest s k code identity ip now).sessions ≡ s.sessions)
      ⊎ ((relay_register_guest s k code identity ip now).sessions
          ≡ (register_guest s.sessions k code identity now).1)
unfolding relay_register_guest send close
relay_register_guest-Calls s k code identity ip now =
    elim (Bool-cases (check s.registration_limiter ip now).0.allowed) [
      | inl x ↦ inr (ground arith)
      | inr x ↦ inl (ground arith)
    ]

pub sessions-cleanup_room :
    (s : Relay) (k : ℕ) (id : Option String)
    → ((cleanup_room s k id).sessions ≡ s.sessions)
      ⊎ ((cleanup_room s k id).sessions ≡ (release_socket s.sessions k).1)
unfolding cleanup_room send close
sessions-cleanup_room s k id = elim (Option-cases (get_room s.sessions k)) [
  | inl x ↦ inl (ground arith)
  | inr (p, x) ↦ inr (ground arith)
]

pub sessions-sweep_one : (s : Relay) (r : ℕ) → (sweep_one s r).sessions ≡ s.sessions
unfolding sweep_one send close
sessions-sweep_one s r = ground arith

pub sessions-sweep_rooms : (s : Relay) (rs : List ℕ) → (sweep_rooms s rs).sessions ≡ s.sessions
unfolding sweep_rooms
sessions-sweep_rooms s [] = refl
sessions-sweep_rooms s (r ∷ rs) = sessions-sweep_rooms (sweep_one s r) rs ∙ sessions-sweep_one s r

pub sessions-handle_disconnect :
    (s : Relay) (k : ℕ)
    → ((handle_disconnect s k).sessions ≡ s.sessions)
      ⊎ ((handle_disconnect s k).sessions ≡ (release_socket s.sessions k).1)
unfolding handle_disconnect send
sessions-handle_disconnect s k = elim (Option-cases (get_room s.sessions k)) [
  | inl x ↦ inl (ground arith)
  | inr ((r, room), x) ↦ elim (Bool-cases (is_active room.state && truthy room.session_id)) [
    | inl y ↦ inl (ground arith)
    | inr y ↦ ground (arith, sessions-cleanup_room s k room.session_id)
  ]
]

pub handle_message-Calls :
    (s : Relay) (k : ℕ) (m : ClientMessage) (ip uuid : String) (now : ℕ)
    → Calls s.timers
        (receives k (decoded m) uuid now)
        s.sessions
        (handle_message s k m ip uuid now).sessions
unfolding handle_message step
handle_message-Calls s k (ClientMessage.register_host code identity) ip uuid now =
    elim (relay_register_host-Calls s k code identity ip now) [
      | inl x ↦ inl x
      | inr x ↦ inr (registers_host k code identity now, host, x)
    ]
handle_message-Calls s k (ClientMessage.register_guest code identity) ip uuid now =
    elim (relay_register_guest-Calls s k code identity ip now) [
      | inl x ↦ inl x
      | inr x ↦ inr (registers_guest k code identity now, guest, x)
    ]
handle_message-Calls s k ClientMessage.access_approved ip uuid now =
    inr (approves k uuid, consent, sessions-approve_access s k uuid now)
handle_message-Calls s k (ClientMessage.access_rejected reason) ip uuid now =
    inr (rejects k, refusal, sessions-reject_access s k reason)
handle_message-Calls s k (ClientMessage.reconnect id identity) ip uuid now =
    inr (reconnects k id identity, resumption, sessions-handle_reconnect s k id identity)
handle_message-Calls s k (ClientMessage.key_exchange key) ip uuid now =
    inl (sessions-forward_to_peer s k (ServerMessage.key_exchange key))
handle_message-Calls s k (ClientMessage.encrypted_data text nonce) ip uuid now =
    inl (sessions-forward_to_peer s k (ServerMessage.encrypted_data text nonce))
handle_message-Calls s k (ClientMessage.pty_input text) ip uuid now =
    inl (sessions-forward_to_peer s k (ServerMessage.pty_input text))
handle_message-Calls s k (ClientMessage.pty_output text) ip uuid now =
    inl (sessions-forward_to_peer s k (ServerMessage.pty_output text))
handle_message-Calls s k (ClientMessage.pty_resize cols rows) ip uuid now =
    inl (sessions-forward_to_peer s k (ServerMessage.pty_resize cols rows))
handle_message-Calls s k (ClientMessage.pty_exit code) ip uuid now =
    inl (sessions-forward_to_peer s k (ServerMessage.pty_exit code))
handle_message-Calls s k (ClientMessage.session_terminate reason) ip uuid now =
    inl (sessions-forward_to_peer s k (ServerMessage.session_terminate reason))

pub on_decoded-Calls :
    (s : Relay) (k : ℕ) (m : Decoded) (ip uuid : String) (now : ℕ)
    → Calls s.timers (receives k m uuid now) s.sessions (on_decoded s k m ip uuid now).sessions
unfolding on_decoded
on_decoded-Calls s k (malformed text) ip uuid now =
    inl (sessions-send s k (ServerMessage.error text))
on_decoded-Calls s k (decoded m) ip uuid now = handle_message-Calls s k m ip uuid now
on_decoded-Calls s k unsupported ip uuid now =
    inl (sessions-send s k (ServerMessage.error "unsupported message"))

pub on_message-Calls :
    (s : Relay) (k : ℕ) (m : Decoded) (ip uuid : String) (now : ℕ)
    → Calls s.timers (receives k m uuid now) s.sessions (on_message s k m ip uuid now).sessions
unfolding on_message
on_message-Calls s k m ip uuid now =
    let (r, l) = check s.message_limiter ip now in
    elim (Bool-cases (check s.message_limiter ip now).0.allowed) [
      | inl x ↦ rw x (on_decoded-Calls (record s { message_limiter = l }) k m ip uuid now)
      | inr x ↦ rw x (
          inl (
            sessions-send (record s { message_limiter = l }) k
              (ServerMessage.error "message rate limit exceeded")))
    ]
