-- ===== src/Server/Relay/State.antt =====
-- apps/server/src/main.ts: the relay's state, and what its handlers do to sockets.
use tbridge.Base.{
  ℕ, ◌++◌, String, Bool, false, Option, none, some, List, [], ◌∷◌, if◌then◌else◌, ◌==◌, nat_eq,
  string_eq,
}
use tbridge.Protocol.Legacy.{ServerMessage}
use tbridge.Server.RateLimiter.{RateLimiter}
use tbridge.Server.SessionManager.{RelayRoom, SessionManager}

pub data Effect : Type 0 where
  sent : ℕ → ServerMessage → Effect
  closed : ℕ → Effect

-- A grace timer: its closure holds the socket, the session id and the room.
pub record Timer : Type 0 where
  pub id : ℕ
  pub socket : ℕ
  pub session : String
  pub room : ℕ

pub record Relay : Type 0 where
  pub sessions : SessionManager
  pub start_times : List (String × ℕ)
  pub grace_timers : List (String × ℕ)
  pub timers : List (ℕ × Timer)
  pub next_timer : ℕ
  pub socket_ips : List (ℕ × String)
  pub connection_limiter : RateLimiter
  pub registration_limiter : RateLimiter
  pub message_limiter : RateLimiter
  pub open_sockets : ℕ → Bool
  pub attached : List (ℕ × String)
  pub out : List Effect

unfoldable pub send : Relay → ℕ → ServerMessage → Relay
send s socket m =
    if s.open_sockets socket then record s { out = s.out ++ sent socket m ∷ [] } else s

unfoldable pub close : Relay → ℕ → Relay
close s socket = record s {
  open_sockets = λ k. if k == socket then false else s.open_sockets k;
  out = s.out ++ closed socket ∷ [];
}

-- `guest!.socket` and `guest?.socket`: nothing happens where there is none.
abbrev pub send_to : Relay → Option ℕ → ServerMessage → Relay
send_to s none m = s
send_to s (some socket) m = send s socket m

abbrev pub close_at : Relay → Option ℕ → Relay
close_at s none = s
close_at s (some socket) = close s socket

abbrev pub fail : Relay → ℕ → String → Relay
fail s socket text = send s socket (ServerMessage.error text)

abbrev pub with_sessions : Relay → SessionManager → Relay
with_sessions s m = record s { sessions = m }

-- `result.room`, which the heap holds.
abbrev pub at_room : Relay → ℕ → (RelayRoom → Relay) → Relay
at_room s r f = elim (s.sessions.heap r) [ none ↦ s | some room ↦ f room ]
