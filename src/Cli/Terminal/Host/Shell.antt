-- ===== src/Cli/Terminal/Host/Shell.antt =====
-- apps/cli/src/terminal/remote-host.ts: the host's state, its socket, its shell and its consent.
use tbridge.Base.{
  ℕ, zero, suc, ◌++◌, String, Bool, true, false, not, Option, none, some, List, [], ◌∷◌, ltb,
  if◌then◌else◌, get, set, delete, ◌==◌, nat_eq, string_eq,
}
use Prim.Native.String
use tbridge.Protocol.{PeerIdentity}
use tbridge.Protocol.Legacy.{ClientMessage}
use tbridge.Crypto.{Primitives, EncryptedChunk, Outcome, returns, throws, SessionCipher, encrypt}
use tbridge.Cli.Policy.{Policies, asks, allows, denies, decide_access}
use tbridge.Cli.Terminal.Sockets.{Encoding, backpressure_high, Wait}

pub data Output : Type 0 where
  sent : ℕ → ClientMessage → Output
  closed spawned killed paused resumed : ℕ → Output
  wrote : ℕ → String → Output
  resized : ℕ → ℕ → ℕ → Output
  decryption_error : Output

-- What a shell's handlers hold.
pub record Pty : Type 0 where
  pub socket : ℕ
  pub cipher : ℕ

-- A request for access, on the socket that it came on; `prompted` once the host is being asked.
pub record Request : Type 0 where
  pub socket : ℕ
  pub requester : PeerIdentity
  pub prompted : Bool

module _ (N : Primitives) (E : Encoding N) where
  open N use {PrivateKey, to_base64, from_base64, public_of, export}

  pub record Host : Type 0 where
    pub code : String
    pub identity : PeerIdentity
    pub child : Option ℕ
    pub is_closed : Bool
    pub crashed : Bool
    pub session_id : Option String
    pub cipher : Option ℕ
    pub ephemeral : Option PrivateKey
    pub is_pty_paused : Bool
    pub peer_identity : Option PeerIdentity
    pub current_socket : ℕ
    pub sockets : List (ℕ × Option ℕ)
    pub next_socket : ℕ
    pub open_sockets : ℕ → Bool
    pub waits : List (ℕ × Wait)
    pub next_wait : ℕ
    pub ciphers : List (ℕ × SessionCipher N)
    pub next_cipher : ℕ
    pub ptys : List (ℕ × Pty)
    pub next_pty : ℕ
    pub asking : List (ℕ × Request)
    pub next_request : ℕ
    pub out : List Output

  abbrev pub emit : Host → Output → Host
  emit h o = record h { out = h.out ++ o ∷ [] }

  unfoldable pub send : Host → ℕ → ClientMessage → Host
  send h socket m = if h.open_sockets socket then emit h (sent socket m) else h

  unfoldable pub close : Host → ℕ → Host
  close h socket =
      emit (record h { open_sockets = λ k. if k == socket then false else h.open_sockets k })
        (closed socket)

  -- `child?.…`.
  abbrev pub at_child : Host → (ℕ → Output) → Host
  at_child h f = elim h.child [ none ↦ h | some p ↦ emit h (f p) ]

  -- `connectSocket`, before any event of the socket. The attempt is `none` for the first socket.
  unfoldable pub connect_socket : Host → Option ℕ → Host
  connect_socket h attempt = record h {
    sockets = set h.next_socket attempt h.sockets;
    next_socket = suc h.next_socket;
  }

  abbrev pub session_start : Host → Option String → ClientMessage
  session_start h none = ClientMessage.register_host h.code h.identity
  session_start h (some id) =
      if id == ""
      then ClientMessage.register_host h.code h.identity
      else ClientMessage.reconnect id h.identity

  -- The handlers of `open`.
  unfoldable pub on_open : Host → ℕ → Option ℕ → Host
  unfolding send
  on_open h socket none = send h socket (ClientMessage.register_host h.code h.identity)
  on_open h socket (some attempt) = record (send h socket (session_start h h.session_id)) {
    current_socket = socket;
  }

  unfoldable pub spawn_shared_pty : Host → ℕ → ℕ → Host
  spawn_shared_pty h socket cipher =
      emit
        (record h {
          child = some h.next_pty;
          ptys = set h.next_pty (record { socket = socket; cipher = cipher }) h.ptys;
          next_pty = suc h.next_pty;
        })
        (spawned h.next_pty)

  -- `onData` of a shell, with its socket's `bufferedAmount`; `encrypt` may throw.
  abbrev pub send_encrypted : Host → Pty → Outcome EncryptedChunk × SessionCipher N → Host
  send_encrypted h p (throws e, c) = record h { crashed = true }
  send_encrypted h p (returns chunk, c) =
      send (record h { ciphers = set p.cipher c h.ciphers }) p.socket
        (ClientMessage.encrypted_data chunk.ciphertext chunk.nonce)

  unfoldable pub on_data : Host → ℕ → Pty → String → ℕ → Host
  unfolding send
  on_data h id p text buffered =
      if not (h.open_sockets p.socket)
      then h
      else if ltb backpressure_high buffered
      then (if h.is_pty_paused then h else emit (record h { is_pty_paused = true }) (paused id))
      else elim (get p.cipher h.ciphers) [
        | none ↦ h
        | some c ↦ send_encrypted h p (encrypt N c (E.to_text text))
      ]

  abbrev pub exit_status : ℕ → Option ℕ → Option ℕ
  exit_status code (some zero) = some code
  exit_status code s = none

  -- `onExit` of a shell, with its exit code and signal.
  unfoldable pub on_exit : Host → ℕ → Pty → ℕ → Option ℕ → Host
  unfolding send close
  on_exit h id p code signal =
      let h' = record h { ptys = delete id h.ptys } in
      if h.open_sockets p.socket
      then close
          (send (record h' { is_closed = true }) p.socket
            (ClientMessage.pty_exit (exit_status code signal)))
          p.socket
      else h'

  -- ACCESS_REQUEST, up to the first `await` of `handleApproval`.
  unfoldable pub on_access_request : Host → ℕ → PeerIdentity → Host
  on_access_request h socket requester = record h {
    asking =
        set h.next_request (record { socket = socket; requester = requester; prompted = false })
          h.asking;
    next_request = suc h.next_request;
  }

  -- The answer to a request, and the end of its handler.
  unfoldable pub reply : Host → ℕ → Request → ClientMessage → Host
  unfolding send
  reply h id q m = send (record h { asking = delete id h.asking }) q.socket m

  -- `decideAccess` has read the policy.
  unfoldable pub on_decision : Host → ℕ → Request → Policies → Host
  unfolding reply
  on_decision h id q policies = elim (decide_access policies q.requester.user_id) [
    | allows ↦ reply h id q ClientMessage.access_approved
    | denies ↦
        reply h id q
          (ClientMessage.access_rejected (some (String.◌++◌ q.requester.user_id " is blocked")))
    | asks ↦ record h { asking = set id (record q { prompted = true }) h.asking }
  ]

  -- `accessPrompt` has been answered.
  unfoldable pub on_answer : Host → ℕ → Request → Bool → Host
  unfolding reply
  on_answer h id q allowed = reply h id q (
      if allowed
      then ClientMessage.access_approved
      else ClientMessage.access_rejected (some "host rejected access"))
