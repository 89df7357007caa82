-- ===== src/Cli/Terminal/Host/Events.antt =====
-- apps/cli/src/terminal/remote-host.ts: the handlers of the socket's events, and reconnecting.
use tbridge.Base.{
  ℕ, suc, String, Bool, true, false, ◌&&◌, not, Option, none, some, List, [], ◌∷◌, leb, ltb,
  if◌then◌else◌, get, set, delete, ◌==◌, nat_eq, string_eq,
}
use tbridge.Protocol.{PeerIdentity}
use tbridge.Protocol.Legacy.{ClientRole, ClientMessage, ServerMessage}
use tbridge.Crypto.{
  Primitives, EncryptedChunk, Outcome, returns, throws, SessionCipher, decrypt,
  create_session_cipher,
}
use tbridge.Cli.Policy.{Policies}
use tbridge.Cli.Terminal.Sockets.{Encoding, backpressure_low, max_reconnect_attempts, delay_of}
use tbridge.Cli.Terminal.Host.Shell.{
  killed, resumed, wrote, resized, decryption_error, Host, emit, send, close, at_child,
  connect_socket, on_open, spawn_shared_pty, on_data, on_exit, on_access_request, on_decision,
  on_answer,
}

module _ (N : Primitives) (E : Encoding N) where
  open N use {PrivateKey, to_base64, from_base64, public_of, export}

  unfoldable pub on_session_ready : Host N E → ℕ → String → PrivateKey → Host N E
  unfolding send
  on_session_ready h socket id key =
      send N E (record h { session_id = some id; ephemeral = some key }) socket
        (ClientMessage.key_exchange (to_base64 (export (public_of key))))

  -- The new cipher is an object of its own, which the new shell holds too.
  abbrev pub install : Host N E → ℕ → Option (SessionCipher N) → Host N E
  install h socket none = record h { crashed = true }
  install h socket (some c) =
      spawn_shared_pty N E
        (record h {
          cipher = some h.next_cipher;
          ciphers = set h.next_cipher c h.ciphers;
          next_cipher = suc h.next_cipher;
        })
        socket h.next_cipher

  unfoldable pub on_key_exchange : Host N E → ℕ → String → Host N E
  unfolding spawn_shared_pty
  on_key_exchange h socket key = elim h.ephemeral [
    | none ↦ h
    | some own ↦ install h socket (create_session_cipher N own (from_base64 key) ClientRole.host)
  ]

  abbrev pub write_outcome : Host N E → ℕ → Outcome N.Text → Host N E
  write_outcome h p (throws e) = emit N E h decryption_error
  write_outcome h p (returns t) = emit N E h (wrote p (E.of_text t))

  abbrev pub decrypt_with : Host N E → ℕ → ℕ → EncryptedChunk → Host N E
  decrypt_with h p id chunk = elim (get id h.ciphers) [
    | none ↦ h
    | some c ↦
        write_outcome (record h { ciphers = set id (decrypt N c chunk).1 h.ciphers }) p
          (decrypt N c chunk).0
  ]

  unfoldable pub on_encrypted_data : Host N E → EncryptedChunk → Host N E
  on_encrypted_data h chunk = elim h.cipher [
    | none ↦ h
    | some id ↦ elim h.child [ none ↦ h | some p ↦ decrypt_with h p id chunk ]
  ]

  -- The switch of the `message` handler; HOST_REGISTERED and RECONNECT_OK only print.
  unfoldable pub on_message : Host N E → ℕ → ServerMessage → PrivateKey → Host N E
  unfolding on_session_ready on_key_exchange on_encrypted_data on_access_request close
  on_message h socket (ServerMessage.access_request code requester) key =
      on_access_request N E h socket requester
  on_message h socket (ServerMessage.session_ready id role) key = on_session_ready h socket id key
  on_message h socket (ServerMessage.session_info identity) key = record h {
    peer_identity = some identity;
  }
  on_message h socket (ServerMessage.key_exchange peer) key = on_key_exchange h socket peer
  on_message h socket (ServerMessage.encrypted_data text nonce) key =
      on_encrypted_data h (record { ciphertext = text; nonce = nonce })
  on_message h socket (ServerMessage.pty_input text) key = at_child N E h λ p. wrote p text
  on_message h socket (ServerMessage.pty_resize columns rows) key =
      at_child N E h λ p. resized p columns rows
  on_message h socket (ServerMessage.session_terminate reason) key =
      close N E (at_child N E (record h { is_closed = true }) killed) socket
  on_message h socket (ServerMessage.error text) key = close N E h socket
  on_message h socket m key = h

  unfoldable pub on_drain : Host N E → ℕ → Host N E
  on_drain h buffered = elim h.child [
    | none ↦ h
    | some p ↦
        if h.is_pty_paused && ltb buffered backpressure_low
        then emit N E (record h { is_pty_paused = false }) (resumed p)
        else h
  ]

  unfoldable pub attempt_reconnect : Host N E → ℕ → Host N E
  attempt_reconnect h attempt =
      if leb max_reconnect_attempts attempt
      then at_child N E (record h { is_closed = true }) killed
      else record h {
        waits = set h.next_wait (record { attempt = attempt; delay = delay_of attempt }) h.waits;
        next_wait = suc h.next_wait;
      }

  abbrev pub is_set : Option String → Bool
  is_set none = false
  is_set (some id) = not (id == "")

  -- The handler of `close`.
  unfoldable pub on_close : Host N E → ℕ → Host N E
  unfolding attempt_reconnect
  on_close h socket =
      let h' = record h {
        sockets = delete socket h.sockets;
        open_sockets = λ k. if k == socket then false else h.open_sockets k;
      } in
      if h.is_closed
      then h'
      else if is_set h.session_id
      then attempt_reconnect h' 0
      else at_child N E (record h' { is_closed = true }) killed

  -- The handlers of `error`; only a reconnect's tries again.
  unfoldable pub on_error : Host N E → Option ℕ → Host N E
  unfolding attempt_reconnect
  on_error h none = h
  on_error h (some attempt) = attempt_reconnect h (suc attempt)

  -- A wait is over.
  unfoldable pub on_wait : Host N E → ℕ → ℕ → Host N E
  unfolding connect_socket
  on_wait h id attempt =
      let h' = record h { waits = delete id h.waits } in
      if h.is_closed then h' else connect_socket N E h' (some attempt)

  pub data Event : Type 0 where
    opens closes fails : ℕ → Event
    receives : ℕ → ServerMessage → PrivateKey → Event
    outputs : ℕ → String → ℕ → Event
    exits : ℕ → ℕ → Option ℕ → Event
    decides : ℕ → Policies → Event
    answers : ℕ → Bool → Event
    drains : ℕ → ℕ → Event
    waited : ℕ → Event

  -- The prompt is answered only where it is shown, and the policy is read once.
  unfoldable pub react : Host N E → Event → Host N E
  unfolding on_open on_close on_error on_message on_data on_exit on_decision on_answer on_drain
      on_wait
  react h (opens socket) = elim (get socket h.sockets) [
    | none ↦ h
    | some attempt ↦
        on_open N E
          (record h { open_sockets = λ k. if k == socket then true else h.open_sockets k }) socket
          attempt
  ]
  react h (closes socket) = elim (get socket h.sockets) [
    | none ↦ h
    | some attempt ↦ on_close h socket
  ]
  react h (fails socket) = elim (get socket h.sockets) [
    | none ↦ h
    | some attempt ↦ on_error h attempt
  ]
  react h (receives socket m key) = elim (get socket h.sockets) [
    | none ↦ h
    | some attempt ↦ on_message h socket m key
  ]
  react h (outputs id text buffered) = elim (get id h.ptys) [
    | none ↦ h
    | some p ↦ on_data N E h id p text buffered
  ]
  react h (exits id code signal) = elim (get id h.ptys) [
    | none ↦ h
    | some p ↦ on_exit N E h id p code signal
  ]
  react h (decides id policies) = elim (get id h.asking) [
    | none ↦ h
    | some q ↦ if q.prompted then h else on_decision N E h id q policies
  ]
  react h (answers id allowed) = elim (get id h.asking) [
    | none ↦ h
    | some q ↦ if q.prompted then on_answer N E h id q allowed else h
  ]
  react h (drains socket buffered) = elim (get socket h.sockets) [
    | none ↦ h
    | some attempt ↦ on_drain h buffered
  ]
  react h (waited id) = elim (get id h.waits) [ none ↦ h | some w ↦ on_wait h id w.attempt ]

  unfoldable pub handle : Host N E → Event → Host N E
  unfolding react
  handle h e = if h.crashed then h else react h e

  unfoldable pub handle_all : Host N E → List Event → Host N E
  handle_all h [] = h
  handle_all h (e ∷ es) = handle_all (handle h e) es

  -- The command at its start: one socket, which is not yet open.
  unfoldable pub new_host : String → PeerIdentity → Host N E
  unfolding connect_socket
  new_host code identity =
      connect_socket N E
        (record {
          code = code;
          identity = identity;
          child = none;
          is_closed = false;
          crashed = false;
          session_id = none;
          cipher = none;
          ephemeral = none;
          is_pty_paused = false;
          peer_identity = none;
          current_socket = 0;
          sockets = [];
          next_socket = 0;
          open_sockets = λ k. false;
          waits = [];
          next_wait = 0;
          ciphers = [];
          next_cipher = 0;
          ptys = [];
          next_pty = 0;
          asking = [];
          next_request = 0;
          out = [];
        })
        none
