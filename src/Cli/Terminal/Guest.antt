-- ===== src/Cli/Terminal/Guest.antt =====
-- apps/cli/src/terminal/remote-guest.ts: `connectToShare`, the command of the guest.
--
-- The state is the variables that its closures share, the sockets whose handlers run (with the
-- reconnect attempt that made each), which sockets are open, and the waits before a reconnect. What
-- the command sends, prints and does to the terminal is appended to `out`. The fresh ephemeral key
-- and the socket's `bufferedAmount` come with the event. What the relay sends has been decoded; a
-- call of the cipher that throws outside a `try` ends the process, which `crashed` says. The banner,
-- spinners and boxes are left out.
pub mod Secrecy
pub mod Reconnecting
mod Tests
use tbridge.Base.{
  ℕ, zero, suc, ◌+◌, ◌++◌, ◌<◌, ◌≡◌, String, Bool, true, false, ◌&&◌, ◌||◌, not, Option, none, some,
  List, [], ◌∷◌, leb, ltb, if◌then◌else◌, get, set, delete, has, is_some, ◌==◌, nat_eq, string_eq,
}
use tbridge.Protocol.{PeerIdentity}
use tbridge.Protocol.Legacy.{ClientRole, ClientMessage, ServerMessage}
use tbridge.Crypto.{
  Primitives, EncryptedChunk, Outcome, returns, throws, SessionCipher, encrypt, decrypt,
  create_session_cipher,
}
use tbridge.Cli.Terminal.Sockets.{
  Encoding, backpressure_high, backpressure_low, max_reconnect_attempts, delay_of, Wait,
}

pub data Output : Type 0 where
  sent : ℕ → ClientMessage → Output
  printed : String → Output
  closed : ℕ → Output
  raw_on raw_off stdin_paused stdin_resumed decryption_error : Output

abbrev pub exit_sequence : String
exit_sequence = "\u{1d}"

module _ (N : Primitives) (E : Encoding N) where
  open N use {PrivateKey, to_base64, from_base64, public_of, export}

  pub record Guest : Type 0 where
    pub code : String
    pub identity : PeerIdentity
    pub is_raw : Bool
    pub listeners : ℕ
    pub hears_resize : Bool
    pub is_closed : Bool
    pub crashed : Bool
    pub session_id : Option String
    pub cipher : Option (SessionCipher N)
    pub ephemeral : Option PrivateKey
    pub is_stdin_paused : Bool
    pub peer_identity : Option PeerIdentity
    pub current_socket : ℕ
    pub sockets : List (ℕ × Option ℕ)
    pub next_socket : ℕ
    pub open_sockets : ℕ → Bool
    pub waits : List (ℕ × Wait)
    pub next_wait : ℕ
    pub columns : ℕ
    pub rows : ℕ
    pub out : List Output

  abbrev pub emit : Guest → Output → Guest
  emit g o = record g { out = g.out ++ o ∷ [] }

  -- `socket.send`: what is sent on a socket that is not open is dropped.
  unfoldable pub send : Guest → ℕ → ClientMessage → Guest
  send g socket m = if g.open_sockets socket then emit g (sent socket m) else g

  -- `socket.close`: the socket is not open any more; its `close` event comes later.
  unfoldable pub close : Guest → ℕ → Guest
  close g socket =
      emit (record g { open_sockets = λ k. if k == socket then false else g.open_sockets k })
        (closed socket)

  abbrev pub or_default : ℕ → ℕ → ℕ
  or_default zero d = d
  or_default (suc n) d = suc n

  unfoldable pub send_resize : Guest → ℕ → Guest
  unfolding send
  send_resize g socket =
      send g socket (ClientMessage.pty_resize (or_default g.columns 80) (or_default g.rows 24))

  -- `enableRawInput(onInput)`.
  abbrev pub enable_raw_input : Guest → Guest
  enable_raw_input g = emit (record g { listeners = suc g.listeners }) raw_on

  abbrev pub pred : ℕ → ℕ
  pred zero = zero
  pred (suc n) = n

  -- `cleanup`: `off` removes one listener of the keys.
  unfoldable pub cleanup : Guest → Guest
  cleanup g =
      if g.is_raw
      then emit (record g { listeners = pred g.listeners; hears_resize = false }) raw_off
      else g

  -- `connectSocket`, before any event of the socket. The attempt is `none` for the first socket.
  unfoldable pub connect_socket : Guest → Option ℕ → Guest
  connect_socket g attempt = record g {
    sockets = set g.next_socket attempt g.sockets;
    next_socket = suc g.next_socket;
  }

  abbrev pub session_start : Guest → Option String → ClientMessage
  session_start g none = ClientMessage.register_guest g.code g.identity
  session_start g (some id) =
      if id == ""
      then ClientMessage.register_guest g.code g.identity
      else ClientMessage.reconnect id g.identity

  -- The handlers of `open`: that of `connectSocket`, and for a reconnect that of `attemptReconnect`.
  unfoldable pub on_open : Guest → ℕ → Option ℕ → Guest
  unfolding send
  on_open g socket none = send g socket (ClientMessage.register_guest g.code g.identity)
  on_open g socket (some attempt) = record (send g socket (session_start g g.session_id)) {
    current_socket = socket;
  }

  unfoldable pub on_session_ready : Guest → ℕ → String → PrivateKey → Guest
  unfolding send send_resize
  on_session_ready g socket id key =
      let g' =
        send (record g { session_id = some id; ephemeral = some key }) socket
          (ClientMessage.key_exchange (to_base64 (export (public_of key)))) in
      send_resize (record (enable_raw_input g') { is_raw = true }) socket

  abbrev pub install : Guest → Option (SessionCipher N) → Guest
  install g none = record g { crashed = true }
  install g (some c) = record g { cipher = some c }

  unfoldable pub on_key_exchange : Guest → String → Guest
  on_key_exchange g key = elim g.ephemeral [
    | none ↦ g
    | some own ↦ install g (create_session_cipher N own (from_base64 key) ClientRole.guest)
  ]

  abbrev pub print_outcome : Guest → Outcome N.Text → Guest
  print_outcome g (throws e) = emit g decryption_error
  print_outcome g (returns t) = emit g (printed (E.of_text t))

  unfoldable pub on_encrypted_data : Guest → EncryptedChunk → Guest
  on_encrypted_data g chunk = elim g.cipher [
    | none ↦ g
    | some c ↦
        print_outcome (record g { cipher = some (decrypt N c chunk).1 }) (decrypt N c chunk).0
  ]

  unfoldable pub on_reconnect_ok : Guest → ℕ → Guest
  unfolding send_resize
  on_reconnect_ok g socket =
      send_resize (if g.is_raw then g else record (enable_raw_input g) { is_raw = true }) socket

  -- The switch of the `message` handler. The last clause is `default`.
  unfoldable pub on_message : Guest → ℕ → ServerMessage → PrivateKey → Guest
  unfolding on_session_ready on_key_exchange on_encrypted_data on_reconnect_ok close
  on_message g socket (ServerMessage.session_ready id role) key = on_session_ready g socket id key
  on_message g socket (ServerMessage.session_info identity) key = record g {
    peer_identity = some identity;
  }
  on_message g socket (ServerMessage.key_exchange peer) key = on_key_exchange g peer
  on_message g socket (ServerMessage.encrypted_data text nonce) key =
      on_encrypted_data g (record { ciphertext = text; nonce = nonce })
  on_message g socket (ServerMessage.access_rejected reason) key = close g socket
  on_message g socket (ServerMessage.pty_output text) key = emit g (printed text)
  on_message g socket (ServerMessage.pty_exit code) key =
      close (record g { is_closed = true }) socket
  on_message g socket (ServerMessage.session_terminate reason) key =
      close (record g { is_closed = true }) socket
  on_message g socket (ServerMessage.reconnect_ok id role) key = on_reconnect_ok g socket
  on_message g socket (ServerMessage.error text) key = close g socket
  on_message g socket m key = g

  -- `cipher.encrypt` of a key press; it throws where the counter is out of range.
  abbrev pub send_encrypted : Guest → Outcome EncryptedChunk × SessionCipher N → Guest
  send_encrypted g (throws e, c) = record g { crashed = true }
  send_encrypted g (returns chunk, c) =
      send (record g { cipher = some c }) g.current_socket
        (ClientMessage.encrypted_data chunk.ciphertext chunk.nonce)

  unfoldable pub send_input : Guest → String → Guest
  unfolding send
  send_input g keys = elim g.cipher [
    | none ↦ send g g.current_socket (ClientMessage.pty_input keys)
    | some c ↦ send_encrypted g (encrypt N c (E.to_text keys))
  ]

  -- `onInput`, with the socket's `bufferedAmount`. Keys that come under backpressure are dropped.
  unfoldable pub on_input : Guest → String → ℕ → Guest
  unfolding send close send_input
  on_input g keys buffered =
      if keys == exit_sequence
      then close
          (send (record g { is_closed = true }) g.current_socket
            (ClientMessage.session_terminate (some "guest detached")))
          g.current_socket
      else if ltb backpressure_high buffered
      then (if g.is_stdin_paused
          then g
          else emit (record g { is_stdin_paused = true }) stdin_paused)
      else send_input g keys

  -- The data goes to every listener that was added.
  unfoldable pub on_keys : ℕ → Guest → String → ℕ → Guest
  on_keys zero g keys buffered = g
  on_keys (suc n) g keys buffered =
      on_keys n (if g.crashed then g else on_input g keys buffered) keys buffered

  unfoldable pub on_drain : Guest → ℕ → Guest
  on_drain g buffered =
      if g.is_stdin_paused && ltb buffered backpressure_low
      then emit (record g { is_stdin_paused = false }) stdin_resumed
      else g

  unfoldable pub attempt_reconnect : Guest → ℕ → Guest
  unfolding cleanup
  attempt_reconnect g attempt =
      if leb max_reconnect_attempts attempt
      then cleanup (record g { is_closed = true })
      else record g {
        waits = set g.next_wait (record { attempt = attempt; delay = delay_of attempt }) g.waits;
        next_wait = suc g.next_wait;
      }

  abbrev pub is_set : Option String → Bool
  is_set none = false
  is_set (some id) = not (id == "")

  -- The handler of `close`.
  unfoldable pub on_close : Guest → ℕ → Guest
  unfolding attempt_reconnect cleanup
  on_close g socket =
      let g' = record g {
        sockets = delete socket g.sockets;
        open_sockets = λ k. if k == socket then false else g.open_sockets k;
      } in
      if g.is_closed
      then g'
      else if is_set g.session_id
      then attempt_reconnect g' 0
      else cleanup (record g' { is_closed = true })

  -- The handlers of `error`; only a reconnect's tries again.
  unfoldable pub on_error : Guest → Option ℕ → Guest
  unfolding attempt_reconnect
  on_error g none = g
  on_error g (some attempt) = attempt_reconnect g (suc attempt)

  -- A wait is over.
  unfoldable pub on_wait : Guest → ℕ → ℕ → Guest
  unfolding connect_socket
  on_wait g id attempt =
      let g' = record g { waits = delete id g.waits } in
      if g.is_closed then g' else connect_socket g' (some attempt)

  pub data Event : Type 0 where
    opens closes fails : ℕ → Event
    receives : ℕ → ServerMessage → PrivateKey → Event
    types : String → ℕ → Event
    resizes : ℕ → ℕ → Event
    drains : ℕ → ℕ → Event
    waited : ℕ → Event

  -- A socket's events are heard until it has closed.
  unfoldable pub react : Guest → Event → Guest
  unfolding on_open on_close on_error on_message on_keys on_input on_drain on_wait
  react g (opens socket) = elim (get socket g.sockets) [
    | none ↦ g
    | some attempt ↦
        on_open (record g { open_sockets = λ k. if k == socket then true else g.open_sockets k })
          socket attempt
  ]
  react g (closes socket) = elim (get socket g.sockets) [
    | none ↦ g
    | some attempt ↦ on_close g socket
  ]
  react g (fails socket) = elim (get socket g.sockets) [
    | none ↦ g
    | some attempt ↦ on_error g attempt
  ]
  react g (receives socket m key) = elim (get socket g.sockets) [
    | none ↦ g
    | some attempt ↦ on_message g socket m key
  ]
  react g (types keys buffered) = on_keys g.listeners g keys buffered
  react g (resizes columns rows) =
      let g' = record g { columns = columns; rows = rows } in
      if g.hears_resize then send_resize g' g.current_socket else g'
  react g (drains socket buffered) = elim (get socket g.sockets) [
    | none ↦ g
    | some attempt ↦ on_drain g buffered
  ]
  react g (waited id) = elim (get id g.waits) [ none ↦ g | some w ↦ on_wait g id w.attempt ]

  unfoldable pub handle : Guest → Event → Guest
  unfolding react
  handle g e = if g.crashed then g else react g e

  unfoldable pub handle_all : Guest → List Event → Guest
  handle_all g [] = g
  handle_all g (e ∷ es) = handle_all (handle g e) es

  -- The command at its start: one socket, which is not yet open.
  unfoldable pub new_guest : String → PeerIdentity → ℕ → ℕ → Guest
  unfolding connect_socket
  new_guest code identity columns rows =
      connect_socket
        (record {
          code = code;
          identity = identity;
          is_raw = false;
          listeners = 0;
          hears_resize = true;
          is_closed = false;
          crashed = false;
          session_id = none;
          cipher = none;
          ephemeral = none;
          is_stdin_paused = false;
          peer_identity = none;
          current_socket = 0;
          sockets = [];
          next_socket = 0;
          open_sockets = λ k. false;
          waits = [];
          next_wait = 0;
          columns = columns;
          rows = rows;
          out = [];
        })
        none
