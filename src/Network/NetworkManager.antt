-- ===== src/Network/NetworkManager.antt =====
-- packages/network/src/network-manager.ts: the connection to the relay, and those to peers over it.
--
-- A socket is a number; `sockets` are those whose handlers run, with the url that `connect` closed
-- over, and `pings` the intervals that run, with their period. The peer connections are objects on a heap, in the order in which they were made: each hears
-- the manager's `message` events, and `connections` leads to those that are looked up. What a
-- connection hands to the manager to send stands in its own `sent`. Ids, times, fresh keys and what
-- was decoded come with the event. The promise that `connect` returns is left out, and the listeners
-- of the manager's events do not call it back.
pub mod Reconnecting
mod Tests
use tbridge.Base.{
  ℕ, zero, suc, ◌+◌, ◌*◌, ◌^◌, ◌++◌, min, String, Bool, true, false, ◌&&◌, not, Option, none, some,
  List, [], ◌∷◌, if◌then◌else◌, get, set, delete, ◌==◌, nat_eq, string_eq,
}
use Prim.Native.String
use tbridge.Protocol.{PeerIdentity}
use tbridge.Protocol.Legacy.{ClientRole}
use tbridge.Protocol.Envelopes.{
  DeviceCapabilities, Destination, relay, broadcast, Payload, Envelope, create_envelope,
}
use tbridge.Crypto.{Primitives}
use tbridge.Network.PeerConnection

pub data Status : Type 0 where
  disconnected connecting connected : Status

abbrev pub is_disconnected : Status → Bool
is_disconnected disconnected = true
is_disconnected s = false

abbrev pub is_connecting : Status → Bool
is_connecting connecting = true
is_connecting s = false

pub data Effect : Type 0 where
  sent : ℕ → Envelope → Effect
  closed : ℕ → Effect
  status_changed : Status → Effect
  share_code failed : String → Effect
  pair_requested : PeerIdentity → String → Effect
  established : ℕ → Effect

-- A timer of `scheduleReconnect`.
pub record Retry : Type 0 where
  pub delay : ℕ
  pub url : String

abbrev pub max_reconnect_delay : ℕ
max_reconnect_delay = 30000

abbrev pub peer_id : String → String → String
peer_id user device = String.◌++◌ user (String.◌++◌ ":" device)

module _ (N : Primitives) (J : PeerConnection.Json N) where
  pub record NetworkManager : Type 0 where
    pub ws : Option ℕ
    pub status : Status
    pub reconnect_attempts : ℕ
    pub ping_interval : Option ℕ
    pub pings : List (ℕ × ℕ)
    pub next_ping : ℕ
    pub session_code : Option String
    pub connections : List (String × ℕ)
    pub objects : List (ℕ × PeerConnection.PeerConnection N J)
    pub next_object : ℕ
    pub user : String
    pub device : String
    pub capabilities : DeviceCapabilities
    pub public_key : String
    pub sockets : List (ℕ × String)
    pub next_socket : ℕ
    pub open_sockets : ℕ → Bool
    pub retries : List (ℕ × Retry)
    pub next_retry : ℕ
    pub out : List Effect

  abbrev pub emit : NetworkManager → Effect → NetworkManager
  emit m e = record m { out = m.out ++ e ∷ [] }

  abbrev pub set_status : NetworkManager → Status → NetworkManager
  set_status m s = emit (record m { status = s }) (status_changed s)

  -- `send`, with the envelope's id and time.
  unfoldable pub send : NetworkManager → Destination → Payload → String → ℕ → NetworkManager
  send m to payload id now = elim m.ws [
    | none ↦ m
    | some k ↦
        if m.open_sockets k
        then emit m (sent k (create_envelope id now m.user m.device to payload))
        else m
  ]

  unfoldable pub connect : NetworkManager → String → NetworkManager
  connect m url =
      if is_disconnected m.status
      then record (set_status m connecting) {
        ws = some m.next_socket;
        sockets = set m.next_socket url m.sockets;
        next_socket = suc m.next_socket;
      }
      else m

  -- `clearInterval(this.pingInterval)`.
  abbrev pub clear_ping : NetworkManager → NetworkManager
  clear_ping m = elim m.ping_interval [
    | none ↦ m
    | some i ↦ record m { ping_interval = none; pings = delete i m.pings }
  ]

  unfoldable pub cleanup : NetworkManager → NetworkManager
  cleanup m =
      let m' = clear_ping m in if is_disconnected m'.status then m' else set_status m' disconnected

  -- The socket's `close` event comes later.
  unfoldable pub disconnect : NetworkManager → NetworkManager
  unfolding cleanup
  disconnect m =
      let m' = cleanup (record m { status = disconnected }) in
      elim m'.ws [
        | none ↦ m'
        | some k ↦
            emit
              (record m' {
                ws = none;
                open_sockets = λ j. if j == k then false else m'.open_sockets j;
              })
              (closed k)
      ]

  abbrev pub reconnect_delay : ℕ → ℕ
  reconnect_delay attempts = min (1000 * 2 ^ attempts) max_reconnect_delay

  unfoldable pub schedule_reconnect : NetworkManager → String → NetworkManager
  schedule_reconnect m url = if is_connecting m.status then m else record m {
    reconnect_attempts = suc m.reconnect_attempts;
    retries =
        set m.next_retry (record { delay = reconnect_delay (suc m.reconnect_attempts); url = url })
          m.retries;
    next_retry = suc m.next_retry;
  }

  unfoldable pub start_ping : NetworkManager → NetworkManager
  start_ping m = record m {
    ping_interval = some m.next_ping;
    pings = set m.next_ping 15000 m.pings;
    next_ping = suc m.next_ping;
  }

  -- The handler of `open`.
  unfoldable pub on_open : NetworkManager → String → ℕ → NetworkManager
  unfolding send start_ping
  on_open m id now = start_ping (
      send (set_status (record m { reconnect_attempts = 0 }) connected) relay
        (Payload.hello m.capabilities m.public_key) id now)

  -- The handler of `close`.
  unfoldable pub on_close : NetworkManager → String → NetworkManager
  unfolding cleanup schedule_reconnect
  on_close m url = schedule_reconnect (cleanup m) url

  -- A timer of `scheduleReconnect` is over.
  unfoldable pub on_retry : NetworkManager → ℕ → String → NetworkManager
  unfolding connect
  on_retry m i url =
      let m' = record m { retries = delete i m.retries } in
      if is_disconnected m'.status then connect m' url else m'

  -- `new PeerConnection`, `connections.set` and `trackConnection`.
  unfoldable pub add_connection :
      NetworkManager → String → String → PeerConnection.PeerConnection N J → NetworkManager
  add_connection m user device c = record m {
    objects = set m.next_object c m.objects;
    next_object = suc m.next_object;
    connections = set (peer_id user device) m.next_object m.connections;
  }

  unfoldable pub accept_pair_request :
      NetworkManager → PeerIdentity → N.PrivateKey → String → ℕ → NetworkManager
  unfolding send add_connection
  accept_pair_request m identity key id now =
      send
        (add_connection m identity.user_id identity.device_id (
          PeerConnection.new_connection N J key identity.user_id identity.device_id
            ClientRole.host))
        (Destination.peer identity.user_id identity.device_id) Payload.pair_accept id now

  -- `initiateConnection`, with the connection that its caller has made.
  unfoldable pub initiate_connection :
      NetworkManager → String → PeerConnection.PeerConnection N J → NetworkManager
  initiate_connection m id c = record m {
    objects = set m.next_object c m.objects;
    next_object = suc m.next_object;
    connections = set id m.next_object m.connections;
  }

  unfoldable pub get_connection : NetworkManager → String → String → Option ℕ
  get_connection m user device = get (peer_id user device) m.connections

  unfoldable pub remove_connection : NetworkManager → String → String → NetworkManager
  remove_connection m user device = record m {
    connections = delete (peer_id user device) m.connections;
  }

  abbrev pub is_started : PeerConnection.Status → Bool
  is_started PeerConnection.connecting = false
  is_started s = true

  -- `conn.startHandshake()` where its status is `connecting`.
  unfoldable pub start_object : NetworkManager → ℕ → NetworkManager
  start_object m i = elim (get i m.objects) [
    | none ↦ m
    | some c ↦
        if is_started c.status
        then m
        else record m { objects = set i (PeerConnection.start_handshake N J c) m.objects }
  ]

  unfoldable pub on_pair_accept : NetworkManager → String → String → N.PrivateKey → NetworkManager
  unfolding start_object add_connection
  on_pair_accept m user device key = elim (get (peer_id user device) m.connections) [
    | some i ↦ start_object m i
    | none ↦
        start_object
          (emit
            (add_connection m user device
              (PeerConnection.new_connection N J key user device ClientRole.guest))
            (established m.next_object))
          m.next_object
  ]

  -- The listener of `trackConnection`, where the connection has just closed.
  unfoldable pub forget_closed :
      List (String × ℕ)
      → PeerConnection.PeerConnection N J
      → PeerConnection.PeerConnection N J
      → List (String × ℕ)
  forget_closed connections before after =
      if before.listening && not after.listening
      then delete (peer_id after.peer_user after.peer_device) connections
      else connections

  -- `emit("message", envelope)`: each connection hears it, in the order in which they were made, up
  -- to one that throws. What it throws is caught by the listener of the socket's messages.
  unfoldable pub deliver_to :
      NetworkManager → List (ℕ × PeerConnection.PeerConnection N J) → Envelope → NetworkManager
  unfolding forget_closed
  deliver_to m [] e = m
  deliver_to m ((i, c) ∷ cs) e =
      let c' = PeerConnection.deliver N J c e in
      let m' : NetworkManager = record m {
        objects = set i c' m.objects;
        connections = forget_closed m.connections c c';
      } in
      let rest = deliver_to m' cs e in if PeerConnection.threw N J c c' then m' else rest

  unfoldable pub from_relay : NetworkManager → Payload → NetworkManager
  from_relay m (Payload.hello_ack code) =
      emit (record m { session_code = some code }) (share_code code)
  from_relay m (Payload.pair_reject reason) = emit m (failed reason)
  from_relay m p = m

  unfoldable pub from_peer : NetworkManager → Envelope → Payload → N.PrivateKey → NetworkManager
  unfolding on_pair_accept deliver_to
  from_peer m e (Payload.pair_request code identity) key = emit m (pair_requested identity code)
  from_peer m e Payload.pair_accept key = on_pair_accept m e.from_user e.from_device key
  from_peer m e p key = deliver_to m m.objects e

  unfoldable pub handle_envelope : NetworkManager → Envelope → N.PrivateKey → NetworkManager
  unfolding from_relay from_peer
  handle_envelope m e key =
      if e.from_user == "relay" then from_relay m e.payload else from_peer m e e.payload key

  pub data Event : Type 0 where
    connects : String → Event
    disconnects : Event
    opens : ℕ → String → ℕ → Event
    closes : ℕ → Event
    receives : ℕ → Envelope → N.PrivateKey → Event
    fires : ℕ → Event
    pinged : ℕ → String → ℕ → Event
    accepts : PeerIdentity → N.PrivateKey → String → ℕ → Event
    initiates : String → PeerConnection.PeerConnection N J → Event

  -- What cannot be decoded is ignored, and so is no event.
  unfoldable pub handle : NetworkManager → Event → NetworkManager
  unfolding connect disconnect on_open on_close on_retry send handle_envelope accept_pair_request
      initiate_connection
  handle m (connects url) = connect m url
  handle m disconnects = disconnect m
  handle m (opens k id now) = elim (get k m.sockets) [
    | none ↦ m
    | some url ↦
        on_open (record m { open_sockets = λ j. if j == k then true else m.open_sockets j }) id now
  ]
  handle m (closes k) = elim (get k m.sockets) [
    | none ↦ m
    | some url ↦
        on_close
          (record m {
            sockets = delete k m.sockets;
            open_sockets = λ j. if j == k then false else m.open_sockets j;
          })
          url
  ]
  handle m (receives k e key) = elim (get k m.sockets) [
    | none ↦ m
    | some url ↦ handle_envelope m e key
  ]
  handle m (fires i) = elim (get i m.retries) [ none ↦ m | some r ↦ on_retry m i r.url ]
  handle m (pinged i id now) = elim (get i m.pings) [
    | none ↦ m
    | some period ↦ send m relay Payload.ping id now
  ]
  handle m (accepts identity key id now) = accept_pair_request m identity key id now
  handle m (initiates id c) = initiate_connection m id c

  unfoldable pub handle_all : NetworkManager → List Event → NetworkManager
  handle_all m [] = m
  handle_all m (e ∷ es) = handle_all (handle m e) es

  unfoldable pub new_manager : String → String → DeviceCapabilities → String → NetworkManager
  new_manager user device capabilities public_key = record {
    ws = none;
    status = disconnected;
    reconnect_attempts = 0;
    ping_interval = none;
    pings = [];
    next_ping = 0;
    session_code = none;
    connections = [];
    objects = [];
    next_object = 0;
    user = user;
    device = device;
    capabilities = capabilities;
    public_key = public_key;
    sockets = [];
    next_socket = 0;
    open_sockets = λ k. false;
    retries = [];
    next_retry = 0;
    out = [];
  }
