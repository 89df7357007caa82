-- ===== src/Network/RelayWorker.antt =====
-- packages/network/src/relay-worker.ts: the relay inside the terminal application.
--
-- The state is the worker's maps and which sockets are open; what it sends is appended to `out`. The
-- random share code, the message id and the clock come with each message, and an envelope that
-- `decode` refuses is no message at all.
pub mod Pairing
mod Tests
use tbridge.Base.{
  ℕ, ◌+◌, ◌++◌, String, Bool, true, false, not, Option, none, some, List, [], ◌∷◌, leb, ltb,
  if◌then◌else◌, get, set, delete, has, keep, length, ◌==◌, nat_eq, string_eq,
}
use tbridge.Protocol.Envelopes.{Envelope, Payload, Destination, peer, relay, broadcast}

pub record Worker : Type 0 where
  pub clients : List (String × ℕ)
  pub socket_ids : List (ℕ × String)
  pub share_codes : List (String × String)
  pub socket_codes : List (ℕ × String)
  pub rate_limits : List (String × List ℕ)
  pub open_sockets : ℕ → Bool
  pub out : List (ℕ × Envelope)

abbrev pub window_ms : ℕ
window_ms = 10000

abbrev pub max_requests : ℕ
max_requests = 50

abbrev or_none : Option (List ℕ) → List ℕ
or_none none = []
or_none (some ts) = ts

unfoldable pub recent : ℕ → List ℕ → List ℕ
recent now ts = keep (λ t. ltb now (t + window_ms)) ts

unfoldable pub check_rate_limit : Worker → String → ℕ → Bool × Worker
unfolding recent
check_rate_limit w id now =
    let timestamps = recent now (or_none (get id w.rate_limits)) in
    if leb max_requests (length timestamps)
    then (false, w)
    else (true, record w { rate_limits = set id (timestamps ++ now ∷ []) w.rate_limits })

unfoldable pub send : Worker → ℕ → Envelope → Worker
send w socket e = if w.open_sockets socket then record w { out = w.out ++ (socket, e) ∷ [] } else w

-- `targetSocket` may be missing.
abbrev pub send_to : Worker → Option ℕ → Envelope → Worker
send_to w none e = w
send_to w (some socket) e = send w socket e

-- `${user}:${device}`.
unfoldable pub id_of : String → String → String
id_of user device = joined user
  where
    joined : String → String
    joined String.[] = String.◌∷◌ ":" device
    joined (String.◌∷◌ c s) = String.◌∷◌ c (joined s)

abbrev pub from_id : Envelope → String
from_id e = id_of e.from_user e.from_device

unfoldable pub register : Worker → ℕ → String → Worker
register w socket id =
    if has id w.clients
    then w
    else record w { clients = set id socket w.clients; socket_ids = set socket id w.socket_ids }

-- An envelope of the relay itself.
abbrev pub reply : Envelope → String → ℕ → Payload → Envelope
reply e id now p = record {
  v = 2;
  id = id;
  ts = now;
  from_user = "relay";
  from_device = "relay";
  to = peer e.from_user e.from_device;
  payload = p;
}

unfoldable pub pair_request : Worker → ℕ → Envelope → String → String → ℕ → Worker
pair_request w socket e session_code id now = elim (get session_code w.share_codes) [
  | none ↦ send w socket (reply e id now (Payload.pair_reject "Invalid or expired share code."))
  | some target ↦ send_to w (get target w.clients) e
]

unfoldable pub relay_bound : Worker → ℕ → Envelope → Payload → String → String → ℕ → Worker
relay_bound w socket e (Payload.hello capabilities key) code id now =
    send
      (record w {
        share_codes = set code (from_id e) w.share_codes;
        socket_codes = set socket code w.socket_codes;
      })
      socket (reply e id now (Payload.hello_ack code))
relay_bound w socket e (Payload.pair_request session_code identity) code id now =
    pair_request w socket e session_code id now
relay_bound w socket e p code id now = w

-- The loop over the clients.
unfoldable pub send_others : Worker → List (String × ℕ) → Envelope → Worker
send_others w [] e = w
send_others w ((id, socket) ∷ cs) e =
    send_others (if id == from_id e then w else send w socket e) cs e

unfoldable pub route : Worker → ℕ → Envelope → Destination → String → String → ℕ → Worker
route w socket e relay code id now = relay_bound w socket e e.payload code id now
route w socket e (peer user device) code id now = send_to w (get (id_of user device) w.clients) e
route w socket e broadcast code id now = send_others w w.clients e

unfoldable pub handle_envelope : Worker → ℕ → Envelope → String → String → ℕ → Worker
handle_envelope w socket e code id now =
    route (register w socket (from_id e)) socket e e.to code id now

-- The handler of `message`; `none` is an envelope that `decode` refuses.
unfoldable pub on_message : Worker → ℕ → String → Option Envelope → String → String → ℕ → Worker
on_message w socket ip e code id now =
    let (allowed, w') = check_rate_limit w ip now in
    if allowed
    then elim e [ none ↦ w' | some e' ↦ handle_envelope w' socket e' code id now ]
    else w'

abbrev pub forget_id : Worker → ℕ → Option String → Worker
forget_id w socket none = w
forget_id w socket (some id) =
    if id == ""
    then w
    else record w { clients = delete id w.clients; socket_ids = delete socket w.socket_ids }

abbrev pub forget_code : Worker → ℕ → Option String → Worker
forget_code w socket none = w
forget_code w socket (some code) = if code == "" then w else record w {
  share_codes = delete code w.share_codes;
  socket_codes = delete socket w.socket_codes;
}

-- The handler of `close`.
unfoldable pub on_close : Worker → ℕ → Worker
on_close w socket =
    let w' = forget_id w socket (get socket w.socket_ids) in
    forget_code w' socket (get socket w'.socket_codes)

-- What can happen to the worker.
pub data Event : Type 0 where
  connects closes : ℕ → Event
  receives : ℕ → String → Option Envelope → String → String → ℕ → Event

unfoldable pub handle : Worker → Event → Worker
handle w (connects socket) = record w {
  open_sockets = λ k. if k == socket then true else w.open_sockets k;
}
handle w (closes socket) =
    on_close (record w { open_sockets = λ k. if k == socket then false else w.open_sockets k })
      socket
handle w (receives socket ip e code id now) = on_message w socket ip e code id now

unfoldable pub handle_all : Worker → List Event → Worker
handle_all w [] = w
handle_all w (e ∷ es) = handle_all (handle w e) es
