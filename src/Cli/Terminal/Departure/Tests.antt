-- ===== src/Cli/Terminal/Departure/Tests.antt =====
-- apps/server/src/main.ts with apps/cli/src/terminal: the theorem at a session that one end leaves.
use tbridge.Base.{
  ◌≡◌, ◌++◌, refl, true, none, some, [], ◌∷◌, get, set, nat_eq, string_eq, arith, if◌then◌else◌,
  ◌==◌,
}
use tbridge.Protocol.{PeerIdentity}
use tbridge.Protocol.Legacy.{ServerMessage}
use tbridge.Crypto.Toy.{toy}
use tbridge.Server.RateLimiter.{new_rate_limiter}
use tbridge.Server.SessionManager.{RelayRoom, active, get_room, new_session_manager}
use tbridge.Server.Relay.{Relay, sent, on_close}
use tbridge.Cli.Terminal.Sockets.{Encoding}
use tbridge.Cli.Terminal.Guest
use tbridge.Cli.Terminal.Host
use tbridge.Cli.Terminal.Departure.{departure_ends_both}

abbrev any_text : Encoding toy
any_text = record { to_text = λ s. 1; of_text = λ t. "x" }

abbrev dave : PeerIdentity
dave = record { user_id = "dave"; device_id = "d1"; device_name = "desk"; public_key = "pd" }

abbrev shared_room : RelayRoom
shared_room = record {
  code = "123-456";
  created_at = 0;
  expires_at = 1000;
  state = active;
  host = record { socket = 1; identity = dave };
  guest = some (record { socket = 2; identity = dave });
  session_id = some "s";
}

abbrev sharing : Relay
sharing = record {
  sessions = record (new_session_manager 1000) {
    heap = λ r. if r == 0 then some shared_room else none;
    next = 1;
    by_code = ("123-456", 0) ∷ [];
    by_socket = (1, 0) ∷ (2, 0) ∷ [];
    by_session = ("s", 0) ∷ [];
  };
  start_times = [];
  grace_timers = [];
  timers = [];
  next_timer = 0;
  socket_ips = [];
  connection_limiter = new_rate_limiter 10 1000;
  registration_limiter = new_rate_limiter 10 1000;
  message_limiter = new_rate_limiter 10 1000;
  open_sockets = λ k. true;
  attached = [];
  out = [];
}

abbrev staying_guest : Guest.Guest toy any_text
staying_guest = Guest.new_guest toy any_text "123-456" dave 80 24

abbrev staying_host : Host.Host toy any_text
staying_host = Host.new_host toy any_text "123-456" dave

departure_ends_both_example :
    (m : ServerMessage) × ((on_close sharing 2).out ≡ [] ++ sent 1 m ∷ [])
    × ((Guest.handle_all toy any_text staying_guest
          (Guest.receives 0 m 3 ∷ Guest.waited 0 ∷ [])).is_closed
        ≡ true)
    × ((Guest.handle_all toy any_text staying_guest
          (Guest.receives 0 m 3 ∷ Guest.waited 0 ∷ [])).next_socket
        ≡ 1)
    × ((Host.handle_all toy any_text staying_host
          (Host.receives 0 m 3 ∷ Host.waited 0 ∷ [])).is_closed
        ≡ true)
    × ((Host.handle_all toy any_text staying_host
          (Host.receives 0 m 3 ∷ Host.waited 0 ∷ [])).next_socket
        ≡ 1)
unfolding get_room new_session_manager get Guest.new_guest Guest.connect_socket Host.new_host
    Host.connect_socket set
departure_ends_both_example =
    departure_ends_both toy any_text sharing 2 1 0 shared_room staying_guest staying_host 0 3
      (Guest.waited 0 ∷ []) (Host.waited 0 ∷ []) refl refl refl refl (omega arith) refl refl refl
      refl refl
