-- ===== src/Cli/Terminal/Departure.antt =====
-- apps/server/src/main.ts with the two commands of apps/cli/src/terminal: what the relay tells the
-- end that stays, where the other has gone, and what that makes of it.
mod Tests
use tbridge.Base.{
  ℕ, ◌++◌, ◌≡◌, ◌≢◌, refl, sym, ap, ◌∙◌, true, false, some, List, [], ◌∷◌, get, nat_eq, string_eq,
  arith, is_some, Bool-cases, Option-cases, if_both, String, delete, set,
}
use tbridge.Protocol.Legacy.{ServerMessage}
use tbridge.Crypto.{Primitives}
use tbridge.Server.SessionManager.{RelayRoom, is_active, truthy, other_socket, get_room}
use tbridge.Server.Relay.{
  Relay, Effect, sent, send, send_to, start_grace, handle_disconnect, on_close,
}
use tbridge.Cli.Terminal.Sockets.{Encoding}
use tbridge.Cli.Terminal.Guest
use tbridge.Cli.Terminal.Guest.Reconnecting.{handle_all-Over}
use tbridge.Cli.Terminal.Host
use tbridge.Cli.Terminal.Host.Ending.{host_all-Over}

abbrev notice : ServerMessage
notice = ServerMessage.session_terminate (some "peer disconnected (may reconnect)")

on_close-notice :
    (s : Relay) (k j r : ℕ) (room : RelayRoom)
    → get_room s.sessions k ≡ some (r, room)
    → is_active room.state ≡ true
    → truthy room.session_id ≡ true
    → other_socket room k ≡ some j
    → j ≢ k
    → s.open_sockets j ≡ true
    → (on_close s k).out ≡ s.out ++ sent j notice ∷ []
unfolding on_close handle_disconnect start_grace send
on_close-notice s k j r room e a t o ne open_j = ground arith

module _ (N : Primitives) (E : Encoding N) where
  guest_told :
      (g : Guest.Guest N E) (i : ℕ) (key : N.PrivateKey)
      → g.crashed ≡ false
      → is_some (get i g.sockets) ≡ true
      → ((Guest.handle N E g (Guest.receives i notice key)).is_closed ≡ true)
        × ((Guest.handle N E g (Guest.receives i notice key)).next_socket ≡ g.next_socket)
  unfolding Guest.handle Guest.react Guest.on_message Guest.close
  guest_told g i key c h = ground arith

  host_told :
      (g : Host.Host N E) (i : ℕ) (key : N.PrivateKey)
      → g.crashed ≡ false
      → is_some (get i g.sockets) ≡ true
      → ((Host.handle N E g (Host.receives i notice key)).is_closed ≡ true)
        × ((Host.handle N E g (Host.receives i notice key)).next_socket ≡ g.next_socket)
  unfolding Host.handle Host.react Host.on_message Host.close
  host_told g i key c h = ground arith

  -- A closed socket marks the other end as closed for good. When the socket of one end of an active
  -- session with an id closes, the relay sends the other end, if it is open, one message. A guest
  -- that gets it on a socket to which it listens, and a host likewise, sets `isClosed`, and through
  -- any events afterwards it stays set and the end opens no socket: it never reconnects itself.
  pub departure_ends_both :
      (s : Relay) (k j r : ℕ) (room : RelayRoom) (g : Guest.Guest N E) (h : Host.Host N E) (i : ℕ)
      (key : N.PrivateKey) (es : List (Guest.Event N E)) (fs : List (Host.Event N E))
      → get_room s.sessions k ≡ some (r, room)
      → is_active room.state ≡ true
      → truthy room.session_id ≡ true
      → other_socket room k ≡ some j
      → j ≢ k
      → s.open_sockets j ≡ true
      → g.crashed ≡ false
      → is_some (get i g.sockets) ≡ true
      → h.crashed ≡ false
      → is_some (get i h.sockets) ≡ true
      → (m : ServerMessage) × ((on_close s k).out ≡ s.out ++ sent j m ∷ [])
        × ((Guest.handle_all N E g (Guest.receives i m key ∷ es)).is_closed ≡ true)
        × ((Guest.handle_all N E g (Guest.receives i m key ∷ es)).next_socket ≡ g.next_socket)
        × ((Host.handle_all N E h (Host.receives i m key ∷ fs)).is_closed ≡ true)
        × ((Host.handle_all N E h (Host.receives i m key ∷ fs)).next_socket ≡ h.next_socket)
  unfolding Guest.handle_all Host.handle_all
  departure_ends_both s k j r room g h i key es fs e a t o ne open_j cg sg ch sh =
      let (over_g, same_g) = guest_told g i key cg sg in
      let (over_h, same_h) = host_told h i key ch sh in
      let (end_g, stay_g) =
        handle_all-Over N E (Guest.handle N E g (Guest.receives i notice key)) es over_g in
      let (end_h, stay_h) =
        host_all-Over N E (Host.handle N E h (Host.receives i notice key)) fs over_h in
      (
        notice,
        on_close-notice s k j r room e a t o ne open_j,
        end_g,
        stay_g ∙ same_g,
        end_h,
        stay_h ∙ same_h,
      )
