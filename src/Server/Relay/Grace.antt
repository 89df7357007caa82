-- ===== src/Server/Relay/Grace.antt =====
-- apps/server/src/main.ts: the grace period of a session whose end has gone.
use tbridge.Base.{
  ℕ, ◌≡◌, ◌∙◌, ap, ◌≢◌, String, Bool, true, false, Option, none, some, List, get, delete, nat_eq,
  string_eq, get-delete, arith,
}
use tbridge.Protocol.{PeerIdentity}
use tbridge.Protocol.Legacy.{ServerMessage}
use tbridge.Server.SessionManager.{
  active, ended, RelayPeer, RelayRoom, SessionManager, ok, is_active, get_room, reconnect,
  release_socket, move_socket, drop_guest,
}
use tbridge.Server.Relay.{
  Timer, Relay, send, close, with_sessions, cancel_grace, handle_reconnect, cleanup_room, on_timer,
  fires, handle,
}
use tbridge.Server.SessionManager.Invariant.{IsValid, MemberOk, get-move_socket}
use tbridge.Server.SessionManager.Lifecycle.{is_active_at}
use tbridge.Server.Relay.Calls.{sessions-handle_reconnect}

abbrev pub is_ended_at : Option RelayRoom → Bool
is_ended_at none = false
is_ended_at (some room) = elim room.state [ ended ↦ true | _ ↦ false ]

get-drop_guest-none :
    (o : Option RelayPeer) (k : ℕ) (l : List (ℕ × ℕ))
    → get k l ≡ none
    → get k (drop_guest o l) ≡ none
get-drop_guest-none none k l h = h
get-drop_guest-none (some p) k l h = ground (arith, get-delete p.socket k l)

release_socket-ends :
    (m : SessionManager) (k r : ℕ) (room : RelayRoom)
    → get k m.by_socket ≡ some r
    → m.heap r ≡ some room
    → MemberOk k (some room)
    → room.state ≡ active
    → (is_ended_at ((release_socket m k).1.heap r) ≡ true)
      × (get k (release_socket m k).1.by_socket ≡ none)
unfolding release_socket
release_socket-ends m k r room x y o st =
    ground
      (arith, get-delete k k m.by_socket, get-drop_guest-none room.guest k (delete k m.by_socket))

cleanup_room-found :
    (s : Relay) (k r : ℕ) (room : RelayRoom) (id : Option String)
    → get_room s.sessions k ≡ some (r, room)
    → (cleanup_room s k id).sessions ≡ (release_socket s.sessions k).1
unfolding cleanup_room send close
cleanup_room-found s k r room id e = ground arith

on_timer-found :
    (s : Relay) (t : Timer) (r : ℕ) (room : RelayRoom)
    → t.room ≡ r
    → s.sessions.heap r ≡ some room
    → get_room s.sessions t.socket ≡ some (r, room)
    → (on_timer s t).sessions ≡ (release_socket s.sessions t.socket).1
unfolding on_timer
on_timer-found s t r room w y e =
    let s' : Relay = record s {
      timers = delete t.id s.timers;
      grace_timers = delete t.session s.grace_timers;
    } in
    ground (arith, cleanup_room-found s' t.socket r room room.session_id)

-- A grace period that nobody cuts short ends the session: when its timer fires, and the socket that
-- went is still registered in the active room, the room has ended and the socket is forgotten.
pub fires_ends :
    (s : Relay) (i r : ℕ) (t : Timer) (room : RelayRoom)
    → IsValid s.sessions
    → get i s.timers ≡ some t
    → t.room ≡ r
    → get t.socket s.sessions.by_socket ≡ some r
    → s.sessions.heap r ≡ some room
    → room.state ≡ active
    → (is_ended_at ((handle s (fires i)).sessions.heap r) ≡ true)
      × (get t.socket (handle s (fires i)).sessions.by_socket ≡ none)
unfolding handle get_room
fires_ends s i r t room v p w x y st =
    rw (p, handle, on_timer-found s t r room w y (unfold get_room in ground arith))
      (release_socket-ends s.sessions t.socket r room x y (rw y at (v.members t.socket r x)) st)

cleanup_room-gone :
    (s : Relay) (k : ℕ) (id : Option String)
    → get_room s.sessions k ≡ none
    → cleanup_room s k id ≡ s
unfolding cleanup_room
cleanup_room-gone s k id e = rw (e, cleanup_room)

-- A timer that fires for a socket which is registered no more, since its end has come back on
-- another, changes no room and reaches nobody.
pub fires_late :
    (s : Relay) (i : ℕ) (t : Timer)
    → get i s.timers ≡ some t
    → get t.socket s.sessions.by_socket ≡ none
    → ((handle s (fires i)).sessions ≡ s.sessions) × ((handle s (fires i)).out ≡ s.out)
unfolding handle on_timer cleanup_room get_room
fires_late s i t p x = ground arith

cancelled :
    (s : Relay) (id : String) (i : ℕ)
    → get id s.grace_timers ≡ some i
    → get i (cancel_grace s id).timers ≡ none
unfolding cancel_grace
cancelled s id i h = ground (arith, get-delete i i s.timers)

timers-send : (s : Relay) (k : ℕ) (m : ServerMessage) → (send s k m).timers ≡ s.timers
unfolding send
timers-send s k m = ground arith

idle_timer : (s : Relay) (i : ℕ) → get i s.timers ≡ none → handle s (fires i) ≡ s
unfolding handle
idle_timer s i h = rw (h, handle)

-- What `reconnect` does for the host of an active session.
reconnect-host :
    (m : SessionManager) (k r : ℕ) (id : String) (identity : PeerIdentity) (room : RelayRoom)
    → get id m.by_session ≡ some r
    → m.heap r ≡ some room
    → room.state ≡ active
    → room.host.identity.device_id ≡ identity.device_id
    → ((reconnect m k id identity).0 ≡ ok r)
      × ((reconnect m k id identity).1.heap r
          ≡ some (record room { host = record { socket = k; identity = identity } }))
      × ((reconnect m k id identity).1.by_socket
          ≡ move_socket (some room.host.socket) k r m.by_socket)
unfolding reconnect
reconnect-host m k r id identity room x y st dev =
    let same = string_eq.same_iff room.host.identity.device_id identity.device_id in
    (ground (arith, same), ground (arith, same), ground (arith, same))

timers-handle_reconnect :
    (s : Relay) (k r : ℕ) (id : String) (identity : PeerIdentity) (room : RelayRoom)
    → (reconnect s.sessions k id identity).0 ≡ ok r
    → (reconnect s.sessions k id identity).1.heap r ≡ some room
    → (handle_reconnect s k id identity).timers
      ≡ (cancel_grace (with_sessions s (reconnect s.sessions k id identity).1) id).timers
unfolding handle_reconnect send
timers-handle_reconnect s k r id identity room e y = ground arith

-- A reconnect cancels the timer that `graceTimers` holds for the session, whichever end it is for.
-- Where that timer is for the guest's socket, since the guest left last, it would have ended the
-- active room. If the host reconnects before, firing it does nothing any more, and after the
-- reconnect the room is active with the guest's old socket still registered in it.
pub reconnect_strands :
    (s : Relay) (k r i : ℕ) (id : String) (identity : PeerIdentity) (room : RelayRoom)
    (p : RelayPeer) (t : Timer)
    → IsValid s.sessions
    → get id s.sessions.by_session ≡ some r
    → s.sessions.heap r ≡ some room
    → room.state ≡ active
    → room.host.identity.device_id ≡ identity.device_id
    → room.guest ≡ some p
    → p.socket ≢ room.host.socket
    → p.socket ≢ k
    → get p.socket s.sessions.by_socket ≡ some r
    → get id s.grace_timers ≡ some i
    → get i s.timers ≡ some t
    → t.room ≡ r
    → t.socket ≡ p.socket
    → (is_ended_at ((handle s (fires i)).sessions.heap r) ≡ true)
      × (handle (handle_reconnect s k id identity) (fires i) ≡ handle_reconnect s k id identity)
      × (get p.socket (handle_reconnect s k id identity).sessions.by_socket ≡ some r)
      × (is_active_at ((handle_reconnect s k id identity).sessions.heap r) ≡ true)
reconnect_strands s k r i id identity room p t v x y st dev g ne nk reg h at_i w_r w_k =
    let (e, y', w) = reconnect-host s.sessions k r id identity room x y st dev in
    let s' : Relay = with_sessions s (reconnect s.sessions k id identity).1 in
    let done = sessions-handle_reconnect s k id identity in
    (
      (fires_ends s i r t room v at_i w_r (ap (λ j. get j s.sessions.by_socket) w_k ∙ reg) y st).0,
      idle_timer (handle_reconnect s k id identity) i
          (ap (get i) (timers-handle_reconnect s k r id identity _ e y') ∙ cancelled s' id i h),
      ap (λ m. get p.socket m.by_socket) done
          ∙ ap (get p.socket) w
          ∙ ground
              (arith, get-move_socket (some room.host.socket) k r p.socket s.sessions.by_socket),
      ap (λ m. is_active_at (m.heap r)) done ∙ ap is_active_at y' ∙ ap is_active st,
    )
