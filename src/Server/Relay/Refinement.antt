-- ===== src/Server/Relay/Refinement.antt =====
-- apps/server/src/main.ts over session-manager.ts: what the handlers do to the rooms.
use tbridge.Base.{
  ℕ, ◌≡◌, refl, sym, ◌∙◌, ap, ◌⊎◌, inl, inr, String, true, false, some, List, [], ◌∷◌,
  if◌then◌else◌, get, delete, ◌==◌, nat_eq, string_eq, arith, Option-cases,
}
use tbridge.Protocol.Legacy.{ClientMessage}
use tbridge.Server.SessionManager.{
  pending, RelayRoom, release_socket, expire_rooms, Call, approves, releases, expires, step,
}
use tbridge.Server.SessionManager.Invariant.{IsValid}
use tbridge.Server.SessionManager.Preservation.{step-IsValid}
use tbridge.Server.SessionManager.Lifecycle.{is_active_at, step-Approved}
use mathlib.Core.Bool.{false≢true}
use tbridge.Server.Relay.{
  Timer, Relay, send, close, with_sessions, decoded, on_connection, on_close, on_timer, on_sweep,
  Event, connects, receives, closes, fires, sweeps, handle, handle_all,
}
use tbridge.Server.Relay.Calls.{
  host, guest, consent, refusal, resumption, hang_up, timeout, sweep, Asks, Calls,
  sessions-cleanup_room, sessions-sweep_rooms, sessions-handle_disconnect, on_message-Calls,
}

pub sessions-on_connection :
    (s : Relay) (k : ℕ) (ip : String) (now : ℕ) → (on_connection s k ip now).sessions ≡ s.sessions
unfolding on_connection send close
sessions-on_connection s k ip now = ground arith

on_close-Calls : (s : Relay) (k : ℕ) → Calls s.timers (closes k) s.sessions (on_close s k).sessions
unfolding on_close step
on_close-Calls s k =
    elim (sessions-handle_disconnect
      (record s { open_sockets = λ j. if j == k then false else s.open_sockets j }) k) [
        | inl x ↦ inl x
        | inr x ↦ inr (releases k, hang_up, x)
      ]

pub sessions-on_timer :
    (s : Relay) (t : Timer)
    → ((on_timer s t).sessions ≡ s.sessions)
      ⊎ ((on_timer s t).sessions ≡ (release_socket s.sessions t.socket).1)
unfolding on_timer
sessions-on_timer s t = elim (Option-cases (s.sessions.heap t.room)) [
  | inl x ↦ inl (ground arith)
  | inr (room, x) ↦
      let s' = record s {
        timers = delete t.id s.timers;
        grace_timers = delete t.session s.grace_timers;
      } in
      ground (arith, sessions-cleanup_room s' t.socket room.session_id)
]

-- Each event of the relay is no call of the session manager, or one, and then the one that the event
-- asks for, which for a timer that fires is the release of the socket that the timer was set for: the
-- handlers change the rooms in no other way.
pub handle-Calls : (s : Relay) (e : Event) → Calls s.timers e s.sessions (handle s e).sessions
unfolding handle on_sweep step
handle-Calls s (connects k ip now) = inl (sessions-on_connection s k ip now)
handle-Calls s (receives k m uuid now) = elim (Option-cases (get k s.attached)) [
  | inl x ↦ rw (x, handle) (inl refl)
  | inr (ip, x) ↦ rw (x, handle) (on_message-Calls s k m ip uuid now)
]
handle-Calls s (closes k) = elim (Option-cases (get k s.attached)) [
  | inl x ↦ rw (x, handle) (inl refl)
  | inr (ip, x) ↦ rw (x, handle) (on_close-Calls s k)
]
handle-Calls s (fires t) = elim (Option-cases (get t s.timers)) [
  | inl x ↦ rw (x, handle) (inl refl)
  | inr (timer, x) ↦
      rw (x, handle)
        (elim (sessions-on_timer s timer) [
          | inl y ↦ inl y
          | inr y ↦ inr (releases timer.socket, timeout x, y)
        ])
]
handle-Calls s (sweeps now) = inr (
  expires now,
  sweep,
  sessions-sweep_rooms (with_sessions s (expire_rooms s.sessions now).0)
      (expire_rooms s.sessions now).1,
)

-- Through any history of events the rooms and the maps stay valid.
pub handle_all-IsValid :
    (s : Relay) (es : List Event) → IsValid s.sessions → IsValid (handle_all s es).sessions
unfolding handle_all
handle_all-IsValid s [] v = v
handle_all-IsValid s (e ∷ es) v =
    handle_all-IsValid (handle s e) es
      (elim (handle-Calls s e) [ inl x ↦ rw x v | inr (c, a, x) ↦ rw x (step-IsValid c v) ])

Asks-approves :
    {l : List (ℕ × Timer)} {e : Event} {c : Call} {k : ℕ} {uuid : String}
    → Asks l e c
    → c ≡ approves k uuid
    → (now : ℕ) × (e ≡ receives k (decoded ClientMessage.access_approved) uuid now)
Asks-approves host h = cc
Asks-approves guest h = cc
Asks-approves (consent {k = j} {now} {uuid = u}) h = (now, cc)
Asks-approves refusal h = cc
Asks-approves resumption h = cc
Asks-approves hang_up h = cc
Asks-approves (timeout x) h = cc
Asks-approves sweep h = cc

-- No terminal is shared without its owner's consent: an event after which a room is active that was
-- not active before is the message ACCESS_APPROVED, it comes on the socket of that room's host, and
-- the room was pending.
pub handle_consent :
    (s : Relay) (e : Event) (r : ℕ)
    → is_active_at (s.sessions.heap r) ≡ false
    → is_active_at ((handle s e).sessions.heap r) ≡ true
    → (room : RelayRoom) × (uuid : String) × (now : ℕ) × (s.sessions.heap r ≡ some room)
      × (room.state ≡ pending)
      × (e ≡ receives room.host.socket (decoded ClientMessage.access_approved) uuid now)
handle_consent s e r before after = elim (handle-Calls s e) [
  | inl x ↦ absurd (false≢true (sym before ∙ ap (λ m. is_active_at (m.heap r)) (sym x) ∙ after))
  | inr (c, a, x) ↦
      let (room, uuid, y, st, q) =
        step-Approved s.sessions c r before (ap (λ m. is_active_at (m.heap r)) (sym x) ∙ after) in
      let (now, w) = Asks-approves a q in (room, uuid, now, y, st, w)
]
