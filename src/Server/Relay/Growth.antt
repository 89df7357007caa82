-- ===== src/Server/Relay/Growth.antt =====
-- apps/server/src/main.ts: how the relay's output grows.
use tbridge.Base.{
  ℕ, ◌++◌, ◌≡◌, refl, sym, ◌∙◌, ap, ◌⊎◌, inl, inr, String, Option, none, some, List, [], ◌∷◌, get,
  nat_eq, string_eq, arith, Bool-cases, Option-cases, All, All-append,
}
use tbridge.Protocol.Legacy.{ServerMessage}
use tbridge.Server.SessionManager.{
  RelayPeer, RelayRoom, SessionManager, Failure, Result, ok, err, socket_of, approve, reject,
}
use tbridge.Server.Relay.{
  Effect, sent, closed, Relay, send, close, send_to, close_at, at_room, turn_away, announce,
  cancel_grace,
}
use mathlib.Core.List.{append-nil, append_assoc}
use tbridge.Server.SessionManager.Invariant.{MemberOk, follow-cases}

abbrev pub addressee : Effect → ℕ
addressee (sent k m) = k
addressee (closed k) = k

-- The second state has sent or closed more than the first, and only at sockets of which `P` holds.
pub record Grows (P : ℕ → Type 0) (s t : Relay) : Type 0 where
  pub effects : List Effect
  pub appended : t.out ≡ s.out ++ effects
  pub each : All (λ e. P (addressee e)) effects

module _ {P : ℕ → Type 0} {s t : Relay} (g : Grows P s t) where
  pub Grows-by : (u : Relay) (e : Effect) → u.out ≡ t.out ++ e ∷ [] → P (addressee e) → Grows P s u
  Grows-by u e h k = record {
    effects = g.effects ++ e ∷ [];
    appended = h ∙ ap (λ l. l ++ e ∷ []) g.appended ∙ append_assoc s.out g.effects (e ∷ []);
    each = All-append (λ x. P (addressee x)) g.effects (e ∷ []) g.each (k, tt);
  }

  pub Grows-same : (u : Relay) → u.out ≡ t.out → Grows P s u
  Grows-same u h = record { effects = g.effects; appended = h ∙ g.appended; each = g.each }

  pub Grows-send : (k : ℕ) (m : ServerMessage) → P k → Grows P s (send t k m)
  unfolding send
  Grows-send k m h = elim (Bool-cases (t.open_sockets k)) [
    | inl x ↦ rw (x, send) (Grows-by _ (sent k m) refl h)
    | inr x ↦ rw (x, send) g
  ]

  pub Grows-close : (k : ℕ) → P k → Grows P s (close t k)
  unfolding close
  Grows-close k h = Grows-by (close t k) (closed k) refl h

pub Grows-refl : {P : ℕ → Type 0} (s : Relay) (t : Relay) → t.out ≡ s.out → Grows P s t
Grows-refl s t e = record { effects = []; appended = e ∙ sym (append-nil s.out); each = tt }

module _ {P : ℕ → Type 0} {s t : Relay} (g : Grows P s t) where
  pub Grows-turn_away : (k : ℕ) (text : String) → P k → Grows P s (turn_away t k text)
  Grows-turn_away k text h = Grows-close (Grows-send g k (ServerMessage.error text) h) k h

  pub Grows-announce :
      (room : RelayRoom) (id : String)
      → P room.host.socket
      → ((p : RelayPeer) → room.guest ≡ some p → P p.socket)
      → Grows P s (announce t room id)
  unfolding announce
  Grows-announce room id h k = elim (Option-cases room.guest) [
    | inl x ↦ rw (x, announce) g
    | inr (p, x) ↦
        rw (x, announce)
          (Grows-send
            (Grows-send (Grows-send (Grows-send g room.host.socket _ h) p.socket _ (k p x))
              room.host.socket _ h)
            p.socket _ (k p x))
  ]

-- Both sockets sit in one room.
abbrev pub Together : SessionManager → ℕ → ℕ → Type 0
Together m k j = (r : ℕ) × MemberOk k (m.heap r) × MemberOk j (m.heap r)

-- The sender of a message, and those who sit in a room with it.
abbrev pub Concerned : SessionManager → ℕ → ℕ → Type 0
Concerned m k j = (j ≡ k) ⊎ Together m k j

pub Result-cases {ℓ} :
    {A : Type ℓ} (x : Result A) → ((f : Failure) × (x ≡ err f)) ⊎ ((a : A) × (x ≡ ok a))
Result-cases (err f) = inl (f, refl)
Result-cases (ok a) = inr (a, refl)

pub host-sits : (k : ℕ) (room : RelayRoom) → room.host.socket ≡ k → MemberOk k (some room)
host-sits k room h = inl h

pub guest-sits :
    (room : RelayRoom) (p : RelayPeer) → room.guest ≡ some p → MemberOk p.socket (some room)
guest-sits room p h = inr (ap socket_of h)

pub seated :
    (m : SessionManager) (k j r : ℕ) (room : RelayRoom)
    → m.heap r ≡ some room
    → MemberOk k (some room)
    → MemberOk j (some room)
    → Concerned m k j
seated m k j r room y h g = inr (r, rw y h, rw y g)

-- The room of an approval or a refusal is the caller's.
pub approve-host :
    (m : SessionManager) (k r : ℕ) (uuid id : String) (room : RelayRoom)
    → (approve m k uuid).0 ≡ ok (r, id)
    → (approve m k uuid).1.heap r ≡ some room
    → room.host.socket ≡ k
unfolding approve
approve-host m k r uuid id room h y = elim (follow-cases m.heap (get k m.by_socket)) [
  | inl e ↦ ground arith
  | inr (r', other, x, y', e) ↦ ground arith
]

pub reject-host :
    (m : SessionManager) (k r : ℕ) (id : String) (room : RelayRoom)
    → (reject m k).0 ≡ ok (r, id)
    → (reject m k).1.heap r ≡ some room
    → room.host.socket ≡ k
unfolding reject
reject-host m k r id room h y = elim (follow-cases m.heap (get k m.by_socket)) [
  | inl e ↦ ground arith
  | inr (r', other, x, y', e) ↦ ground arith
]

pub Grows-at_room :
    {P : ℕ → Type 0} {s : Relay} (t : Relay) (r : ℕ) (f : RelayRoom → Relay)
    → Grows P s t
    → ((room : RelayRoom) → t.sessions.heap r ≡ some room → Grows P s (f room))
    → Grows P s (at_room t r f)
Grows-at_room t r f g h = elim (Option-cases (t.sessions.heap r)) [
  | inl e ↦ rw (e, at_room) g
  | inr (room, e) ↦ rw (e, at_room) (h room e)
]

pub Grows-send_to :
    {P : ℕ → Type 0} {s t : Relay}
    → Grows P s t
    → (o : Option ℕ) (m : ServerMessage) → ((k : ℕ) → o ≡ some k → P k)
    → Grows P s (send_to t o m)
Grows-send_to g none m h = g
Grows-send_to g (some k) m h = Grows-send g k m (h k refl)

pub Grows-close_at :
    {P : ℕ → Type 0} {s t : Relay}
    → Grows P s t
    → (o : Option ℕ) → ((k : ℕ) → o ≡ some k → P k)
    → Grows P s (close_at t o)
Grows-close_at g none h = g
Grows-close_at g (some k) h = Grows-close g k (h k refl)

pub out-cancel_grace : (s : Relay) (id : String) → (cancel_grace s id).out ≡ s.out
unfolding cancel_grace
out-cancel_grace s id = ground arith
