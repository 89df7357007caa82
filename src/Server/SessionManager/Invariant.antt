-- ===== src/Server/SessionManager/Invariant.antt =====
-- apps/server/src/session-manager.ts: what holds of the rooms and the maps between two calls.
use tbridge.Base.{
  Keyed, ℕ, ◌≤◌, ◌≡◌, refl, ◌⊎◌, inl, inr, String, Bool, true, false, Option, none, some, List,
  if◌then◌else◌, get, delete, is_some, ◌==◌, nat_eq, string_eq, get-set, get-delete, arith,
  Option-cases,
}
use tbridge.Server.SessionManager.{
  RelayState, waiting, pending, active, ended, RelayPeer, RelayRoom, SessionManager, or_blank,
  socket_of, update, follow, drop_session, drop_guest, move_socket, new_session_manager,
}

-- A code leads to a room that still carries it and that nobody has approved or ended.
abbrev pub CodeOk : String → Option RelayRoom → Type 0
CodeOk c none = ⊥
CodeOk c (some room) = (room.code ≡ c) × ((room.state ≡ waiting) ⊎ (room.state ≡ pending))

-- A session id leads to the room that was approved under it.
abbrev pub SessionOk : String → Option RelayRoom → Type 0
SessionOk s none = ⊥
SessionOk s (some room) =
    (room.session_id ≡ some s) × ((room.state ≡ active) ⊎ (room.state ≡ ended))

-- A socket leads to a room in which it is the host's or the guest's.
abbrev pub MemberOk : ℕ → Option RelayRoom → Type 0
MemberOk k none = ⊥
MemberOk k (some room) = (room.host.socket ≡ k) ⊎ (socket_of room.guest ≡ some k)

-- What a room holds in each state.
abbrev pub StateOk : RelayState → RelayRoom → Type 0
StateOk waiting room = (room.guest ≡ none) × (room.session_id ≡ none)
StateOk pending room = (is_some room.guest ≡ true) × (room.session_id ≡ none)
StateOk active room = (is_some room.guest ≡ true) × (is_some room.session_id ≡ true)
StateOk ended room = Unit {0}

abbrev pub ShapeOk : Option RelayRoom → Type 0
ShapeOk none = Unit {0}
ShapeOk (some room) = StateOk room.state room

pub record IsValid (m : SessionManager) : Type 0 where
  pub codes : (c : String) (r : ℕ) → get c m.by_code ≡ some r → CodeOk c (m.heap r)
  pub sessions : (s : String) (r : ℕ) → get s m.by_session ≡ some r → SessionOk s (m.heap r)
  pub members : (k r : ℕ) → get k m.by_socket ≡ some r → MemberOk k (m.heap r)
  pub shapes : (r : ℕ) → ShapeOk (m.heap r)
  pub fresh : (r : ℕ) → m.next ≤ r → m.heap r ≡ none

pub new_session_manager-IsValid : (ttl : ℕ) → IsValid (new_session_manager ttl)
unfolding new_session_manager get
new_session_manager-IsValid ttl = record {
  codes = λ c r e. cc;
  sessions = λ s r e. cc;
  members = λ k r e. cc;
  shapes = λ r. tt;
  fresh = λ r h. refl;
}

pub get-delete_sub :
    {K : Type 0} ⦃e : Keyed K⦄ (k j : K) (l : List (K × ℕ)) (r : ℕ)
    → get j (delete k l) ≡ some r
    → get j l ≡ some r
get-delete_sub ⦃e⦄ k j l r h = ground (arith, get-delete k j l)

pub get-drop_session_sub :
    (o : Option String) (s : String) (l : List (String × ℕ)) (r : ℕ)
    → get s (drop_session o l) ≡ some r
    → get s l ≡ some r
get-drop_session_sub o s l r h = ground (arith, get-delete (or_blank o) s l)

pub get-drop_guest_sub :
    (o : Option RelayPeer) (k : ℕ) (l : List (ℕ × ℕ)) (r : ℕ)
    → get k (drop_guest o l) ≡ some r
    → get k l ≡ some r
get-drop_guest_sub none k l r h = h
get-drop_guest_sub (some p) k l r h = ground (arith, get-delete p.socket k l)

module _ {m : SessionManager} (v : IsValid m) (r : ℕ) (room : RelayRoom)
    (e : m.heap r ≡ some room) where
  -- A room ends, and its code goes. Entries of the other maps go, and none comes.
  pub close-IsValid :
      (room' : RelayRoom) (sockets : List (ℕ × ℕ)) (ids : List (String × ℕ))
      → room'.state ≡ ended
      → room'.session_id ≡ room.session_id
      → ((k s : ℕ) → get k sockets ≡ some s → get k m.by_socket ≡ some s)
      → ((k : ℕ) → get k sockets ≡ some r → MemberOk k (some room) → MemberOk k (some room'))
      → ((i : String) (s : ℕ) → get i ids ≡ some s → get i m.by_session ≡ some s)
      → IsValid (record m {
        heap = update m.heap r room';
        by_code = delete room.code m.by_code;
        by_socket = sockets;
        by_session = ids;
      })
  close-IsValid room' sockets ids st same sub stay subs = record {
    codes = λ c s h.
        ground
          (arith, v.codes c s, get-delete room.code c m.by_code, string_eq.same_iff room.code c);
    sessions = λ i s h. ground (arith, v.sessions i s, subs i s h);
    members = λ k s h. ground (arith, v.members k s, sub k s h, stay k);
    shapes = λ s. ground (arith, v.shapes s);
    fresh = λ s h. ground (arith, v.fresh s);
  }

  -- A room stays as far as it is, and its peers or their sockets change.
  pub move-IsValid :
      (room' : RelayRoom) (sockets : List (ℕ × ℕ))
      → room.state ≡ active
      → room'.state ≡ active
      → room'.session_id ≡ room.session_id
      → room'.code ≡ room.code
      → is_some room'.guest ≡ is_some room.guest
      → ((k s : ℕ) → get k sockets ≡ some s → (s ≡ r → ⊥) → get k m.by_socket ≡ some s)
      → ((k : ℕ) → get k sockets ≡ some r → MemberOk k (some room'))
      → IsValid (record m { heap = update m.heap r room'; by_socket = sockets })
  move-IsValid room' sockets was st same code guest sub stay = record {
    codes = λ c s h. ground (arith, v.codes c s, v.shapes r);
    sessions = λ i s h. ground (arith, v.sessions i s);
    members = λ k s h. ground (arith, v.members k s, sub k s h, stay k);
    shapes = λ s. ground (arith, v.shapes s);
    fresh = λ s h. ground (arith, v.fresh s);
  }

pub follow-cases :
    (h : ℕ → Option RelayRoom) (o : Option ℕ)
    → (follow h o ≡ none)
      ⊎ ((r : ℕ) × (room : RelayRoom) × (o ≡ some r)
          × (h r ≡ some room)
          × (follow h o ≡ some (r, room)))
follow-cases h none = inl refl
follow-cases h (some r) = elim (Option-cases (h r)) [
  | inl e ↦ inl (rw (e, follow))
  | inr (room, e) ↦ inr (r, room, refl, e, rw (e, follow))
]

abbrev pub at : Option ℕ → ℕ → Bool
at none k = false
at (some s) k = s == k

pub get-move_socket :
    (o : Option ℕ) (socket r k : ℕ) (l : List (ℕ × ℕ))
    → get k (move_socket o socket r l)
      ≡ (if socket == k then some r else if at o k then none else get k l)
get-move_socket none socket r k l = get-set socket k r l
get-move_socket (some old) socket r k l =
    ground (arith, get-set socket k r (delete old l), get-delete old k l)
