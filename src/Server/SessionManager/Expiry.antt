-- ===== src/Server/SessionManager/Expiry.antt =====
-- apps/server/src/session-manager.ts: what `expireRooms` removes and what it leaves.
use tbridge.Base.{
  ℕ, ◌≡◌, inl, inr, String, true, false, Option, none, some, List, [], ◌∷◌, leb, if◌then◌else◌, get,
  ◌==◌, nat_eq, string_eq, get-delete, Unique, Unique-listed, All, All-imp, arith, Bool-cases,
  Option-cases,
}
use tbridge.Server.SessionManager.{
  RelayRoom, SessionManager, is_expired, expire_one, expire_all, expire_rooms,
}
use tbridge.Server.SessionManager.Invariant.{IsValid, CodeOk}

-- A code that is free stays free while rooms expire.
expire_one-free :
    (m : SessionManager) (now r : ℕ) (c : String)
    → get c m.by_code ≡ none
    → get c (expire_one now m r).0.by_code ≡ none
unfolding expire_one
expire_one-free m now r c h = elim (Option-cases (m.heap r)) [
  | inl e ↦ ground arith
  | inr (room, e) ↦ ground (arith, get-delete room.code c m.by_code)
]

expire_all-free :
    (m : SessionManager) (now : ℕ) (es : List (String × ℕ)) (c : String)
    → get c m.by_code ≡ none
    → get c (expire_all now m es).0.by_code ≡ none
unfolding expire_all
expire_all-free m now [] c h = h
expire_all-free m now ((k, r) ∷ es) c h =
    expire_all-free (expire_one now m r).0 now es c (expire_one-free m now r c h)

pub expire_rooms-free :
    (m : SessionManager) (now : ℕ) (c : String)
    → get c m.by_code ≡ none
    → get c (expire_rooms m now).0.by_code ≡ none
unfolding expire_rooms
expire_rooms-free m now c h = expire_all-free m now m.by_code c h

-- The room at hand carries the code and has expired.
abbrev Gone : ℕ → String → Option RelayRoom → Type 0
Gone now c none = ⊥
Gone now c (some room) = (room.code ≡ c) × (is_expired now room ≡ true)

expire_one-Gone :
    (m : SessionManager) (now r s : ℕ) (c : String)
    → Gone now c (m.heap r)
    → Gone now c ((expire_one now m s).0.heap r)
unfolding expire_one
expire_one-Gone m now r s c g = ground arith

expire_one-clears :
    (m : SessionManager) (now r : ℕ) (c : String)
    → Gone now c (m.heap r)
    → get c (expire_one now m r).0.by_code ≡ none
unfolding expire_one
expire_one-clears m now r c g = elim (Option-cases (m.heap r)) [
  | inl e ↦ absurd (ground arith)
  | inr (room, e) ↦ ground (arith, get-delete room.code c m.by_code, string_eq.same_iff room.code c)
]

expire_all-clears :
    (m : SessionManager) (now r : ℕ) (es : List (String × ℕ)) (c : String)
    → get c es ≡ some r
    → Gone now c (m.heap r)
    → get c (expire_all now m es).0.by_code ≡ none
unfolding expire_all get
expire_all-clears m now r [] c h g = cc
expire_all-clears m now r ((k, s) ∷ es) c h g = elim (Bool-cases (k == c)) [
  | inl e ↦
      let same : s ≡ r = ground arith in
      expire_all-free (expire_one now m s).0 now es c (rw same (expire_one-clears m now r c g))
  | inr e ↦
      expire_all-clears (expire_one now m s).0 now r es c (ground arith)
        (expire_one-Gone m now r s c g)
]

-- An entry of another room's, or of the room that is kept.
abbrev Apart : String → ℕ → String × ℕ → Type 0
Apart c r e = (e.0 ≡ c) → (e.1 ≡ r)

abbrev Keyed : String → Option RelayRoom → Type 0
Keyed k none = Unit {0}
Keyed k (some room) = room.code ≡ k

expire_one-Keyed :
    (m : SessionManager) (now s r : ℕ) (k : String)
    → Keyed k (m.heap r)
    → Keyed k ((expire_one now m s).0.heap r)
unfolding expire_one
expire_one-Keyed m now s r k h = ground arith

expire_one-keeps :
    (m : SessionManager) (now r s : ℕ) (k c : String) (room : RelayRoom)
    → m.heap r ≡ some room
    → is_expired now room ≡ false
    → get c m.by_code ≡ some r
    → (k ≡ c → s ≡ r)
    → Keyed k (m.heap s)
    → ((expire_one now m s).0.heap r ≡ some room) × (get c (expire_one now m s).0.by_code ≡ some r)
unfolding expire_one
expire_one-keeps m now r s k c room y x h apart keyed = elim (Option-cases (m.heap s)) [
  | inl e ↦ ground arith
  | inr (other, e) ↦
      ground (arith, get-delete other.code c m.by_code, string_eq.same_iff other.code c)
]

expire_all-keeps :
    (m : SessionManager) (now r : ℕ) (es : List (String × ℕ)) (c : String) (room : RelayRoom)
    → m.heap r ≡ some room
    → is_expired now room ≡ false
    → get c m.by_code ≡ some r
    → All (Apart c r) es
    → All (λ e. Keyed e.0 (m.heap e.1)) es
    → get c (expire_all now m es).0.by_code ≡ some r
unfolding expire_all
expire_all-keeps m now r [] c room y x h apart keyed = h
expire_all-keeps m now r ((k, s) ∷ es) c room y x h apart keyed =
    let (y', h') = expire_one-keeps m now r s k c room y x h apart.0 keyed.0 in
    expire_all-keeps (expire_one now m s).0 now r es c room y' x h' apart.1 (
      All-imp (λ e. Keyed e.0 (m.heap e.1)) _ es
        (λ (e : String × ℕ) (q : Keyed e.0 (m.heap e.1)). expire_one-Keyed m now s e.1 e.0 q)
        keyed.1)

Keyed-of_CodeOk : (c : String) (o : Option RelayRoom) → CodeOk c o → Keyed c o
Keyed-of_CodeOk c none h = tt
Keyed-of_CodeOk c (some room) h = h.0

-- In a valid manager without two entries for one code, `expireRooms` at `now` frees the codes of the
-- rooms whose time has come, and leaves every other code as it was.
pub expire_rooms_exact :
    (m : SessionManager) (now r : ℕ) (c : String) (room : RelayRoom)
    → IsValid m
    → Unique m.by_code
    → get c m.by_code ≡ some r
    → m.heap r ≡ some room
    → get c (expire_rooms m now).0.by_code ≡ (if leb room.expires_at now then none else some r)
unfolding expire_rooms
expire_rooms_exact m now r c room v u h y = elim (Bool-cases (leb room.expires_at now)) [
  | inl x ↦ rw x (expire_all-clears m now r m.by_code c h (ground (arith, v.codes c r h)))
  | inr x ↦ rw x (
      expire_all-keeps m now r m.by_code c room y (ground arith) h
        (All-imp (λ e. get e.0 m.by_code ≡ some e.1) (Apart c r) m.by_code
          (λ (e : String × ℕ) (q : get e.0 m.by_code ≡ some e.1) p. ground arith)
          (Unique-listed m.by_code u))
        (All-imp (λ e. get e.0 m.by_code ≡ some e.1) (λ e. Keyed e.0 (m.heap e.1)) m.by_code
          (λ (e : String × ℕ) (q : get e.0 m.by_code ≡ some e.1).
            Keyed-of_CodeOk e.0 (m.heap e.1) (v.codes e.0 e.1 q))
          (Unique-listed m.by_code u)))
]
