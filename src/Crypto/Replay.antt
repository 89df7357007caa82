-- ===== src/Crypto/Replay.antt =====
-- packages/crypto/src/index.ts: replayed and forged chunks.
use tbridge.Base.{ℕ, ◌≤◌, ◌≡◌, ◌⊎◌, inl, inr, true, List, [], ◌∷◌, length, nat_eq, arith}
use tbridge.Crypto.{
  Primitives, EncryptedChunk, replay, unauthentic, returns, throws, not_above, counter_of,
  SessionCipher, decrypt_bytes, decrypt, decrypt_all,
}

-- The counter that a chunk shows.
abbrev pub shown : (N : Primitives) → EncryptedChunk → ℕ
shown N k = counter_of (N.from_base64 k.nonce)

-- The chunk has a nonce and a tag of the right length.
abbrev pub WellSized : Primitives → EncryptedChunk → Type 0
WellSized N k = (length (N.from_base64 k.nonce) ≡ 12) × (16 ≤ length (N.from_base64 k.ciphertext))

module _ (N : Primitives) where
  -- The cipher has seen a counter that is at least `n`.
  Seen : ℕ → SessionCipher N → Type 0
  Seen n c = not_above n c.last_received ≡ true

  decrypt-Seen :
      (n : ℕ) (c : SessionCipher N) (k : EncryptedChunk) → Seen n c → Seen n (decrypt N c k).1
  unfolding decrypt decrypt_bytes Seen
  decrypt-Seen n c k h = ground arith

  decrypt_all-Seen :
      (n : ℕ) (c : SessionCipher N) (ks : List EncryptedChunk)
      → Seen n c
      → Seen n (decrypt_all N c ks).1
  unfolding decrypt_all
  decrypt_all-Seen n c [] h = h
  decrypt_all-Seen n c (k ∷ ks) h = decrypt_all-Seen n (decrypt N c k).1 ks (decrypt-Seen n c k h)

  decrypt-shown :
      (c : SessionCipher N) (k : EncryptedChunk) (n : ℕ)
      → ((text : N.Text) × ((decrypt N c k).0 ≡ returns text))
        ⊎ ((decrypt N c k).0 ≡ throws unauthentic)
      → n ≤ shown N k
      → Seen n (decrypt N c k).1 × WellSized N k
  unfolding decrypt decrypt_bytes Seen
  decrypt-shown c k n h le = ground arith

  decrypt_stale :
      (c : SessionCipher N) (k : EncryptedChunk)
      → WellSized N k
      → Seen (shown N k) c
      → (decrypt N c k).0 ≡ throws replay
  unfolding decrypt decrypt_bytes Seen
  decrypt_stale c k w h = ground arith

  -- A chunk is accepted once: after it has been decrypted, and after whatever other chunks came in
  -- between, the same chunk is refused as a replay.
  pub replay_refused :
      (c : SessionCipher N) (k : EncryptedChunk) (text : N.Text) (ks : List EncryptedChunk)
      → (decrypt N c k).0 ≡ returns text
      → (decrypt N (decrypt_all N (decrypt N c k).1 ks).1 k).0 ≡ throws replay
  replay_refused c k text ks h =
      let (seen, sized) = decrypt-shown c k (shown N k) (inl (text, h)) (omega arith) in
      decrypt_stale (decrypt_all N (decrypt N c k).1 ks).1 k sized
        (decrypt_all-Seen (shown N k) (decrypt N c k).1 ks seen)

  -- The counter is stored before the tag is checked. So a forged chunk, which is refused, still
  -- makes the cipher refuse every chunk, however genuine, whose counter is not above the one that
  -- the forgery shows, for as long as the session lasts.
  pub forgery_blocks :
      (c : SessionCipher N) (forged k : EncryptedChunk) (ks : List EncryptedChunk)
      → (decrypt N c forged).0 ≡ throws unauthentic
      → WellSized N k
      → shown N k ≤ shown N forged
      → (decrypt N (decrypt_all N (decrypt N c forged).1 ks).1 k).0 ≡ throws replay
  forgery_blocks c forged k ks h sized le =
      let (seen, w) = decrypt-shown c forged (shown N k) (inr h) le in
      decrypt_stale (decrypt_all N (decrypt N c forged).1 ks).1 k sized
        (decrypt_all-Seen (shown N k) (decrypt N c forged).1 ks seen)
