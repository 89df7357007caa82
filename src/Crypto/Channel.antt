-- ===== src/Crypto/Channel.antt =====
-- packages/crypto/src/index.ts: what one end encrypts, the other reads.
use mathlib.Core.Path.{ap₂}
use tbridge.Base.{
  ℕ, ◌+◌, ◌-◌, ◌<◌, ◌≤◌, ◌≡◌, ◌^◌, ◌++◌, refl, ap, ◌∙◌, Bool, true, false, Option, none, some, List,
  [], ◌∷◌, map, if◌then◌else◌, length, All-append, nat_eq, arith, length-append,
}
use tbridge.Protocol.Legacy.{ClientRole}
use tbridge.Crypto.{
  Primitives, EncryptedChunk, returns, sender_id, not_above, counter_of, build_nonce, be, length-be,
  SessionCipher, new_cipher, chunk_of, encrypt, decrypt_bytes, decrypt, derive_session_key,
  create_session_cipher, decrypt_all, encrypt_all,
}
use tbridge.Crypto.Nonces.{take-append, drop-append, counter_of-build_nonce, build_nonce_bytes}

-- What arrives of a sequence on a channel that may drop, and keeps the order.
abbrev pub pick {ℓ} : {A : Type ℓ} → List Bool → List A → List A
pick [] xs = []
pick (b ∷ bs) [] = []
pick (b ∷ bs) (x ∷ xs) = if b then x ∷ pick bs xs else pick bs xs

module _ (N : Primitives) where
  open N use {
    Key, Text, PrivateKey, seal, unseal, to_base64, from_base64, public_of, export, unseal-seal,
    tag_length, seal_bytes, from_base64-to_base64, agree, import-export, diffie_hellman, hkdf,
  }

  -- The next chunk of a cipher whose counter is in range.
  next_chunk : SessionCipher N → Text → EncryptedChunk
  next_chunk c t =
      chunk_of N (build_nonce c.sender_prefix c.send_counter)
        (seal c.key (build_nonce c.sender_prefix c.send_counter) t)

  bumped : SessionCipher N → SessionCipher N
  bumped c = record c { send_counter = c.send_counter + 1 }

  encrypt-next :
      (c : SessionCipher N) (t : Text)
      → c.send_counter < 2 ^ 64
      → encrypt N c t ≡ (returns (next_chunk c t), bumped c)
  unfolding encrypt next_chunk bumped
  encrypt-next c t h = ground arith

  length-build_nonce : (a n : ℕ) → length (build_nonce (be 4 a) n) ≡ 12
  unfolding build_nonce
  length-build_nonce a n =
      omega (arith, length-append (be 4 a) (be 8 n), length-be 4 a, length-be 8 n)

  received : SessionCipher N → ℕ → SessionCipher N
  received d n = record d { last_received = some n }

  decrypt_bytes-sealed :
      (d : SessionCipher N) (nonce text tag : List ℕ) (t : Text)
      → length nonce ≡ 12
      → length tag ≡ 16
      → not_above (counter_of nonce) d.last_received ≡ false
      → unseal d.key nonce text tag ≡ some t
      → decrypt_bytes N d nonce (text ++ tag) ≡ (returns t, received d (counter_of nonce))
  unfolding decrypt_bytes received
  decrypt_bytes-sealed d nonce text tag t hn ht fresh good =
      let len = length-append text tag in
      let whole : length text ≡ length (text ++ tag) - 16 = omega arith in
      ground (
        arith,
        take-append text tag (length (text ++ tag) - 16) whole,
        drop-append text tag (length (text ++ tag) - 16) whole,
      )

  decrypt-next :
      (c d : SessionCipher N) (a : ℕ) (t : Text)
      → c.sender_prefix ≡ be 4 a
      → d.key ≡ c.key
      → c.send_counter < 2 ^ 64
      → not_above c.send_counter d.last_received ≡ false
      → decrypt N d (next_chunk c t) ≡ (returns t, received d c.send_counter)
  unfolding decrypt next_chunk
  decrypt-next c d a t p k h fresh =
      let nonce = build_nonce c.sender_prefix c.send_counter in
      let sealed = seal c.key nonce t in
      let (bt, bg) = seal_bytes c.key nonce t in
      let read_nonce : from_base64 (to_base64 nonce) ≡ nonce =
        from_base64-to_base64 nonce (rw p (build_nonce_bytes N a c.send_counter)) in
      let read_text : from_base64 (to_base64 (sealed.0 ++ sealed.1)) ≡ sealed.0 ++ sealed.1 =
        from_base64-to_base64 _ (All-append _ sealed.0 sealed.1 bt bg) in
      let shows : counter_of nonce ≡ c.send_counter =
        counter_of-build_nonce c.sender_prefix c.send_counter (rw p (length-be 4 a)) h in
      ap₂ (decrypt_bytes N d) read_nonce read_text
      ∙ decrypt_bytes-sealed d nonce sealed.0 sealed.1 t
          (rw p (length-build_nonce a c.send_counter)) (tag_length c.key nonce t) (rw shows fresh)
          (rw k (unseal-seal c.key nonce t))
      ∙ ap (λ n. (returns t, received d n)) shows

  -- The chunks of a sequence of texts.
  chunks : SessionCipher N → List Text → List EncryptedChunk
  chunks c [] = []
  chunks c (t ∷ ts) = next_chunk c t ∷ chunks (bumped c) ts

  encrypt_all-chunks :
      (c : SessionCipher N) (ts : List Text)
      → c.send_counter + length ts ≤ 2 ^ 64
      → (encrypt_all N c ts).0 ≡ map returns (chunks c ts)
  unfolding encrypt_all chunks bumped
  encrypt_all-chunks c [] h = refl
  encrypt_all-chunks c (t ∷ ts) h =
      rw (encrypt-next c t (omega arith))
        (ap (◌∷◌ (returns (next_chunk c t))) (encrypt_all-chunks (bumped c) ts (omega arith)))

  decrypt_all-pick :
      (c d : SessionCipher N) (a : ℕ) (ts : List Text) (arrives : List Bool)
      → c.sender_prefix ≡ be 4 a
      → d.key ≡ c.key
      → c.send_counter + length ts ≤ 2 ^ 64
      → not_above c.send_counter d.last_received ≡ false
      → (decrypt_all N d (pick arrives (chunks c ts))).0 ≡ map returns (pick arrives ts)
  unfolding decrypt_all chunks bumped received
  decrypt_all-pick c d a [] [] p k h fresh = refl
  decrypt_all-pick c d a [] (b ∷ bs) p k h fresh = refl
  decrypt_all-pick c d a (t ∷ ts) [] p k h fresh = refl
  decrypt_all-pick c d a (t ∷ ts) (true ∷ bs) p k h fresh =
      rw (decrypt-next c d a t p k (omega arith) fresh) (
        ap (◌∷◌ (returns t)) (
          decrypt_all-pick (bumped c) (received d c.send_counter) a ts bs p k (omega arith)
            (ground arith)))
  decrypt_all-pick c d a (t ∷ ts) (false ∷ bs) p k h fresh =
      decrypt_all-pick (bumped c) d a ts bs p k (omega arith) (later d.last_received fresh)
    where
      later :
          (o : Option ℕ)
          → not_above c.send_counter o ≡ false
          → not_above (c.send_counter + 1) o ≡ false
      later none h = refl
      later (some l) h = ground arith

  create-session :
      (own peer : PrivateKey) (role : ClientRole)
      → create_session_cipher N own (export (public_of peer)) role
        ≡ some (new_cipher N (hkdf (diffie_hellman own (public_of peer))) (sender_id role))
  unfolding create_session_cipher derive_session_key
  create-session own peer role = rw (import-export (public_of peer), create_session_cipher)

  -- End to end: two ends that have exchanged their public keys get ciphers that fit. Whatever texts
  -- one end encrypts, at most 2^64 of them, all are encrypted; and whichever of the chunks arrive, in
  -- order, the other end reads exactly the texts of those.
  pub channel_delivers :
      (a b : PrivateKey) (ra rb : ClientRole) (ts : List Text)
      → length ts ≤ 2 ^ 64
      → (c : SessionCipher N) × (d : SessionCipher N) × (ks : List EncryptedChunk)
        × (create_session_cipher N a (export (public_of b)) ra ≡ some c)
        × (create_session_cipher N b (export (public_of a)) rb ≡ some d)
        × ((encrypt_all N c ts).0 ≡ map returns ks)
        × ((arrives : List Bool)
            → (decrypt_all N d (pick arrives ks)).0 ≡ map returns (pick arrives ts))
  unfolding new_cipher
  channel_delivers a b ra rb ts h =
      let c = new_cipher N (hkdf (diffie_hellman a (public_of b))) (sender_id ra) in
      let d = new_cipher N (hkdf (diffie_hellman b (public_of a))) (sender_id rb) in
      (
        c,
        d,
        chunks c ts,
        create-session a b ra,
        create-session b a rb,
        encrypt_all-chunks c ts (omega arith),
        λ arrives.
            decrypt_all-pick c d (sender_id ra) ts arrives refl (ap hkdf (agree b a)) (omega arith)
              refl,
      )
