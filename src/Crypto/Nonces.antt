-- ===== src/Crypto/Nonces.antt =====
-- packages/crypto/src/index.ts: no nonce is used twice.
use tbridge.Base.{
  ℕ, zero, suc, ◌+◌, ◌<◌, ◌≤◌, ◌≡◌, ◌^◌, ◌++◌, refl, sym, ap, ◌∙◌, ◌⊎◌, inl, inr, List, [], ◌∷◌,
  ltb, length, take, drop, All, All-append, nat_eq, arith, Bool-cases,
}
use tbridge.Protocol.Legacy.{ClientRole}
use tbridge.Crypto.{
  Primitives, EncryptedChunk, returns, sender_id, counter_of, build_nonce, be, of_be, of_be-be,
  length-be, be_bytes, SessionCipher, new_cipher, encrypt, encrypt_all,
}

pub take-append : (xs ys : List ℕ) (n : ℕ) → length xs ≡ n → take n (xs ++ ys) ≡ xs
take-append [] ys zero h = refl
take-append [] ys (suc n) h = absurd (omega arith)
take-append (x ∷ xs) ys zero h = absurd (omega arith)
take-append (x ∷ xs) ys (suc n) h = ap (◌∷◌ x) (take-append xs ys n (omega arith))

pub drop-append : (xs ys : List ℕ) (n : ℕ) → length xs ≡ n → drop n (xs ++ ys) ≡ ys
drop-append [] ys zero h = refl
drop-append [] ys (suc n) h = absurd (omega arith)
drop-append (x ∷ xs) ys zero h = absurd (omega arith)
drop-append (x ∷ xs) ys (suc n) h = drop-append xs ys n (omega arith)

take_all : (xs : List ℕ) (n : ℕ) → length xs ≡ n → take n xs ≡ xs
take_all [] zero h = refl
take_all [] (suc n) h = refl
take_all (x ∷ xs) zero h = absurd (omega arith)
take_all (x ∷ xs) (suc n) h = ap (◌∷◌ x) (take_all xs n (omega arith))

-- The receiver reads the counter that the sender wrote.
pub counter_of-build_nonce :
    (prefix : List ℕ) (counter : ℕ)
    → length prefix ≡ 4
    → counter < 2 ^ 64
    → counter_of (build_nonce prefix counter) ≡ counter
unfolding counter_of build_nonce
counter_of-build_nonce prefix counter h b =
    ap (λ l. of_be (take 8 l)) (drop-append prefix (be 8 counter) 4 h)
    ∙ ap of_be (take_all (be 8 counter) 8 (length-be 8 counter))
    ∙ of_be-be 8 counter b

prefix_of-build_nonce :
    (prefix : List ℕ) (counter : ℕ)
    → length prefix ≡ 4
    → take 4 (build_nonce prefix counter) ≡ prefix
unfolding build_nonce
prefix_of-build_nonce prefix counter h = take-append prefix (be 8 counter) 4 h

-- A nonce tells the sender and the counter.
pub build_nonce-injective :
    (a b i j : ℕ)
    → a < 2 ^ 32
    → b < 2 ^ 32
    → i < 2 ^ 64
    → j < 2 ^ 64
    → build_nonce (be 4 a) i ≡ build_nonce (be 4 b) j
    → (a ≡ b) × (i ≡ j)
build_nonce-injective a b i j ha hb hi hj e = (
  sym (of_be-be 4 a ha)
      ∙ ap of_be (
          sym (prefix_of-build_nonce (be 4 a) i (length-be 4 a))
          ∙ ap (take 4) e
          ∙ prefix_of-build_nonce (be 4 b) j (length-be 4 b))
      ∙ of_be-be 4 b hb,
  sym (counter_of-build_nonce (be 4 a) i (length-be 4 a) hi)
      ∙ ap counter_of e
      ∙ counter_of-build_nonce (be 4 b) j (length-be 4 b) hj,
)

module _ (N : Primitives) where
  open N use {Key, Text, to_base64, from_base64-to_base64}

  abbrev pub after : SessionCipher N → List Text → SessionCipher N
  after c ts = (encrypt_all N c ts).1

  prefix-encrypt :
      (c : SessionCipher N) (t : Text) → (encrypt N c t).1.sender_prefix ≡ c.sender_prefix
  unfolding encrypt
  prefix-encrypt c t = ground arith

  prefix-after :
      (c : SessionCipher N) (ts : List Text) → (after c ts).sender_prefix ≡ c.sender_prefix
  unfolding encrypt_all
  prefix-after c [] = refl
  prefix-after c (t ∷ ts) = prefix-after (encrypt N c t).1 ts ∙ prefix-encrypt c t

  counter-encrypt :
      (c : SessionCipher N) (t : Text)
      → ((encrypt N c t).1.send_counter ≡ c.send_counter + 1)
        ⊎ ((2 ^ 64 ≤ c.send_counter) × ((encrypt N c t).1.send_counter ≡ c.send_counter))
  unfolding encrypt
  counter-encrypt c t = ground arith

  counter-after-le :
      (c : SessionCipher N) (ts : List Text) → c.send_counter ≤ (after c ts).send_counter
  unfolding encrypt_all
  counter-after-le c [] = omega arith
  counter-after-le c (t ∷ ts) =
      omega (arith, counter-after-le (encrypt N c t).1 ts, counter-encrypt c t)

  counter-after :
      (c : SessionCipher N) (ts : List Text)
      → (after c ts).send_counter < 2 ^ 64
      → (after c ts).send_counter ≡ c.send_counter + length ts
  unfolding encrypt_all
  counter-after c [] h = omega arith
  counter-after c (t ∷ ts) h = omega (
    arith,
    counter-after (encrypt N c t).1 ts h,
    counter-after-le (encrypt N c t).1 ts,
    counter-encrypt c t,
  )

  nonce-encrypt :
      (c : SessionCipher N) (t : Text) (k : EncryptedChunk)
      → (encrypt N c t).0 ≡ returns k
      → (k.nonce ≡ to_base64 (build_nonce c.sender_prefix c.send_counter))
        × (c.send_counter < 2 ^ 64)
  unfolding encrypt
  nonce-encrypt c t k h = elim (Bool-cases (ltb c.send_counter (2 ^ 64))) [
    | inl x ↦ (ground arith, ground arith)
    | inr x ↦ absurd (ground arith)
  ]

  pub build_nonce_bytes : (a i : ℕ) → All (λ b. b < 256) (build_nonce (be 4 a) i)
  unfolding build_nonce
  build_nonce_bytes a i = All-append _ (be 4 a) (be 8 i) (be_bytes 4 a) (be_bytes 8 i)

  role-of_id : (a b : ClientRole) → sender_id a ≡ sender_id b → a ≡ b
  role-of_id ClientRole.host ClientRole.host h = refl
  role-of_id ClientRole.host ClientRole.guest h = absurd (omega arith)
  role-of_id ClientRole.guest ClientRole.host h = absurd (omega arith)
  role-of_id ClientRole.guest ClientRole.guest h = refl

  id-bound : (a : ClientRole) → sender_id a < 2 ^ 32
  id-bound ClientRole.host = omega arith
  id-bound ClientRole.guest = omega arith

  -- The nonce of the chunk that follows `xs`.
  chunk-nonce :
      (key : Key) (a : ClientRole) (xs : List Text) (t : Text) (k : EncryptedChunk)
      → (encrypt N (after (new_cipher N key (sender_id a)) xs) t).0 ≡ returns k
      → (k.nonce ≡ to_base64 (build_nonce (be 4 (sender_id a)) (length xs))) × (length xs < 2 ^ 64)
  unfolding new_cipher
  chunk-nonce key a xs t k h =
      let c = new_cipher N key (sender_id a) in
      let (e, b) = nonce-encrypt (after c xs) t k h in
      let n = counter-after c xs b in
      (
        e
            ∙ ap (λ p. to_base64 (build_nonce p (after c xs).send_counter)) (prefix-after c xs)
            ∙ ap (λ n. to_base64 (build_nonce (be 4 (sender_id a)) n)) (n ∙ omega arith),
        omega (arith, n),
      )

  -- Fresh ciphers use no nonce twice: two chunks that ciphers of the two roles, or one of them,
  -- produce under fresh counters carry the same nonce only if they come from the same role after
  -- equally many chunks. The ciphers may have the same key, as those of one session do.
  pub nonce_unique :
      (key key' : Key) (a b : ClientRole) (xs ys : List Text) (t u : Text) (k l : EncryptedChunk)
      → (encrypt N (after (new_cipher N key (sender_id a)) xs) t).0 ≡ returns k
      → (encrypt N (after (new_cipher N key' (sender_id b)) ys) u).0 ≡ returns l
      → k.nonce ≡ l.nonce
      → (a ≡ b) × (length xs ≡ length ys)
  nonce_unique key key' a b xs ys t u k l hk hl e =
      let (p, bp) = chunk-nonce key a xs t k hk in
      let (q, bq) = chunk-nonce key' b ys u l hl in
      let same =
        sym (from_base64-to_base64 _ (build_nonce_bytes (sender_id a) (length xs)))
        ∙ ap N.from_base64 (sym p ∙ e ∙ q)
        ∙ from_base64-to_base64 _ (build_nonce_bytes (sender_id b) (length ys)) in
      let (ids, n) =
        build_nonce-injective (sender_id a) (sender_id b) (length xs) (length ys) (id-bound a)
          (id-bound b) bp bq same in
      (role-of_id a b ids, n)
