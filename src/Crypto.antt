-- ===== src/Crypto.antt =====
-- packages/crypto/src/index.ts: the cipher of a session.
--
-- Node's `crypto` and its base64 are the parameter `Primitives`, with the documented behaviour on
-- which the code relies. Bytes are natural numbers below 256, and what throws is an error value.
mod Bytes
pub mod Nonces
pub mod Replay
pub mod Channel
pub mod Toy
mod Tests
unfoldable pub use Bytes.*
use tbridge.Base.{
  ℕ, suc, ◌+◌, ◌-◌, ◌<◌, ◌≡◌, ◌^◌, ◌++◌, String, Bool, true, false, Option, none, some, List, [],
  ◌∷◌, leb, ltb, if◌then◌else◌, length, take, drop, All, not, ◌==◌, nat_eq,
}
use tbridge.Protocol.Legacy.{ClientRole}

pub record Primitives : Type 1 where
  pub Key : Type 0
  pub PrivateKey : Type 0
  pub PublicKey : Type 0
  -- What is encrypted: a JavaScript string.
  pub Text : Type 0
  -- `createCipheriv`, `update`, `final`: the ciphertext and the tag.
  pub seal : Key → List ℕ → Text → List ℕ × List ℕ
  -- `createDecipheriv`, `setAuthTag`, `update`, `final`: nothing where the tag does not fit.
  pub unseal : Key → List ℕ → List ℕ → List ℕ → Option Text
  pub to_base64 : List ℕ → String
  pub from_base64 : String → List ℕ
  pub diffie_hellman : PrivateKey → PublicKey → List ℕ
  pub hkdf : List ℕ → Key
  pub public_of : PrivateKey → PublicKey
  pub export : PublicKey → List ℕ
  pub import : List ℕ → Option PublicKey
  pub unseal-seal :
      (k : Key) (n : List ℕ) (text : Text)
      → unseal k n (seal k n text).0 (seal k n text).1 ≡ some text
  pub tag_length : (k : Key) (n : List ℕ) (text : Text) → length (seal k n text).1 ≡ 16
  pub seal_bytes :
      (k : Key) (n : List ℕ) (text : Text)
      → All (λ b. b < 256) (seal k n text).0 × All (λ b. b < 256) (seal k n text).1
  pub from_base64-to_base64 :
      (bytes : List ℕ) → All (λ b. b < 256) bytes → from_base64 (to_base64 bytes) ≡ bytes
  pub agree : (a b : PrivateKey) → diffie_hellman a (public_of b) ≡ diffie_hellman b (public_of a)
  pub export_bytes : (p : PublicKey) → All (λ b. b < 256) (export p)
  pub import-export : (p : PublicKey) → import (export p) ≡ some p

pub record EncryptedChunk : Type 0 where
  pub ciphertext : String
  pub nonce : String

-- What `decrypt` throws, and `writeBigUInt64BE` where the counter is out of range.
pub data CipherError : Type 0 where
  nonce_length too_short replay unauthentic out_of_range : CipherError

pub data Outcome (A : Type 0) : Type 0 where
  returns : A → Outcome A
  throws : CipherError → Outcome A

abbrev pub nonce_bytes : ℕ
nonce_bytes = 12

abbrev pub tag_bytes : ℕ
tag_bytes = 16

abbrev pub sender_id : ClientRole → ℕ
sender_id ClientRole.host = 1
sender_id ClientRole.guest = 2

-- `counter <= this.lastReceivedCounter`; `none` is the initial -1n.
abbrev pub not_above : ℕ → Option ℕ → Bool
not_above counter none = false
not_above counter (some last) = leb counter last

-- The counter in bytes 4 to 11 of a nonce.
unfoldable pub counter_of : List ℕ → ℕ
counter_of nonce = of_be (take 8 (drop 4 nonce))

unfoldable pub build_nonce : List ℕ → ℕ → List ℕ
build_nonce prefix counter = prefix ++ be 8 counter

module _ (N : Primitives) where
  open N use {
    Key, Text, PrivateKey, PublicKey, seal, unseal, to_base64, from_base64, diffie_hellman, hkdf,
    import,
  }

  pub record SessionCipher : Type 0 where
    pub key : Key
    pub send_counter : ℕ
    pub sender_prefix : List ℕ
    pub last_received : Option ℕ

  unfoldable pub new_cipher : Key → ℕ → SessionCipher
  new_cipher key id = record {
    key = key;
    send_counter = 0;
    sender_prefix = be 4 id;
    last_received = none;
  }

  abbrev pub chunk_of : List ℕ → List ℕ × List ℕ → EncryptedChunk
  chunk_of nonce (text, tag) = record {
    ciphertext = to_base64 (text ++ tag);
    nonce = to_base64 nonce;
  }

  unfoldable pub encrypt : SessionCipher → Text → Outcome EncryptedChunk × SessionCipher
  encrypt c plaintext =
      if ltb c.send_counter (2 ^ 64)
      then (
        returns (
            chunk_of (build_nonce c.sender_prefix c.send_counter)
              (seal c.key (build_nonce c.sender_prefix c.send_counter) plaintext)),
        record c { send_counter = c.send_counter + 1 },
      )
      else (throws out_of_range, c)

  abbrev pub opened : Option Text → Outcome Text
  opened none = throws unauthentic
  opened (some text) = returns text

  -- `decrypt` on the decoded nonce and ciphertext. The counter is stored before the tag is checked.
  unfoldable pub decrypt_bytes : SessionCipher → List ℕ → List ℕ → Outcome Text × SessionCipher
  decrypt_bytes c nonce bytes =
      if not (length nonce == nonce_bytes)
      then (throws nonce_length, c)
      else if ltb (length bytes) tag_bytes
      then (throws too_short, c)
      else if not_above (counter_of nonce) c.last_received
      then (throws replay, c)
      else (
        opened (
            unseal c.key nonce (take (length bytes - tag_bytes) bytes)
              (drop (length bytes - tag_bytes) bytes)),
        record c { last_received = some (counter_of nonce) },
      )

  unfoldable pub decrypt : SessionCipher → EncryptedChunk → Outcome Text × SessionCipher
  decrypt c chunk = decrypt_bytes c (from_base64 chunk.nonce) (from_base64 chunk.ciphertext)

  unfoldable pub derive_session_key : PrivateKey → PublicKey → Key
  derive_session_key own peer = hkdf (diffie_hellman own peer)

  -- `importPublicKey` throws on bytes that are no key.
  unfoldable pub create_session_cipher : PrivateKey → List ℕ → ClientRole → Option SessionCipher
  create_session_cipher own peer_der role = elim (import peer_der) [
    | none ↦ none
    | some peer ↦ some (new_cipher (derive_session_key own peer) (sender_id role))
  ]

  -- Several calls in a row, and what each returned or threw.
  unfoldable pub decrypt_all :
      SessionCipher → List EncryptedChunk → List (Outcome Text) × SessionCipher
  decrypt_all c [] = ([], c)
  decrypt_all c (k ∷ ks) =
      let (o, c') = decrypt c k in let (os, c'') = decrypt_all c' ks in (o ∷ os, c'')

  unfoldable pub encrypt_all :
      SessionCipher → List Text → List (Outcome EncryptedChunk) × SessionCipher
  encrypt_all c [] = ([], c)
  encrypt_all c (t ∷ ts) =
      let (o, c') = encrypt c t in let (os, c'') = encrypt_all c' ts in (o ∷ os, c'')
