-- ===== src/Network/PeerConnection.antt =====
-- packages/network/src/peer-connection.ts: the encrypted connection of two peers.
--
-- What the connection hands to the network is appended to `sent`, what it emits to `emitted`. The
-- listeners of its events do not throw and do not call it back. Nobody listens to its `error` event,
-- as in the application: so emitting that one throws.
pub mod Early
pub mod Handshake
pub mod Rekeying
mod Tests
use tbridge.Base.{
  ℕ, ◌≡◌, ◌++◌, String, Bool, true, false, ◌||◌, not, Option, none, some, List, [], ◌∷◌,
  if◌then◌else◌, keep, length, ltb, ◌==◌, nat_eq, string_eq,
}
use tbridge.Protocol.Legacy.{ClientRole}
use tbridge.Protocol.Envelopes.{Payload, Envelope}
use tbridge.Crypto.{
  Primitives, EncryptedChunk, Outcome, returns, throws, SessionCipher, encrypt, decrypt,
  create_session_cipher,
}

-- `JSON.stringify` and `JSON.parse` on payloads: what is printed is read back, for the payloads that
-- JSON prints without loss.
pub record Json (N : Primitives) : Type 1 where
  pub Lossless : Payload → Type 0
  pub stringify : Payload → N.Text
  pub parse : N.Text → Option Payload
  pub parse-stringify : (p : Payload) → Lossless p → parse (stringify p) ≡ some p

pub data Status : Type 0 where
  connecting handshake encrypted disconnected : Status

abbrev pub is_encrypted : Status → Bool
is_encrypted encrypted = true
is_encrypted s = false

abbrev pub is_handshake : Status → Bool
is_handshake handshake = true
is_handshake s = false

abbrev pub is_disconnected : Status → Bool
is_disconnected disconnected = true
is_disconnected s = false

pub data Emitted : Type 0 where
  payload : Payload → Emitted
  ready closed failed_cipher failed_decrypt : Emitted

module _ (N : Primitives) (J : Json N) where
  open N use {PrivateKey, to_base64, from_base64, public_of, export}

  pub record PeerConnection : Type 0 where
    pub cipher : Option (SessionCipher N)
    pub private_key : PrivateKey
    pub peer_public_key : Option (List ℕ)
    pub pending_encrypted : List EncryptedChunk
    pub status : Status
    pub listening : Bool
    pub peer_user : String
    pub peer_device : String
    pub role : ClientRole
    pub sent : List Payload
    pub emitted : List Emitted

  unfoldable pub new_connection : PrivateKey → String → String → ClientRole → PeerConnection
  new_connection private_key user device role = record {
    cipher = none;
    private_key = private_key;
    peer_public_key = none;
    pending_encrypted = [];
    status = connecting;
    listening = true;
    peer_user = user;
    peer_device = device;
    role = role;
    sent = [];
    emitted = [];
  }

  abbrev pub emit : PeerConnection → Emitted → PeerConnection
  emit c e = record c { emitted = c.emitted ++ e ∷ [] }

  -- `sendUnencrypted`: `network.sendToPeer`.
  unfoldable pub send_unencrypted : PeerConnection → Payload → PeerConnection
  send_unencrypted c p = record c { sent = c.sent ++ p ∷ [] }

  unfoldable pub start_handshake : PeerConnection → PeerConnection
  start_handshake c =
      send_unencrypted (record c { status = handshake })
        (Payload.key_exchange (to_base64 (export (public_of c.private_key))))

  -- `JSON.parse` of what was decrypted, and the `catch` around both. The Boolean says whether it
  -- returns: the `catch` emits an error, which throws.
  abbrev pub emit_parsed : PeerConnection → Option Payload → Bool × PeerConnection
  emit_parsed c none = (false, emit c failed_decrypt)
  emit_parsed c (some p) = (true, emit c (payload p))

  abbrev pub emit_outcome : PeerConnection → Outcome N.Text → Bool × PeerConnection
  emit_outcome c (throws e) = (false, emit c failed_decrypt)
  emit_outcome c (returns text) = emit_parsed c (J.parse text)

  -- The body of `decryptAndEmit`, with a cipher. The cipher's state moves even where it throws.
  unfoldable pub decrypt_with :
      PeerConnection → SessionCipher N → EncryptedChunk → Bool × PeerConnection
  decrypt_with c k chunk =
      emit_outcome (record c { cipher = some (decrypt N k chunk).1 }) (decrypt N k chunk).0

  unfoldable pub decrypt_and_emit : PeerConnection → EncryptedChunk → Bool × PeerConnection
  decrypt_and_emit c chunk = elim c.cipher [ none ↦ (true, c) | some k ↦ decrypt_with c k chunk ]

  -- The loop of `flushPendingEncrypted`, over the chunks that are pending: each is taken from the
  -- queue first, and one that throws leaves the others there.
  unfoldable pub flush : PeerConnection → List EncryptedChunk → Bool × PeerConnection
  flush c [] = (true, record c { pending_encrypted = [] })
  flush c (k ∷ ks) =
      let (returned, c') = decrypt_and_emit (record c { pending_encrypted = ks }) k in
      let rest = flush c' ks in if returned then rest else (false, c')

  unfoldable pub flush_pending_encrypted : PeerConnection → Bool × PeerConnection
  flush_pending_encrypted c = elim c.cipher [
    | none ↦ (true, c)
    | some k ↦ flush c c.pending_encrypted
  ]

  -- The `catch` of `finalizeHandshake`.
  abbrev pub fail_handshake : PeerConnection → PeerConnection
  fail_handshake c = emit (record c { status = disconnected }) failed_cipher

  -- What `finalizeHandshake` does with the cipher, or with the error that it catches: the flush is
  -- inside its `try`.
  unfoldable pub finalize_with : PeerConnection → Option (SessionCipher N) → PeerConnection
  finalize_with c none = fail_handshake c
  finalize_with c (some k) =
      let (returned, c') =
        flush_pending_encrypted (emit (record c { cipher = some k; status = encrypted }) ready) in
      if returned then c' else fail_handshake c'

  unfoldable pub finalize_handshake : PeerConnection → List ℕ → PeerConnection
  finalize_handshake c peer_key =
      if is_encrypted c.status
      then c
      else finalize_with c (create_session_cipher N c.private_key peer_key c.role)

  unfoldable pub handle_key_exchange : PeerConnection → List ℕ → PeerConnection
  handle_key_exchange c peer_key =
      let c' = record c { peer_public_key = some peer_key } in
      if is_handshake c.status
      then finalize_handshake c' peer_key
      else finalize_handshake (start_handshake c') peer_key

  unfoldable pub disconnect : PeerConnection → PeerConnection
  disconnect c =
      if is_disconnected c.status
      then c
      else emit (record c { status = disconnected; listening = false }) closed

  unfoldable pub handle_chunk : PeerConnection → EncryptedChunk → PeerConnection
  handle_chunk c chunk = elim c.cipher [
    | none ↦ record c { pending_encrypted = c.pending_encrypted ++ chunk ∷ [] }
    | some k ↦ (decrypt_and_emit c chunk).1
  ]

  unfoldable pub handle_payload : PeerConnection → Payload → PeerConnection
  handle_payload c (Payload.key_exchange key) = handle_key_exchange c (from_base64 key)
  handle_payload c (Payload.encrypted text nonce) =
      handle_chunk c (record { ciphertext = text; nonce = nonce })
  handle_payload c (Payload.disconnect reason) = disconnect c
  handle_payload c p = emit c (payload p)

  unfoldable pub handle_envelope : PeerConnection → Envelope → PeerConnection
  handle_envelope c e =
      if not (e.from_user == c.peer_user) || not (e.from_device == c.peer_device)
      then c
      else handle_payload c e.payload

  -- What `network` emits, while the connection listens.
  unfoldable pub deliver : PeerConnection → Envelope → PeerConnection
  deliver c e = if c.listening then handle_envelope c e else c

  abbrev pub is_failure : Emitted → Bool
  is_failure failed_cipher = true
  is_failure failed_decrypt = true
  is_failure e = false

  -- Whether the handling between these two states ended in an error that was thrown.
  unfoldable pub threw : PeerConnection → PeerConnection → Bool
  threw before after =
      ltb (length (keep is_failure before.emitted)) (length (keep is_failure after.emitted))

  unfoldable pub deliver_all : PeerConnection → List Envelope → PeerConnection
  deliver_all c [] = c
  deliver_all c (e ∷ es) = deliver_all (deliver c e) es

  abbrev pub wrapped : EncryptedChunk → Payload
  wrapped k = Payload.encrypted k.ciphertext k.nonce

  -- `send`, with the cipher: `none` where `encrypt` throws.
  abbrev pub send_with :
      PeerConnection → Outcome EncryptedChunk × SessionCipher N → Option PeerConnection
  send_with c (throws e, k) = none
  send_with c (returns chunk, k) =
      some (send_unencrypted (record c { cipher = some k }) (wrapped chunk))

  -- `none` where it throws.
  unfoldable pub send : PeerConnection → Payload → Option PeerConnection
  send c p = elim c.cipher [
    | none ↦ none
    | some k ↦ if is_encrypted c.status then send_with c (encrypt N k (J.stringify p)) else none
  ]
