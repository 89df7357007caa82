-- ===== src/Network/PeerConnection/Tests.antt =====
-- packages/network/src/peer-connection.ts: the theorems at a host and a guest with toy ciphers.
use tbridge.Base.{
  ℕ, zero, suc, ◌≡◌, ◌++◌, refl, String, Option, subst, none, some, List, [], ◌∷◌, map, nat_eq,
  string_eq, arith,
}
use tbridge.Protocol.Legacy.{ClientRole}
use tbridge.Protocol.Envelopes.{Payload, Envelope, relay, create_envelope}
use tbridge.Crypto.{
  EncryptedChunk, Outcome, throws, returns, SessionCipher, decrypt, decrypt_bytes, new_cipher,
  create_session_cipher, derive_session_key, encrypt, build_nonce, be, of_be,
}
use tbridge.Crypto.Toy.{letters, spell, read_from, zeros, toy_tag, checked, toy}
use tbridge.Network.PeerConnection.{
  Json, PeerConnection, new_connection, start_handshake, deliver, deliver_all, handle_envelope,
  handle_payload, handle_key_exchange, finalize_handshake, finalize_with, flush,
  flush_pending_encrypted, send, send_unencrypted, wrapped,
}
use tbridge.Network.PeerConnection.Early.{Readable, early_chunks}
use tbridge.Network.PeerConnection.Handshake.{Talks, host_answers, guest_joins, handshake_delivers}
use tbridge.Network.PeerConnection.Rekeying.{rekey_repeats_nonce}

code : Payload → ℕ
code Payload.ping = 0
code p = 1

decode : ℕ → Option Payload
decode zero = some Payload.ping
decode (suc n) = none

decode-code : (p : Payload) → p ≡ Payload.ping → decode (code p) ≡ some p
unfolding code decode
decode-code p h = rw h refl

abbrev json : Json toy
json = record {
  Lossless = λ p. p ≡ Payload.ping;
  stringify = code;
  parse = decode;
  parse-stringify = decode-code;
}

abbrev from_host : Payload → Envelope
from_host p = create_envelope "1" 0 "alice" "laptop" relay p

abbrev from_guest : Payload → Envelope
from_guest p = create_envelope "2" 0 "bob" "phone" relay p

abbrev host : PeerConnection toy json
host = new_connection toy json 3 "bob" "phone" ClientRole.host

handshake_delivers_example :
    Talks toy json
      (host_answers toy json 3 4 "alice" "laptop" "bob" "phone" ClientRole.host ClientRole.guest
        from_guest)
      (guest_joins toy json 3 4 "alice" "laptop" "bob" "phone" ClientRole.host ClientRole.guest
        from_guest from_host)
      from_host
      (Payload.ping ∷ [])
    × Talks toy json
        (guest_joins toy json 3 4 "alice" "laptop" "bob" "phone" ClientRole.host ClientRole.guest
          from_guest from_host)
        (host_answers toy json 3 4 "alice" "laptop" "bob" "phone" ClientRole.host ClientRole.guest
          from_guest)
        from_guest
        []
unfolding create_envelope new_connection
handshake_delivers_example =
    handshake_delivers toy json 3 4 "alice" "laptop" "bob" "phone" ClientRole.host ClientRole.guest
      from_host from_guest (λ p. (refl, refl, refl)) (λ p. (refl, refl, refl)) (Payload.ping ∷ [])
      [] (refl, tt) tt (omega arith) (omega arith)

abbrev guest_key : Payload
guest_key = Payload.key_exchange (spell (zeros 4))

abbrev or_no_chunk : Outcome EncryptedChunk → EncryptedChunk
or_no_chunk (throws e) = record { ciphertext = ""; nonce = "" }
or_no_chunk (returns chunk) = chunk

-- What the guest sends first.
abbrev early : List EncryptedChunk
early = or_no_chunk (encrypt toy (new_cipher toy (12 ∷ []) 2) (code Payload.ping)).0 ∷ []

ReadableBy : Option (SessionCipher toy) → Type 0
ReadableBy none = Unit
ReadableBy (some k) = Readable toy json k early

host_cipher : Option (SessionCipher toy)
host_cipher =
    create_session_cipher toy host.private_key (toy.from_base64 (spell (zeros 4))) host.role

read_by_host : ReadableBy host_cipher
unfolding ReadableBy host_cipher new_connection create_session_cipher derive_session_key new_cipher
    encrypt decrypt decrypt_bytes build_nonce be of_be letters spell read_from zeros toy_tag checked
    code decode
read_by_host = ((0, Payload.ping, refl, refl), tt)

early-Readable :
    (k : SessionCipher toy)
    → create_session_cipher toy host.private_key (toy.from_base64 (spell (zeros 4))) host.role
      ≡ some k
    → Readable toy json k early
unfolding ReadableBy host_cipher
early-Readable k e = subst ReadableBy e read_by_host

early_chunks_example :
    deliver toy json
      (deliver_all toy json host (map (λ k. from_guest (wrapped toy json k)) early))
      (from_guest guest_key)
    ≡ deliver_all toy json
        (deliver toy json host (from_guest guest_key))
        (map (λ k. from_guest (wrapped toy json k)) early)
unfolding create_envelope new_connection
early_chunks_example =
    early_chunks toy json host (spell (zeros 4)) (from_guest guest_key) early
      (λ k. from_guest (wrapped toy json k)) refl refl early-Readable (refl, refl, refl)
      (λ k. (refl, refl, refl))

-- The host once it has the guest's key.
abbrev met : PeerConnection toy json
met = deliver toy json host (from_guest guest_key)

abbrev or_host : Option (PeerConnection toy json) → PeerConnection toy json
or_host none = host
or_host (some c) = c

abbrev pings : PeerConnection toy json → PeerConnection toy json
pings c = or_host (send toy json c Payload.ping)

rekey_repeats_nonce_example :
    (text text' nonce : String) × ((pings met).sent ≡ met.sent ++ Payload.encrypted text nonce ∷ [])
    × ((pings (deliver toy json (pings met) (from_guest guest_key))).sent
        ≡ (deliver toy json (pings met) (from_guest guest_key)).sent
          ++ Payload.encrypted text' nonce ∷ [])
    × ((pings (deliver toy json (pings met) (from_guest guest_key))).cipher ≡ (pings met).cipher)
unfolding create_envelope new_connection deliver handle_envelope handle_payload handle_key_exchange
    finalize_handshake finalize_with flush flush_pending_encrypted send send_unencrypted
    start_handshake create_session_cipher derive_session_key new_cipher encrypt build_nonce be of_be
    letters spell read_from zeros toy_tag checked code decode
rekey_repeats_nonce_example =
    rekey_repeats_nonce toy json met (pings met)
      (pings (deliver toy json (pings met) (from_guest guest_key))) (from_guest guest_key)
      (spell (zeros 4)) (new_cipher toy (12 ∷ []) 1) Payload.ping Payload.ping refl refl refl refl
      refl (refl, refl, refl) refl refl
