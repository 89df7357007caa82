-- ===== src/Network/PeerConnection/Rekeying.antt =====
-- packages/network/src/peer-connection.ts: a second key exchange.
use tbridge.Base.{
  ℕ, ◌+◌, ◌≡◌, ◌++◌, sym, ap, ◌∙◌, String, true, some, List, [], ◌∷◌, nat_eq, string_eq, arith,
}
use tbridge.Protocol.Envelopes.{Payload, Envelope}
use tbridge.Crypto.{
  Primitives, SessionCipher, encrypt, create_session_cipher, build_nonce, chunk_of,
}
use tbridge.Network.PeerConnection.{
  Json, encrypted, PeerConnection, send_unencrypted, start_handshake, flush,
  flush_pending_encrypted, finalize_with, finalize_handshake, handle_key_exchange, handle_payload,
  deliver, send,
}
use tbridge.Network.PeerConnection.Early.{Speaks, deliver-Speaks}

module _ (N : Primitives) (J : Json N) where
  -- The key exchange of a connection that is encrypted makes a new cipher from the same keys, and
  -- its counter starts again at 0.
  rekeyed :
      (c : PeerConnection N J) (der : List ℕ) (k : SessionCipher N)
      → c.status ≡ encrypted
      → c.pending_encrypted ≡ []
      → create_session_cipher N c.private_key der c.role ≡ some k
      → ((handle_key_exchange N J c der).cipher ≡ some k)
        × ((handle_key_exchange N J c der).status ≡ encrypted)
  unfolding handle_key_exchange finalize_handshake finalize_with flush_pending_encrypted flush
      start_handshake send_unencrypted
  rekeyed c der k s p e = ground arith

  next : SessionCipher N → SessionCipher N
  next k = record k { send_counter = k.send_counter + 1 }

  nonce_of : SessionCipher N → String
  nonce_of k = N.to_base64 (build_nonce k.sender_prefix k.send_counter)

  text_of : SessionCipher N → N.Text → String
  text_of k t =
      (chunk_of N (build_nonce k.sender_prefix k.send_counter)
        (N.seal k.key (build_nonce k.sender_prefix k.send_counter) t)).ciphertext

  send-shape :
      (c d : PeerConnection N J) (k : SessionCipher N) (p : Payload)
      → c.cipher ≡ some k
      → send N J c p ≡ some d
      → d ≡ record c {
        cipher = some (next k);
        sent = c.sent ++ Payload.encrypted (text_of k (J.stringify p)) (nonce_of k) ∷ [];
      }
  unfolding send send_unencrypted encrypt next nonce_of text_of
  send-shape c d k p h e = ground arith

  -- A peer that repeats its key makes the connection use a nonce again. The connection has no new
  -- key of its own: so after the key is handled once more, its cipher is the one with which it began,
  -- and what it sends next has the nonce, and the session key, of what it sent first.
  pub rekey_repeats_nonce :
      (c d d' : PeerConnection N J) (e : Envelope) (key : String) (k : SessionCipher N)
      (p q : Payload)
      → c.listening ≡ true
      → c.status ≡ encrypted
      → c.pending_encrypted ≡ []
      → c.cipher ≡ some k
      → create_session_cipher N c.private_key (N.from_base64 key) c.role ≡ some k
      → Speaks N J c e (Payload.key_exchange key)
      → send N J c p ≡ some d
      → send N J (deliver N J d e) q ≡ some d'
      → (text text' nonce : String) × (d.sent ≡ c.sent ++ Payload.encrypted text nonce ∷ [])
        × (d'.sent ≡ (deliver N J d e).sent ++ Payload.encrypted text' nonce ∷ [])
        × (d'.cipher ≡ d.cipher)
  unfolding handle_payload
  rekey_repeats_nonce c d d' e key k p q l s pe ci cr sp e1 e2 =
      let one = send-shape c d k p ci e1 in
      let c1 : PeerConnection N J = record c {
        cipher = some (next k);
        sent = c.sent ++ Payload.encrypted (text_of k (J.stringify p)) (nonce_of k) ∷ [];
      } in
      let again = ap (λ x. deliver N J x e) one ∙ deliver-Speaks N J c1 e _ sp l in
      let re = rekeyed c1 (N.from_base64 key) k s pe cr in
      let two =
        send-shape (deliver N J d e) d' k q (ap (λ (x : PeerConnection N J). x.cipher) again ∙ re.0)
          e2 in
      (
        text_of k (J.stringify p),
        text_of k (J.stringify q),
        nonce_of k,
        ap (λ (x : PeerConnection N J). x.sent) one,
        ap (λ (x : PeerConnection N J). x.sent) two,
        ap (λ (x : PeerConnection N J). x.cipher) two
            ∙ sym (ap (λ (x : PeerConnection N J). x.cipher) one),
      )
