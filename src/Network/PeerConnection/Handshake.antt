-- ===== src/Network/PeerConnection/Handshake.antt =====
-- packages/network/src/peer-connection.ts: two peers meet, and talk.
use tbridge.Base.{
  ℕ, suc, ◌≤◌, ◌≡◌, ◌^◌, ◌++◌, refl, sym, ap, ◌∙◌, String, Bool, true, false, Option, none, some,
  List, [], ◌∷◌, map, length, All, nat_eq, string_eq, arith,
}
use tbridge.Protocol.Legacy.{ClientRole}
use tbridge.Protocol.Envelopes.{Payload, Envelope}
use tbridge.Crypto.{
  Primitives, EncryptedChunk, Outcome, returns, throws, SessionCipher, encrypt, decrypt,
  create_session_cipher, encrypt_all, decrypt_all,
}
use tbridge.Network.PeerConnection.{
  Json, encrypted, Emitted, payload, ready, failed_decrypt, PeerConnection, new_connection,
  send_unencrypted, start_handshake, decrypt_with, decrypt_and_emit, handle_chunk, flush,
  flush_pending_encrypted, finalize_with, handle_key_exchange, handle_payload, deliver, deliver_all,
  wrapped, send,
}
use mathlib.Core.List.{append-nil, append_assoc}
use tbridge.Crypto.Channel.{pick, channel_delivers}
use tbridge.Network.PeerConnection.Early.{
  Speaks, deliver-Speaks, greeted, key-greeted, handle_chunks, deliver_all-chunks, key-Kept,
  Speaks-Kept,
}

length-map {ℓ κ} :
    {A : Type ℓ} {B : Type κ} (f : A → B) (xs : List A) → length (map f xs) ≡ length xs
length-map f [] = refl
length-map f (x ∷ xs) = ap suc (length-map f xs)

module _ (N : Primitives) (J : Json N) where
  open N use {
    PrivateKey, Text, public_of, export, to_base64, from_base64, from_base64-to_base64,
    export_bytes,
  }
  open J use {stringify, parse, parse-stringify}

  -- Several calls of `send`; `none` where one throws.
  unfoldable pub send_all : PeerConnection N J → List Payload → Option (PeerConnection N J)
  send_all c [] = some c
  send_all c (p ∷ ps) = elim (send N J c p) [ none ↦ none | some d ↦ send_all d ps ]

  send-sent :
      (c : PeerConnection N J) (k k' : SessionCipher N) (p : Payload) (chunk : EncryptedChunk)
      → c.cipher ≡ some k
      → c.status ≡ encrypted
      → encrypt N k (stringify p) ≡ (returns chunk, k')
      → send N J c p ≡ some (record c { cipher = some k'; sent = c.sent ++ wrapped N J chunk ∷ [] })
  unfolding send send_unencrypted
  send-sent c k k' p chunk h s e = rw (h, s, e, send) refl

  Sends : PeerConnection N J → List Payload → List EncryptedChunk → Type 0
  Sends c ps ks =
      (x : PeerConnection N J) × (send_all c ps ≡ some x)
      × (x.sent ≡ c.sent ++ map (wrapped N J) ks)

  send_all-Sends :
      (c : PeerConnection N J) (k : SessionCipher N) (ps : List Payload) (ks : List EncryptedChunk)
      → c.cipher ≡ some k
      → c.status ≡ encrypted
      → (encrypt_all N k (map stringify ps)).0 ≡ map returns ks
      → Sends c ps ks
  unfolding Sends send_all encrypt_all
  send_all-Sends c k [] [] h s e = (c, refl, sym (append-nil c.sent))
  send_all-Sends c k [] (i ∷ is) h s e = absurd cc
  send_all-Sends c k (p ∷ ps) [] h s e = absurd cc
  send_all-Sends c k (p ∷ ps) (i ∷ is) h s e =
      let k' = (encrypt N k (stringify p)).1 in
      let o : (encrypt N k (stringify p)).0 ≡ returns i = cc in
      let d : PeerConnection N J = record c {
        cipher = some k';
        sent = c.sent ++ wrapped N J i ∷ [];
      } in
      let (x, r, q) = send_all-Sends d k' ps is refl s cc in
      (
        x,
        rw (send-sent c k k' p i h s (ap (λ y. (y, k')) o), send_all) r,
        q ∙ append_assoc c.sent (wrapped N J i ∷ []) (map (wrapped N J) is),
      )

  -- What a decrypted text makes the connection emit.
  told : Outcome Text → Emitted
  told (throws e) = failed_decrypt
  told (returns text) = elim (parse text) [ none ↦ failed_decrypt | some p ↦ payload p ]

  handle_chunk-told :
      (c : PeerConnection N J) (d : SessionCipher N) (k : EncryptedChunk)
      → c.cipher ≡ some d
      → ((handle_chunk N J c k).cipher ≡ some (decrypt N d k).1)
        × ((handle_chunk N J c k).emitted ≡ c.emitted ++ told (decrypt N d k).0 ∷ [])
  unfolding told handle_chunk decrypt_and_emit decrypt_with
  handle_chunk-told c d k h = ground arith

  handle_chunks-told :
      (c : PeerConnection N J) (d : SessionCipher N) (ks : List EncryptedChunk)
      → c.cipher ≡ some d
      → (handle_chunks N J c ks).emitted ≡ c.emitted ++ map told (decrypt_all N d ks).0
  unfolding handle_chunks decrypt_all
  handle_chunks-told c d [] h = sym (append-nil c.emitted)
  handle_chunks-told c d (k ∷ ks) h =
      let (e, t) = handle_chunk-told c d k h in
      handle_chunks-told (handle_chunk N J c k) (decrypt N d k).1 ks e
      ∙ ap (λ l. l ++ map told (decrypt_all N (decrypt N d k).1 ks).0) t
      ∙ append_assoc c.emitted (told (decrypt N d k).0 ∷ [])
          (map told (decrypt_all N (decrypt N d k).1 ks).0)

  told-stringify : (p : Payload) → J.Lossless p → told (returns (stringify p)) ≡ payload p
  unfolding told
  told-stringify p h = rw (parse-stringify p h, told) refl

  told_picked :
      (arrives : List Bool) (ps : List Payload)
      → All J.Lossless ps
      → map told (map returns (pick arrives (map stringify ps))) ≡ map payload (pick arrives ps)
  told_picked [] ps h = refl
  told_picked (b ∷ bs) [] h = refl
  told_picked (true ∷ bs) (p ∷ ps) h =
      ap (λ e. e ∷ map told (map returns (pick bs (map stringify ps)))) (told-stringify p h.0)
      ∙ ap (◌∷◌ (payload p)) (told_picked bs ps h.1)
  told_picked (false ∷ bs) (p ∷ ps) h = told_picked bs ps h.1

  -- The peer reads what the connection has encrypted.
  Reads : PeerConnection N J → (Payload → Envelope) → List Payload → List EncryptedChunk → Type 0
  Reads r envelope ps ks =
      (arrives : List Bool)
      → (deliver_all N J r (map (λ k. envelope (wrapped N J k)) (pick arrives ks))).emitted
        ≡ r.emitted ++ map payload (pick arrives ps)

  decrypted-Reads :
      (r : PeerConnection N J) (d : SessionCipher N) (envelope : Payload → Envelope)
      (ps : List Payload) (ks : List EncryptedChunk)
      → All J.Lossless ps
      → r.cipher ≡ some d
      → r.listening ≡ true
      → ((p : Payload) → Speaks N J r (envelope p) p)
      → ((arrives : List Bool)
          → (decrypt_all N d (pick arrives ks)).0 ≡ map returns (pick arrives (map stringify ps)))
      → Reads r envelope ps ks
  unfolding Reads
  decrypted-Reads r d envelope ps ks lo h l s e arrives =
      ap (λ (x : PeerConnection N J). x.emitted)
        (deliver_all-chunks N J r (pick arrives ks) (λ k. envelope (wrapped N J k)) l
          (λ k. s (wrapped N J k)))
      ∙ handle_chunks-told r d (pick arrives ks) h
      ∙ ap (λ os. r.emitted ++ map told os) (e arrives)
      ∙ ap (λ es. r.emitted ++ es) (told_picked arrives ps lo)

  -- The connection after the peer's key, which gives it the cipher `k`.
  key-ready :
      (c : PeerConnection N J) (der : List ℕ) (k : SessionCipher N)
      → c.pending_encrypted ≡ []
      → create_session_cipher N c.private_key der c.role ≡ some k
      → handle_key_exchange N J c der ≡ record (greeted N J c der) {
        cipher = some k;
        pending_encrypted = [];
        status = encrypted;
        emitted = (greeted N J c der).emitted ++ ready ∷ [];
      }
  unfolding finalize_with flush_pending_encrypted flush greeted start_handshake send_unencrypted
  key-ready c der k p e = key-greeted N J c der ∙ rw e (ground arith)

  -- An envelope that carries the public key of `other`.
  hears_key :
      (c : PeerConnection N J) (other : PrivateKey) (e : Envelope)
      → c.listening ≡ true
      → Speaks N J c e (Payload.key_exchange (to_base64 (export (public_of other))))
      → deliver N J c e ≡ handle_key_exchange N J c (export (public_of other))
  unfolding handle_payload
  hears_key c other e l s =
      deliver-Speaks N J c e _ s l
      ∙ ap (handle_key_exchange N J c)
          (from_base64-to_base64 (export (public_of other)) (export_bytes (public_of other)))

  abbrev pub Talks :
      PeerConnection N J → PeerConnection N J → (Payload → Envelope) → List Payload → Type 0
  Talks s r envelope ps =
      (ks : List EncryptedChunk) × ((x : PeerConnection N J) × (send_all s ps ≡ some x)
        × (x.sent ≡ s.sent ++ map (wrapped N J) ks))
      × ((arrives : List Bool)
          → (deliver_all N J r (map (λ k. envelope (wrapped N J k)) (pick arrives ks))).emitted
            ≡ r.emitted ++ map payload (pick arrives ps))

  -- The two ends, once each has the other's key.
  module _ (a b : PrivateKey) (hu hd gu gd : String) (ra rb : ClientRole) where
    abbrev pub guest_starts : PeerConnection N J
    guest_starts = start_handshake N J (new_connection N J b hu hd rb)

    abbrev pub host_answers : (Payload → Envelope) → PeerConnection N J
    host_answers from_guest =
        deliver_all N J (new_connection N J a gu gd ra) (map from_guest guest_starts.sent)

    abbrev pub guest_joins : (Payload → Envelope) → (Payload → Envelope) → PeerConnection N J
    guest_joins from_guest from_host =
        deliver_all N J guest_starts (map from_host (host_answers from_guest).sent)

  talk :
      (s r : PeerConnection N J) (a b : PrivateKey) (ra rb : ClientRole)
      (envelope : Payload → Envelope) (ps : List Payload)
      → All J.Lossless ps
      → length ps ≤ 2 ^ 64
      → ((c : SessionCipher N)
          → create_session_cipher N a (export (public_of b)) ra ≡ some c
          → (s.cipher ≡ some c) × (s.status ≡ encrypted))
      → ((d : SessionCipher N)
          → create_session_cipher N b (export (public_of a)) rb ≡ some d
          → (r.cipher ≡ some d) × (r.listening ≡ true))
      → ((p : Payload) → Speaks N J r (envelope p) p)
      → Talks s r envelope ps
  unfolding Sends Reads
  talk s r a b ra rb envelope ps lo le hs hr sp =
      let (c, d, ks, ec, ed, en, de) =
        channel_delivers N a b ra rb (map stringify ps) (rw (length-map stringify ps) le) in
      (
        ks,
        send_all-Sends s c ps ks (hs c ec).0 (hs c ec).1 en,
        decrypted-Reads r d envelope ps ks lo (hr d ed).0 (hr d ed).1 sp de,
      )

  listens :
      (c : PeerConnection N J) (der : List ℕ)
      → (handle_key_exchange N J c der).listening ≡ c.listening
  listens c der = (key-Kept N J c der).2

  is_ready :
      (c : PeerConnection N J) (der : List ℕ) (k : SessionCipher N)
      → c.pending_encrypted ≡ []
      → c.listening ≡ true
      → create_session_cipher N c.private_key der c.role ≡ some k
      → ((handle_key_exchange N J c der).cipher ≡ some k)
        × ((handle_key_exchange N J c der).status ≡ encrypted)
        × ((handle_key_exchange N J c der).listening ≡ true)
  is_ready c der k p l e =
      let r = key-ready c der k p e in
      (
        ap (λ (x : PeerConnection N J). x.cipher) r,
        ap (λ (x : PeerConnection N J). x.status) r,
        listens c der ∙ l,
      )

  Talks-at :
      (s s' r r' : PeerConnection N J) (envelope : Payload → Envelope) (ps : List Payload)
      → s' ≡ s
      → r' ≡ r
      → Talks s r envelope ps
      → Talks s' r' envelope ps
  Talks-at s s' r r' envelope ps e f t = rw (e, f) t

  greeted-new :
      (a : PrivateKey) (user device : String) (role : ClientRole) (key : List ℕ)
      → ((greeted N J (new_connection N J a user device role) key).sent
          ≡ Payload.key_exchange (to_base64 (export (public_of a))) ∷ [])
        × ((greeted N J (new_connection N J a user device role) key).emitted ≡ [])
        × ((greeted N J (new_connection N J a user device role) key).listening ≡ true)
  unfolding new_connection greeted start_handshake send_unencrypted
  greeted-new a user device role key = (refl, refl, refl)

  -- End to end: a guest starts the handshake, the host answers with its key, and the guest takes the
  -- host's key. Then, whatever their keys, whatever payloads either end sends, at most 2^64 that
  -- JSON prints without loss, every `send` succeeds, and whichever of the chunks arrive, in order,
  -- what the other end emits on them is exactly the payloads of those.
  pub handshake_delivers :
      (a b : PrivateKey) (hu hd gu gd : String) (ra rb : ClientRole)
      (from_host from_guest : Payload → Envelope)
      → ((p : Payload) → Speaks N J (new_connection N J a gu gd ra) (from_guest p) p)
      → ((p : Payload) → Speaks N J (new_connection N J b hu hd rb) (from_host p) p)
      → (ps qs : List Payload) → All J.Lossless ps
      → All J.Lossless qs
      → length ps ≤ 2 ^ 64
      → length qs ≤ 2 ^ 64
      → Talks
          (host_answers a b hu hd gu gd ra rb from_guest)
          (guest_joins a b hu hd gu gd ra rb from_guest from_host)
          from_host
          ps
        × Talks
            (guest_joins a b hu hd gu gd ra rb from_guest from_host)
            (host_answers a b hu hd gu gd ra rb from_guest)
            from_guest
            qs
  unfolding new_connection start_handshake send_unencrypted deliver_all
  handshake_delivers a b hu hd gu gd ra rb from_host from_guest sg sh ps qs lp lq hp hq =
      let host = new_connection N J a gu gd ra in
      let guest = guest_starts a b hu hd gu gd ra rb in
      let host_der = export (public_of a) in
      let guest_der = export (public_of b) in
      let first : host_answers a b hu hd gu gd ra rb from_guest
          ≡ handle_key_exchange N J host guest_der =
        hears_key host b (from_guest _) refl (sg _) in
      let (c, d, ks, ec, ed, en, de) = channel_delivers N a b ra rb [] (omega arith) in
      let answer : (handle_key_exchange N J host guest_der).sent
          ≡ Payload.key_exchange (to_base64 host_der) ∷ [] =
        ap (λ (x : PeerConnection N J). x.sent) (key-ready host guest_der c refl ec)
        ∙ (greeted-new a gu gd ra guest_der).0 in
      let second : guest_joins a b hu hd gu gd ra rb from_guest from_host
          ≡ handle_key_exchange N J guest host_der =
        ap (λ (x : PeerConnection N J). deliver_all N J guest (map from_host x.sent)) first
        ∙ ap (λ l. deliver_all N J guest (map from_host l)) answer
        ∙ hears_key guest a (from_host _) refl (sh _) in
      (
        Talks-at _ _ _ _ from_host ps first second (
            talk _ _ a b ra rb from_host ps lp hp
              (λ k e. let (x, y, z) = is_ready host guest_der k refl refl e in (x, y))
              (λ k e. let (x, y, z) = is_ready guest host_der k refl refl e in (x, z))
              (λ p.
                Speaks-Kept N J guest (handle_key_exchange N J guest host_der) (from_host p) p
                  (key-Kept N J guest host_der) (sh p))),
        Talks-at _ _ _ _ from_guest qs second first (
            talk _ _ b a rb ra from_guest qs lq hq
              (λ k e. let (x, y, z) = is_ready guest host_der k refl refl e in (x, y))
              (λ k e. let (x, y, z) = is_ready host guest_der k refl refl e in (x, z))
              (λ p.
                Speaks-Kept N J host (handle_key_exchange N J host guest_der) (from_guest p) p
                  (key-Kept N J host guest_der) (sg p))),
      )
