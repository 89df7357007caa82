-- ===== src/Network/PeerConnection/Early.antt =====
-- packages/network/src/peer-connection.ts: chunks that arrive before the peer's key.
use tbridge.Base.{
  ℕ, ◌≡◌, ◌++◌, refl, sym, ap, ◌∙◌, inl, inr, String, true, false, Option, none, some, List, [],
  ◌∷◌, map, if◌then◌else◌, nat_eq, string_eq, arith, Bool-cases, Bool, if_both,
}
use tbridge.Protocol.Envelopes.{Payload, Envelope}
use tbridge.Crypto.{
  Primitives, EncryptedChunk, SessionCipher, returns, decrypt, create_session_cipher,
}
use tbridge.Network.PeerConnection.{
  Json, Status, connecting, handshake, encrypted, disconnected, is_encrypted, is_handshake, payload,
  ready, failed_cipher, PeerConnection, send_unencrypted, start_handshake, decrypt_with,
  decrypt_and_emit, flush, flush_pending_encrypted, finalize_with, finalize_handshake,
  handle_key_exchange, handle_chunk, handle_payload, handle_envelope, deliver, deliver_all, wrapped,
}
use mathlib.Core.List.{append-nil, append_assoc}

starting : (s : Status) → is_handshake s ≡ true → is_encrypted s ≡ false
starting connecting h = refl
starting handshake h = refl
starting encrypted h = sym h
starting disconnected h = refl

module _ (N : Primitives) (J : Json N) where
  -- An envelope from the connection's peer.
  abbrev pub Speaks : PeerConnection N J → Envelope → Payload → Type 0
  Speaks c e p = (e.from_user ≡ c.peer_user) × (e.from_device ≡ c.peer_device) × (e.payload ≡ p)

  pub deliver-Speaks :
      (c : PeerConnection N J) (e : Envelope) (p : Payload)
      → Speaks c e p
      → c.listening ≡ true
      → deliver N J c e ≡ handle_payload N J c p
  unfolding deliver handle_envelope
  deliver-Speaks c e p (u, d, q) l = ground (
    arith,
    string_eq.same_iff e.from_user c.peer_user,
    string_eq.same_iff e.from_device c.peer_device,
  )

  deaf : (c : PeerConnection N J) (e : Envelope) → c.listening ≡ false → deliver N J c e ≡ c
  unfolding deliver
  deaf c e l = ground arith

  pub deliver_deaf :
      (c : PeerConnection N J) (es : List Envelope) → c.listening ≡ false → deliver_all N J c es ≡ c
  unfolding deliver_all deliver
  deliver_deaf c [] l = refl
  deliver_deaf c (e ∷ es) l = ap (λ d. deliver_all N J d es) (deaf c e l) ∙ deliver_deaf c es l

  -- The chunks one after the other.
  unfoldable pub handle_chunks : PeerConnection N J → List EncryptedChunk → PeerConnection N J
  handle_chunks c [] = c
  handle_chunks c (k ∷ ks) = handle_chunks (handle_chunk N J c k) ks

  adds : List EncryptedChunk → PeerConnection N J → PeerConnection N J
  adds ks d = record d { pending_encrypted = d.pending_encrypted ++ ks }

  pends :
      (c : PeerConnection N J) (k : EncryptedChunk)
      → c.cipher ≡ none
      → handle_chunk N J c k ≡ record c { pending_encrypted = c.pending_encrypted ++ k ∷ [] }
  unfolding handle_chunk
  pends c k h = ground arith

  handle_chunks-none :
      (c : PeerConnection N J) (ks : List EncryptedChunk)
      → c.cipher ≡ none
      → handle_chunks c ks ≡ record c { pending_encrypted = c.pending_encrypted ++ ks }
  unfolding handle_chunks handle_chunk adds
  handle_chunks-none c [] h =
      ap (λ l. record c { pending_encrypted = l }) (sym (append-nil c.pending_encrypted))
  handle_chunks-none c (k ∷ ks) h =
      handle_chunks-none (handle_chunk N J c k) ks (ground arith)
      ∙ ap (adds ks) (pends c k h)
      ∙ ap (λ l. record c { pending_encrypted = l }) (append_assoc c.pending_encrypted (k ∷ []) ks)

  -- The cipher reads each of the chunks, one after the other, as a payload that JSON parses.
  abbrev pub Readable : SessionCipher N → List EncryptedChunk → Type 0
  Readable k [] = Unit
  Readable k (c ∷ cs) =
      ((text : N.Text) × (p : Payload) × ((decrypt N k c).0 ≡ returns text)
        × (J.parse text ≡ some p))
      × Readable (decrypt N k c).1 cs

  reads :
      (c : PeerConnection N J) (d : SessionCipher N) (k : EncryptedChunk) (text : N.Text)
      (p : Payload)
      → c.cipher ≡ some d
      → (decrypt N d k).0 ≡ returns text
      → J.parse text ≡ some p
      → decrypt_and_emit N J c k ≡ (
        true,
        record c { cipher = some (decrypt N d k).1; emitted = c.emitted ++ payload p ∷ [] },
      )
  unfolding decrypt_and_emit decrypt_with
  reads c d k text p h e q = rw (h, e, q, decrypt_and_emit) refl

  handles :
      (c : PeerConnection N J) (d : SessionCipher N) (k : EncryptedChunk)
      → c.cipher ≡ some d
      → handle_chunk N J c k ≡ (decrypt_and_emit N J c k).1
  unfolding handle_chunk
  handles c d k h = ground arith

  -- What can be read is read to the end of the queue.
  flush-Readable :
      (c : PeerConnection N J) (d : SessionCipher N) (ks : List EncryptedChunk)
      → c.cipher ≡ some d
      → Readable d ks
      → flush N J c ks ≡ (true, handle_chunks (record c { pending_encrypted = [] }) ks)
  unfolding handle_chunks flush
  flush-Readable c d [] h r = refl
  flush-Readable c d (k ∷ ks) h r =
      let (text, p, e, q) = r.0 in
      let c' : PeerConnection N J = record c {
        cipher = some (decrypt N d k).1;
        pending_encrypted = ks;
        emitted = c.emitted ++ payload p ∷ [];
      } in
      let one = reads (record c { pending_encrypted = ks }) d k text p h e q in
      let none_left : PeerConnection N J = record c { pending_encrypted = [] } in
      let two = handles none_left d k h ∙ ap (λ x. x.1) (reads none_left d k text p h e q) in
      rw (one, two) (flush-Readable c' (decrypt N d k).1 ks refl r.1)

  finalize-chunks :
      (c : PeerConnection N J) (o : Option (SessionCipher N)) (ks : List EncryptedChunk)
      → c.cipher ≡ none
      → c.pending_encrypted ≡ []
      → ((k : SessionCipher N) → o ≡ some k → Readable k ks)
      → finalize_with N J (record c { pending_encrypted = ks }) o
        ≡ handle_chunks (finalize_with N J c o) ks
  unfolding finalize_with flush_pending_encrypted flush
  finalize-chunks c none ks h p r =
      ap
        (λ l. record c {
          pending_encrypted = l ++ ks;
          status = disconnected;
          emitted = c.emitted ++ failed_cipher ∷ [];
        })
        (sym p)
      ∙ sym (handle_chunks-none (finalize_with N J c none) ks h)
  finalize-chunks c (some k) ks h p r =
      let d : PeerConnection N J = record c {
        cipher = some k;
        pending_encrypted = ks;
        status = encrypted;
        emitted = c.emitted ++ ready ∷ [];
      } in
      rw (flush-Readable d k ks refl (r k refl), p) refl

  -- The connection that has noted the key, and sent its own.
  unfoldable pub greeted : PeerConnection N J → List ℕ → PeerConnection N J
  greeted c key =
      if is_handshake c.status
      then record c { peer_public_key = some key }
      else start_handshake N J (record c { peer_public_key = some key })

  pub key-greeted :
      (c : PeerConnection N J) (key : List ℕ)
      → handle_key_exchange N J c key
        ≡ finalize_with N J (greeted c key) (create_session_cipher N c.private_key key c.role)
  unfolding handle_key_exchange finalize_handshake start_handshake send_unencrypted greeted
  key-greeted c key = elim (Bool-cases (is_handshake c.status)) [
    | inl x ↦ let y = starting c.status x in ground arith
    | inr x ↦ ground arith
  ]

  greeted-pending :
      (c : PeerConnection N J) (key : List ℕ) (ks : List EncryptedChunk)
      → greeted (record c { pending_encrypted = ks }) key
        ≡ record (greeted c key) { pending_encrypted = ks }
  unfolding greeted start_handshake send_unencrypted
  greeted-pending c key ks = ground arith

  greeted-kept :
      (c : PeerConnection N J) (key : List ℕ)
      → ((greeted c key).cipher ≡ c.cipher)
        × ((greeted c key).pending_encrypted ≡ c.pending_encrypted)
        × ((greeted c key).listening ≡ c.listening)
  unfolding greeted start_handshake send_unencrypted
  greeted-kept c key = ground arith

  key-chunks :
      (c : PeerConnection N J) (key : List ℕ) (ks : List EncryptedChunk)
      → c.cipher ≡ none
      → c.pending_encrypted ≡ []
      → ((k : SessionCipher N)
          → create_session_cipher N c.private_key key c.role ≡ some k
          → Readable k ks)
      → handle_key_exchange N J (record c { pending_encrypted = ks }) key
        ≡ handle_chunks (handle_key_exchange N J c key) ks
  key-chunks c key ks h p r =
      let o = create_session_cipher N c.private_key key c.role in
      let (hc, hp, hl) = greeted-kept c key in
      key-greeted (record c { pending_encrypted = ks }) key
      ∙ ap (λ d. finalize_with N J d o) (greeted-pending c key ks)
      ∙ finalize-chunks (greeted c key) o ks (hc ∙ h) (hp ∙ p) r
      ∙ ap (λ d. handle_chunks d ks) (sym (key-greeted c key))

  abbrev deferred : PeerConnection N J → List EncryptedChunk → PeerConnection N J
  deferred c ks = record c { pending_encrypted = ks }

  -- Neither the peer nor whether the connection listens has changed.
  abbrev pub Kept : PeerConnection N J → PeerConnection N J → Type 0
  Kept c d =
      (d.peer_user ≡ c.peer_user) × (d.peer_device ≡ c.peer_device) × (d.listening ≡ c.listening)

  Kept-trans : (b c d : PeerConnection N J) → Kept b c → Kept c d → Kept b d
  Kept-trans b c d (u, v, l) (u', v', l') = (u' ∙ u, v' ∙ v, l' ∙ l)

  decrypt_and_emit-Kept :
      (c : PeerConnection N J) (k : EncryptedChunk) → Kept c (decrypt_and_emit N J c k).1
  unfolding decrypt_and_emit decrypt_with
  decrypt_and_emit-Kept c k = ground arith

  pub handle_chunk-Kept :
      (c : PeerConnection N J) (k : EncryptedChunk) → Kept c (handle_chunk N J c k)
  unfolding handle_chunk decrypt_and_emit decrypt_with
  handle_chunk-Kept c k = ground arith

  flush-Kept : (c : PeerConnection N J) (ks : List EncryptedChunk) → Kept c (flush N J c ks).1
  unfolding flush
  flush-Kept c [] = (refl, refl, refl)
  flush-Kept c (k ∷ ks) =
      let c0 : PeerConnection N J = record c { pending_encrypted = ks } in
      let one = decrypt_and_emit-Kept c0 k in
      let c' = (decrypt_and_emit N J c0 k).1 in
      if_both (λ (r : Bool × PeerConnection N J). Kept c (r.1)) (decrypt_and_emit N J c0 k).0
        (Kept-trans c c' (flush N J c' ks).1 one (flush-Kept c' ks)) one

  finalize_with-Kept :
      (c : PeerConnection N J) (o : Option (SessionCipher N)) → Kept c (finalize_with N J c o)
  unfolding finalize_with flush_pending_encrypted
  finalize_with-Kept c none = (refl, refl, refl)
  finalize_with-Kept c (some k) =
      let d : PeerConnection N J = record c {
        cipher = some k;
        status = encrypted;
        emitted = c.emitted ++ ready ∷ [];
      } in
      let kept = flush-Kept d c.pending_encrypted in
      if_both (Kept c) (flush N J d c.pending_encrypted).0 kept kept

  pub key-Kept : (c : PeerConnection N J) (key : List ℕ) → Kept c (handle_key_exchange N J c key)
  unfolding greeted start_handshake send_unencrypted
  key-Kept c key =
      let o = create_session_cipher N c.private_key key c.role in
      rw (key-greeted c key) (
        Kept-trans c (greeted c key) (finalize_with N J (greeted c key) o) (ground arith)
          (finalize_with-Kept (greeted c key) o))

  pub Speaks-Kept :
      (c d : PeerConnection N J) (e : Envelope) (p : Payload)
      → Kept c d
      → Speaks c e p
      → Speaks d e p
  Speaks-Kept c d e p (u, v, l) (u', v', q) = (u' ∙ sym u, v' ∙ sym v, q)

  -- The peer's chunks are all heard.
  pub deliver_all-chunks :
      (c : PeerConnection N J) (ks : List EncryptedChunk) (envelope : EncryptedChunk → Envelope)
      → c.listening ≡ true
      → ((k : EncryptedChunk) → Speaks c (envelope k) (wrapped N J k))
      → deliver_all N J c (map envelope ks) ≡ handle_chunks c ks
  unfolding deliver_all handle_chunks handle_payload
  deliver_all-chunks c [] envelope l s = refl
  deliver_all-chunks c (k ∷ ks) envelope l s =
      let kept = handle_chunk-Kept c k in
      ap (λ d. deliver_all N J d (map envelope ks)) (deliver-Speaks c (envelope k) _ (s k) l)
      ∙ deliver_all-chunks (handle_chunk N J c k) ks envelope (kept.2 ∙ l)
          (λ k'. Speaks-Kept c (handle_chunk N J c k) (envelope k') _ kept (s k'))

  heard_early :
      (c : PeerConnection N J) (key : String) (e : Envelope) (ks : List EncryptedChunk)
      (envelope : EncryptedChunk → Envelope)
      → c.listening ≡ true
      → c.cipher ≡ none
      → c.pending_encrypted ≡ []
      → ((k : SessionCipher N)
          → create_session_cipher N c.private_key (N.from_base64 key) c.role ≡ some k
          → Readable k ks)
      → Speaks c e (Payload.key_exchange key)
      → ((k : EncryptedChunk) → Speaks c (envelope k) (wrapped N J k))
      → deliver N J (deliver_all N J c (map envelope ks)) e
        ≡ deliver_all N J (deliver N J c e) (map envelope ks)
  unfolding handle_payload
  heard_early c key e ks envelope l h p r s ss =
      let c' : PeerConnection N J = record c { pending_encrypted = ks } in
      let der = N.from_base64 key in
      let kept = key-Kept c der in
      ap (λ d. deliver N J d e)
        (deliver_all-chunks c ks envelope l ss
          ∙ handle_chunks-none c ks h
          ∙ ap (λ q. deferred c (q ++ ks)) p)
      ∙ deliver-Speaks c' e _ s l
      ∙ key-chunks c der ks h p r
      ∙ sym (
          deliver_all-chunks (handle_key_exchange N J c der) ks envelope (kept.2 ∙ l)
            (λ k. Speaks-Kept c (handle_key_exchange N J c der) (envelope k) _ kept (ss k)))
      ∙ ap (λ d. deliver_all N J d (map envelope ks)) (sym (deliver-Speaks c e _ s l))

  -- Chunks that arrive before the peer's key are not lost, and are read in order. From a connection
  -- without a cipher and without pending chunks, where the cipher that the key gives, if it gives one,
  -- can read the chunks, the connection ends in the same state, with the same events, whether the
  -- peer's chunks come before its key or after.
  pub early_chunks :
      (c : PeerConnection N J) (key : String) (e : Envelope) (ks : List EncryptedChunk)
      (envelope : EncryptedChunk → Envelope)
      → c.cipher ≡ none
      → c.pending_encrypted ≡ []
      → ((k : SessionCipher N)
          → create_session_cipher N c.private_key (N.from_base64 key) c.role ≡ some k
          → Readable k ks)
      → Speaks c e (Payload.key_exchange key)
      → ((k : EncryptedChunk) → Speaks c (envelope k) (wrapped N J k))
      → deliver N J (deliver_all N J c (map envelope ks)) e
        ≡ deliver_all N J (deliver N J c e) (map envelope ks)
  early_chunks c key e ks envelope h p r s ss = elim (Bool-cases c.listening) [
    | inl l ↦ heard_early c key e ks envelope l h p r s ss
    | inr l ↦
        ap (λ d. deliver N J d e) (deliver_deaf c (map envelope ks) l)
        ∙ deaf c e l
        ∙ sym (deliver_deaf c (map envelope ks) l)
        ∙ ap (λ d. deliver_all N J d (map envelope ks)) (sym (deaf c e l))
  ]
