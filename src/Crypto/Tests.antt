-- ===== src/Crypto/Tests.antt =====
-- packages/crypto/src/index.ts: the theorems at a stand-in for the primitives.
use tbridge.Base.{ℕ, ◌≡◌, refl, Bool, some, List, [], ◌∷◌, map, nat_eq, string_eq, arith}
use tbridge.Protocol.Legacy.{ClientRole}
use tbridge.Crypto.{
  EncryptedChunk, replay, returns, throws, SessionCipher, new_cipher, chunk_of, encrypt, decrypt,
  decrypt_bytes, create_session_cipher, decrypt_all, encrypt_all, counter_of, build_nonce, be,
  of_be,
}
use tbridge.Crypto.Nonces.{nonce_unique}
use tbridge.Crypto.Replay.{replay_refused, forgery_blocks}
use tbridge.Crypto.Channel.{pick, channel_delivers}
use tbridge.Crypto.Toy.{letters, spell, read_from, zeros, toy_tag, checked, toy}

abbrev plain : SessionCipher toy
plain = new_cipher toy (5 ∷ []) 2

-- The chunk with which the guest's counter `n` starts, and one with a tag that does not fit.
abbrev guest_chunk : ℕ → EncryptedChunk
guest_chunk n = chunk_of toy (build_nonce (be 4 2) n) (zeros 3, toy_tag)

abbrev forged_chunk : ℕ → EncryptedChunk
forged_chunk n = chunk_of toy (build_nonce (be 4 2) n) (zeros 3, zeros 16)

channel_delivers_example :
    (c : SessionCipher toy) × (d : SessionCipher toy) × (ks : List EncryptedChunk)
    × (create_session_cipher toy 3 (zeros 4) ClientRole.host ≡ some c)
    × (create_session_cipher toy 4 (zeros 3) ClientRole.guest ≡ some d)
    × ((encrypt_all toy c (8 ∷ 9 ∷ [])).0 ≡ map returns ks)
    × ((arrives : List Bool)
        → (decrypt_all toy d (pick arrives ks)).0 ≡ map returns (pick arrives (8 ∷ 9 ∷ [])))
channel_delivers_example =
    channel_delivers toy 3 4 ClientRole.host ClientRole.guest (8 ∷ 9 ∷ []) (omega arith)

nonce_unique_example : ◌≡◌ {A = ClientRole} ClientRole.host ClientRole.host × ◌≡◌ {A = ℕ} 1 1
unfolding encrypt_all encrypt decrypt_all decrypt decrypt_bytes new_cipher build_nonce counter_of be
    of_be zeros toy_tag spell letters read_from checked
nonce_unique_example =
    nonce_unique toy (5 ∷ []) (5 ∷ []) ClientRole.host ClientRole.host (1 ∷ []) (2 ∷ []) 3 3
      (chunk_of toy (build_nonce (be 4 1) 1) (zeros 3, toy_tag))
      (chunk_of toy (build_nonce (be 4 1) 1) (zeros 3, toy_tag)) refl refl refl

replay_refused_example :
    (decrypt toy
      (decrypt_all toy (decrypt toy plain (guest_chunk 0)).1 (guest_chunk 1 ∷ [])).1
      (guest_chunk 0)).0
    ≡ throws replay
unfolding encrypt_all encrypt decrypt_all decrypt decrypt_bytes new_cipher build_nonce counter_of be
    of_be zeros toy_tag spell letters read_from checked
replay_refused_example = replay_refused toy plain (guest_chunk 0) 3 (guest_chunk 1 ∷ []) refl

forgery_blocks_example :
    (decrypt toy (decrypt_all toy (decrypt toy plain (forged_chunk 3)).1 []).1 (guest_chunk 0)).0
    ≡ throws replay
unfolding encrypt_all encrypt decrypt_all decrypt decrypt_bytes new_cipher build_nonce counter_of be
    of_be zeros toy_tag spell letters read_from checked
forgery_blocks_example =
    forgery_blocks toy plain (forged_chunk 3) (guest_chunk 0) [] refl (refl, omega arith)
      (omega arith)
