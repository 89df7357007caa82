-- ===== src/Network/RelayWorker/Pairing.antt =====
-- packages/network/src/relay-worker.ts: a share code leads to its host.
use tbridge.Base.{
  ℕ, ◌≡◌, ◌≢◌, has, String, true, false, [], ◌∷◌, ◌++◌, set, get-set, nat_eq, string_eq, arith,
}
use tbridge.Protocol.{PeerIdentity}
use tbridge.Protocol.Envelopes.{DeviceCapabilities, Envelope, Payload, relay}
use tbridge.Network.RelayWorker.{
  Worker, send, register, pair_request, relay_bound, route, handle_envelope, from_id,
}

-- A share code leads to the host that asked for it: where a host that is new says HELLO and gets
-- `code`, the next message, a PAIR_REQUEST with that code from somebody else, is forwarded as it is
-- to the host's socket if that is open, and nothing else is sent.
pub pair_reaches_host :
    (w : Worker) (h g : ℕ) (e e' : Envelope) (code code' id id' : String) (now now' : ℕ)
    (capabilities : DeviceCapabilities) (key : String) (identity : PeerIdentity)
    → e.to ≡ relay
    → e.payload ≡ Payload.hello capabilities key
    → has (from_id e) w.clients ≡ false
    → e'.to ≡ relay
    → e'.payload ≡ Payload.pair_request code identity
    → from_id e' ≢ from_id e
    → w.open_sockets h ≡ true
    → (handle_envelope (handle_envelope w h e code id now) g e' code' id' now').out
      ≡ (handle_envelope w h e code id now).out ++ (h, e') ∷ []
unfolding handle_envelope route register relay_bound pair_request send
pair_reaches_host w h g e e' code code' id id' now now' capabilities key identity t p f t' p' ne o =
    ground (
      arith,
      get-set (from_id e) (from_id e) h w.clients,
      get-set code code (from_id e) w.share_codes,
      get-set (from_id e') (from_id e) g (set (from_id e) h w.clients),
      string_eq.same_iff (from_id e') (from_id e),
      string_eq.same_iff (from_id e) (from_id e),
      string_eq.same_iff code code,
    )
