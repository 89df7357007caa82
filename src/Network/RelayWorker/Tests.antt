-- ===== src/Network/RelayWorker/Tests.antt =====
-- packages/network/src/relay-worker.ts: the theorems at a host and a guest.
use tbridge.Base.{◌≡◌, ◌++◌, refl, true, [], ◌∷◌, get, has, string_eq}
use mathlib.Core.Bool.{false≢true}
use tbridge.Protocol.{PeerIdentity}
use tbridge.Protocol.Envelopes.{DeviceCapabilities, Envelope, Payload, relay, create_envelope}
use tbridge.Network.RelayWorker.{Worker, id_of, handle_envelope}
use tbridge.Network.RelayWorker.Pairing.{pair_reaches_host}

abbrev empty : Worker
empty = record {
  clients = [];
  socket_ids = [];
  share_codes = [];
  socket_codes = [];
  rate_limits = [];
  open_sockets = λ k. true;
  out = [];
}

abbrev laptop : DeviceCapabilities
laptop = record { shells = []; can_execute = true; os = "linux"; arch = "arm64" }

abbrev bob : PeerIdentity
bob = record { user_id = "bob"; device_id = "phone"; device_name = "phone"; public_key = "k" }

abbrev hello : Envelope
hello = create_envelope "1" 0 "alice" "laptop" relay (Payload.hello laptop "k")

abbrev asks : Envelope
asks = create_envelope "2" 0 "bob" "phone" relay (Payload.pair_request "123-456" bob)

pair_reaches_host_example :
    (handle_envelope (handle_envelope empty 1 hello "123-456" "r" 0) 2 asks "000-000" "s" 1).out
    ≡ (handle_envelope empty 1 hello "123-456" "r" 0).out ++ (1, asks) ∷ []
unfolding create_envelope has get id_of
pair_reaches_host_example =
    pair_reaches_host empty 1 2 hello asks "123-456" "000-000" "r" "s" 0 1 laptop "k" bob refl refl
      refl refl refl (λ h. false≢true ((string_eq.same_iff "bob:phone" "alice:laptop").1 h)) refl
