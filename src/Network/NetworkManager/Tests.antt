-- ===== src/Network/NetworkManager/Tests.antt =====
-- packages/network/src/network-manager.ts: the theorems at a manager with a connection to a relay.
use tbridge.Base.{ℕ, refl, true, none, [], ◌∷◌, get, nat_eq, string_eq}
use tbridge.Protocol.Envelopes.{DeviceCapabilities}
use tbridge.Crypto.Toy.{toy}
use tbridge.Network.PeerConnection.{Json}
use tbridge.Network.NetworkManager.{NetworkManager, handle_all, new_manager, connect}
use tbridge.Network.NetworkManager.Reconnecting.{Retrying, outage, outage_retries}

-- Nothing is printed without loss.
abbrev no_json : Json toy
no_json = record {
  Lossless = λ p. ⊥;
  stringify = λ p. 0;
  parse = λ t. none;
  parse-stringify = λ p h. absurd h;
}

abbrev laptop : DeviceCapabilities
laptop = record { shells = []; can_execute = true; os = "linux"; arch = "x64" }

abbrev dialling : NetworkManager toy no_json
dialling = connect toy no_json (new_manager toy no_json "ann" "a1" laptop "pa") "ws://relay"

-- The relay was lost twice, and a timer runs.
abbrev waiting : NetworkManager toy no_json
waiting = record (new_manager toy no_json "ann" "a1" laptop "pa") {
  reconnect_attempts = 2;
  retries = (4, record { delay = 4000; url = "ws://relay" }) ∷ [];
  next_retry = 5;
}

outage_retries_example :
    (j : ℕ) × Retrying toy no_json
      (handle_all toy no_json waiting (outage toy no_json 4 4 0 5))
      j
      6
      "ws://relay"
unfolding new_manager get
outage_retries_example = outage_retries toy no_json 4 waiting 4 2 "ws://relay" (refl, refl, refl)
