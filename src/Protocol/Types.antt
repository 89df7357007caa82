-- ===== src/Protocol/Types.antt =====
-- packages/protocol/src/index.ts: the identity of a peer.
use tbridge.Base.{String}

pub record PeerIdentity : Type 0 where
  pub user_id : String
  pub device_id : String
  pub device_name : String
  pub public_key : String
