-- ===== src/Protocol/Envelopes.antt =====
-- packages/protocol/src/index.ts: the envelopes of version 2 and their payloads. Sizes, exit codes
-- and times are natural numbers.
use tbridge.Base.{ℕ, String, Bool, Option, List}
use tbridge.Protocol.Types.{PeerIdentity}

pub record DeviceCapabilities : Type 0 where
  pub shells : List String
  pub can_execute : Bool
  pub os : String
  pub arch : String

pub data DeviceStatus : Type 0 where
  online offline away : DeviceStatus

pub record DeviceInfo : Type 0 where
  pub id : String
  pub name : String
  pub platform : String
  pub owner : String
  pub status : DeviceStatus
  pub capabilities : DeviceCapabilities

pub data SessionStatus : Type 0 where
  active idle exited : SessionStatus

pub record SessionInfo : Type 0 where
  pub id : String
  pub device_id : String
  pub owner : String
  pub shell : String
  pub status : SessionStatus
  pub title : String
  pub cols : ℕ
  pub rows : ℕ
  pub created_at : ℕ

pub data Destination : Type 0 where
  peer : String → String → Destination
  relay broadcast : Destination

pub data Payload : Type 0 where
  hello : DeviceCapabilities → String → Payload
  hello_ack : String → Payload
  pair_request : String → PeerIdentity → Payload
  pair_accept : Payload
  pair_reject : String → Payload
  key_exchange : String → Payload
  exec_request : String → Option String → Payload
  exec_approval_required : String → String → String → Payload
  exec_approved : String → Payload
  exec_rejected : String → String → Payload
  pty_data : String → String → Payload
  pty_resize : String → ℕ → ℕ → Payload
  pty_exit : String → Option ℕ → Payload
  session_list_request : Payload
  session_list : List SessionInfo → Payload
  sync_sessions : List SessionInfo → Payload
  session_create : Option String → Option String → Payload
  session_created : SessionInfo → Payload
  session_close : String → Payload
  device_status : DeviceStatus → Payload
  device_list_request : Payload
  device_list : List DeviceInfo → Payload
  message : String → Payload
  message_ack : String → Payload
  encrypted : String → String → Payload
  ping pong : Payload
  error : String → String → Payload
  disconnect : Option String → Payload

pub record Envelope : Type 0 where
  pub v : ℕ
  pub id : String
  pub ts : ℕ
  pub from_user : String
  pub from_device : String
  pub to : Destination
  pub payload : Payload

-- The message id and the time are given.
unfoldable pub create_envelope : String → ℕ → String → String → Destination → Payload → Envelope
create_envelope id now user device to payload = record {
  v = 2;
  id = id;
  ts = now;
  from_user = user;
  from_device = device;
  to = to;
  payload = payload;
}
