-- ===== src/Protocol/Legacy.antt =====
-- packages/protocol/src/index.ts: the direct messages of the command line relay.
use tbridge.Base.{String, ℕ, Option}
use tbridge.Protocol.{PeerIdentity}

pub data ClientRole : Type 0 where
  host guest : ClientRole

pub data ClientMessage : Type 0 where
  register_host : String → PeerIdentity → ClientMessage
  register_guest : String → PeerIdentity → ClientMessage
  access_approved : ClientMessage
  access_rejected : Option String → ClientMessage
  reconnect : String → PeerIdentity → ClientMessage
  key_exchange : String → ClientMessage
  encrypted_data : String → String → ClientMessage
  pty_input : String → ClientMessage
  pty_output : String → ClientMessage
  pty_resize : ℕ → ℕ → ClientMessage
  pty_exit : Option ℕ → ClientMessage
  session_terminate : Option String → ClientMessage

pub data ServerMessage : Type 0 where
  host_registered : String → ServerMessage
  access_request : String → PeerIdentity → ServerMessage
  session_ready : String → ClientRole → ServerMessage
  session_info : PeerIdentity → ServerMessage
  reconnect_ok : String → ClientRole → ServerMessage
  access_rejected : String → ServerMessage
  key_exchange : String → ServerMessage
  encrypted_data : String → String → ServerMessage
  pty_input : String → ServerMessage
  pty_output : String → ServerMessage
  pty_resize : ℕ → ℕ → ServerMessage
  pty_exit : Option ℕ → ServerMessage
  session_terminate : Option String → ServerMessage
  error : String → ServerMessage
