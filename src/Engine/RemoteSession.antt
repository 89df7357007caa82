-- ===== src/Engine/RemoteSession.antt =====
-- packages/engine/src/remote-session.ts: a session on the peer's machine.
--
-- `send` of the peer connection is an argument, as a test: whether it throws, which it does where
-- the connection is not encrypted. What is sent is appended to `sent`, what is emitted to `emitted`.
pub mod Mirror
use tbridge.Base.{
  ℕ, ◌++◌, String, Bool, true, false, ◌&&◌, not, Option, none, some, List, [], ◌∷◌, if◌then◌else◌,
  ◌==◌, string_eq,
}
use tbridge.Protocol.Envelopes.{SessionStatus, active, idle, exited, SessionInfo, Payload}
use tbridge.Engine.Session.{is_active, is_exited}

pub data Emitted : Type 0 where
  status_change : SessionStatus → Emitted
  data_event : String → Emitted
  exit_event : ℕ → Emitted

pub record RemoteSession : Type 0 where
  pub id : String
  pub owner : String
  pub device_id : String
  pub shell : String
  pub created_at : ℕ
  pub title : String
  pub status : SessionStatus
  pub exit_code : Option ℕ
  pub cols : ℕ
  pub rows : ℕ
  pub sent : List Payload
  pub emitted : List Emitted

abbrev pub emit : RemoteSession → Emitted → RemoteSession
emit s e = record s { emitted = s.emitted ++ e ∷ [] }

unfoldable pub new_remote_session : String → String → String → String → ℕ → ℕ → ℕ → RemoteSession
new_remote_session id owner device_id shell cols rows now = record {
  id = id;
  owner = owner;
  device_id = device_id;
  shell = shell;
  created_at = now;
  title = "Remote Session";
  status = active;
  exit_code = none;
  cols = cols;
  rows = rows;
  sent = [];
  emitted = [];
}

-- The listener of the connection's payloads.
unfoldable pub on_payload : RemoteSession → Payload → RemoteSession
on_payload s (Payload.pty_data id text) = if id == s.id then emit s (data_event text) else s
on_payload s (Payload.pty_resize id cols rows) =
    if id == s.id then record s { cols = cols; rows = rows } else s
on_payload s p = s

unfoldable pub on_connection_close : RemoteSession → RemoteSession
on_connection_close s =
    emit (emit (record s { status = exited; exit_code = some 0 }) (status_change exited))
      (exit_event 0)

-- `none` where `connection.send` throws.
unfoldable pub write : RemoteSession → Bool → String → Option RemoteSession
write s throws text =
    if not (is_active s.status)
    then some s
    else if throws
    then none
    else some (record s { sent = s.sent ++ Payload.pty_data s.id text ∷ [] })

-- The size is set before `send`: the second component is the session, whether or not it throws.
unfoldable pub resize : RemoteSession → Bool → ℕ → ℕ → Bool × RemoteSession
resize s throws cols rows =
    if not (is_active s.status)
    then (true, s)
    else if throws
    then (false, record s { cols = cols; rows = rows })
    else (
      true,
      record s {
        cols = cols;
        rows = rows;
        sent = s.sent ++ Payload.pty_resize s.id cols rows ∷ [];
      },
    )

unfoldable pub pause : RemoteSession → RemoteSession
pause s = emit (record s { status = idle }) (status_change idle)

unfoldable pub resume : RemoteSession → RemoteSession
resume s = emit (record s { status = active }) (status_change active)

unfoldable pub kill : RemoteSession → RemoteSession
kill s =
    if is_exited s.status
    then s
    else emit (emit (record s { status = exited; exit_code = some 130 }) (status_change exited))
        (exit_event 130)

-- `cancel` and `close` are `kill`.
unfoldable pub cancel : RemoteSession → RemoteSession
cancel s = kill s

unfoldable pub close : RemoteSession → RemoteSession
close s = kill s

unfoldable pub to_info : RemoteSession → SessionInfo
to_info s = record {
  id = s.id;
  title = s.title;
  owner = s.owner;
  device_id = s.device_id;
  shell = s.shell;
  status = s.status;
  created_at = s.created_at;
  cols = s.cols;
  rows = s.rows;
}
