-- ===== src/Engine/ExecutionEngine/Interface.antt =====
-- packages/engine/src/types.ts: what the engine asks of a session, and the two kinds that there are.
use tbridge.Base.{ℕ, ◌≡◌, String, Bool, true, false, Option, none, some, arith}
use tbridge.Protocol.Envelopes.{SessionStatus, SessionInfo}
use tbridge.Engine.Session
use tbridge.Engine.RemoteSession

-- `ISession`. `write` and `resize` say whether they return; the id is readonly.
pub record Sessions (S : Type 0) : Type 0 where
  pub id : S → String
  pub status : S → SessionStatus
  pub write : S → String → Bool × S
  pub resize : S → ℕ → ℕ → Bool × S
  pub cancel : S → S
  pub kill : S → S
  pub close : S → S
  pub to_info : S → SessionInfo
  pub id-write : (s : S) (text : String) → id (write s text).1 ≡ id s
  pub id-resize : (s : S) (cols rows : ℕ) → id (resize s cols rows).1 ≡ id s
  pub id-cancel : (s : S) → id (cancel s) ≡ id s
  pub id-kill : (s : S) → id (kill s) ≡ id s
  pub id-close : (s : S) → id (close s) ≡ id s

pub local_write : (s : Session.Session) (text : String) → (Session.write s text).id ≡ s.id
unfolding Session.write
local_write s text = ground arith

pub local_resize : (s : Session.Session) (cols rows : ℕ) → (Session.resize s cols rows).id ≡ s.id
unfolding Session.resize
local_resize s cols rows = ground arith

pub local_cancel : (s : Session.Session) → (Session.cancel s).id ≡ s.id
unfolding Session.cancel
local_cancel s = ground arith

pub local_kill : (s : Session.Session) → (Session.kill s "SIGKILL").id ≡ s.id
unfolding Session.kill Session.clear_timeout
local_kill s = ground arith

pub local_close : (s : Session.Session) → (Session.close s).id ≡ s.id
unfolding Session.close
local_close s = ground arith

-- The sessions of this machine, whose methods do not throw.
abbrev pub local : Sessions Session.Session
local = record {
  id = λ s. s.id;
  status = λ s. s.status;
  write = λ s text. (true, Session.write s text);
  resize = λ s cols rows. (true, Session.resize s cols rows);
  cancel = Session.cancel;
  kill = λ s. Session.kill s "SIGKILL";
  close = Session.close;
  to_info = Session.to_info;
  id-write = local_write;
  id-resize = local_resize;
  id-cancel = local_cancel;
  id-kill = local_kill;
  id-close = local_close;
}

abbrev pub or_thrown :
    RemoteSession.RemoteSession
    → Option RemoteSession.RemoteSession
    → Bool × RemoteSession.RemoteSession
or_thrown s none = (false, s)
or_thrown s (some t) = (true, t)

pub remote_write :
    (throws : Bool) (s : RemoteSession.RemoteSession) (text : String)
    → (or_thrown s (RemoteSession.write s throws text)).1.id ≡ s.id
unfolding RemoteSession.write
remote_write throws s text = ground arith

pub remote_resize :
    (throws : Bool) (s : RemoteSession.RemoteSession) (cols rows : ℕ)
    → (RemoteSession.resize s throws cols rows).1.id ≡ s.id
unfolding RemoteSession.resize
remote_resize throws s cols rows = ground arith

pub remote_kill : (s : RemoteSession.RemoteSession) → (RemoteSession.kill s).id ≡ s.id
unfolding RemoteSession.kill
remote_kill s = ground arith

pub remote_cancel : (s : RemoteSession.RemoteSession) → (RemoteSession.cancel s).id ≡ s.id
unfolding RemoteSession.cancel
remote_cancel s = remote_kill s

pub remote_close : (s : RemoteSession.RemoteSession) → (RemoteSession.close s).id ≡ s.id
unfolding RemoteSession.close
remote_close s = remote_kill s

-- The sessions of a peer's machine, over a connection of which `send` throws or does not.
abbrev pub remote : Bool → Sessions RemoteSession.RemoteSession
remote throws = record {
  id = λ s. s.id;
  status = λ s. s.status;
  write = λ s text. or_thrown s (RemoteSession.write s throws text);
  resize = λ s cols rows. RemoteSession.resize s throws cols rows;
  cancel = RemoteSession.cancel;
  kill = RemoteSession.kill;
  close = RemoteSession.close;
  to_info = RemoteSession.to_info;
  id-write = remote_write throws;
  id-resize = remote_resize throws;
  id-cancel = remote_cancel;
  id-kill = remote_kill;
  id-close = remote_close;
}
