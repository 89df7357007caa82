-- ===== src/Engine/Session.antt =====
-- packages/engine/src/session.ts: a local terminal session.
--
-- The pseudo terminal of node-pty is the list of calls that are made of it, and whether `spawn`
-- gave one, with its process id, is an argument; exceptions of its methods are caught by the source
-- and change nothing here. What the session emits is appended to `emitted`.
pub mod Lifecycle
mod Tests
use Prim.Native.Char.{Char, code}
use tbridge.Base.{
  ℕ, ◌<◌, ◌++◌, String, Bool, true, false, ◌||◌, not, Option, none, some, List, [], ◌∷◌, ltb,
  if◌then◌else◌, is_some, ◌==◌, nat_eq, string_eq,
}
use tbridge.Protocol.Envelopes.{SessionStatus, active, idle, exited, SessionInfo}

pub record SessionOptions : Type 0 where
  pub shell : String
  pub cols : Option ℕ
  pub rows : Option ℕ
  pub title : Option String
  pub timeout : Option ℕ
  pub owner : String
  pub device_id : String

pub data PtyCall : Type 0 where
  writes : String → PtyCall
  resizes : ℕ → ℕ → PtyCall
  pauses resumes : PtyCall
  kills : String → PtyCall

pub data Emitted : Type 0 where
  title_change : String → Emitted
  status_change : SessionStatus → Emitted
  data_event : String → Emitted
  exit_event : Option ℕ → Option ℕ → Emitted
  spawn_error timed_out : Emitted

pub record Session : Type 0 where
  pub id : String
  pub owner : String
  pub device_id : String
  pub shell : String
  pub created_at : ℕ
  pub title : String
  pub status : SessionStatus
  pub cols : ℕ
  pub rows : ℕ
  pub pty : Option ℕ
  pub timeout_timer : Option ℕ
  pub exit_code : Option ℕ
  pub is_paused : Bool
  pub closing : Bool
  pub calls : List PtyCall
  pub emitted : List Emitted

abbrev pub is_active : SessionStatus → Bool
is_active active = true
is_active s = false

abbrev pub is_exited : SessionStatus → Bool
is_exited exited = true
is_exited s = false

abbrev pub or_else {ℓ} : {A : Type ℓ} → Option A → A → A
or_else none b = b
or_else (some a) b = a

unfoldable pub has_slash : String → Bool
has_slash String.[] = false
has_slash (String.◌∷◌ c s) = let rest = has_slash s in if code c == b'/' then true else rest

-- `shell.split("/").pop()`: what follows the last slash.
unfoldable pub base_name : String → String
base_name String.[] = ""
base_name (String.◌∷◌ c s) =
    let rest = base_name s in if code c == b'/' || has_slash s then rest else String.◌∷◌ c s

abbrev pub emit : Session → Emitted → Session
emit s e = record s { emitted = s.emitted ++ e ∷ [] }

abbrev pub call : Session → PtyCall → Session
call s c = record s { calls = s.calls ++ c ∷ [] }

abbrev pub same_status : SessionStatus → SessionStatus → Bool
same_status active active = true
same_status idle idle = true
same_status exited exited = true
same_status s t = false

unfoldable pub set_status : Session → SessionStatus → Session
set_status s status =
    if same_status s.status status
    then s
    else emit (record s { status = status }) (status_change status)

-- `clearTimeout`, public and private.
unfoldable pub clear_timeout : Session → Session
clear_timeout s = record s { timeout_timer = none }

unfoldable pub set_timeout : Session → ℕ → Session
unfolding clear_timeout
set_timeout s ms = record (clear_timeout s) { timeout_timer = some ms }

-- Before `_spawn`.
abbrev pub fresh : String → SessionOptions → ℕ → Session
fresh id o now = record {
  id = id;
  owner = o.owner;
  device_id = o.device_id;
  shell = o.shell;
  created_at = now;
  title = or_else o.title (base_name o.shell);
  status = active;
  cols = or_else o.cols 80;
  rows = or_else o.rows 24;
  pty = none;
  timeout_timer = none;
  exit_code = none;
  is_paused = false;
  closing = false;
  calls = [];
  emitted = [];
}

-- `_spawn`: `none` where `pty.spawn` throws.
unfoldable pub spawn : Session → Option ℕ → Session
spawn s none = emit (set_status s exited) spawn_error
spawn s (some pid) = record s { pty = some pid }

-- The constructor. A timeout of 0 is none.
unfoldable pub new_session : String → SessionOptions → ℕ → Option ℕ → Session
new_session id o now pid =
    let s = spawn (fresh id o now) pid in
    if ltb 0 (or_else o.timeout 0) then set_timeout s (or_else o.timeout 0) else s

unfoldable pub set_title : Session → String → Session
set_title s title = emit (record s { title = title }) (title_change title)

-- `this._status !== "active" || !this._pty` leads to an early return.
abbrev pub live : Session → Bool
live s = if is_active s.status then is_some s.pty else false

unfoldable pub write : Session → String → Session
write s text = if live s then call s (writes text) else s

unfoldable pub resize : Session → ℕ → ℕ → Session
resize s cols rows =
    if live s then call (record s { cols = cols; rows = rows }) (resizes cols rows) else s

unfoldable pub pause : Session → Session
pause s =
    if s.is_paused || not (is_some s.pty) then s else call (record s { is_paused = true }) pauses

unfoldable pub resume : Session → Session
resume s =
    if not s.is_paused || not (is_some s.pty)
    then s
    else call (record s { is_paused = false }) resumes

unfoldable pub cancel : Session → Session
cancel s = if live s then call s (writes "\u{3}") else s

unfoldable pub kill : Session → String → Session
unfolding clear_timeout
kill s signal = if live s then call (clear_timeout s) (kills signal) else s

-- The timer of `setTimeout` runs out.
unfoldable pub on_timeout : Session → Session
unfolding kill
on_timeout s = if is_active s.status then kill (emit s timed_out) "SIGKILL" else s

-- `close`: what it does at once, and what its own timer does after two seconds. `closing` says that
-- this timer runs, which the first exit clears.
unfoldable pub close : Session → Session
close s = if live s then call (record s { closing = true }) (writes "exit\n") else s

unfoldable pub on_close_timer : Session → Session
unfolding kill
on_close_timer s = if s.closing then kill (record s { closing = false }) "SIGTERM" else s

unfoldable pub to_info : Session → SessionInfo
to_info s = record {
  id = s.id;
  device_id = s.device_id;
  owner = s.owner;
  shell = s.shell;
  status = s.status;
  title = s.title;
  cols = s.cols;
  rows = s.rows;
  created_at = s.created_at;
}

-- The handlers of the pseudo terminal.
unfoldable pub on_data : Session → String → Session
on_data s text = emit s (data_event text)

unfoldable pub on_exit : Session → ℕ → Option ℕ → Session
unfolding clear_timeout
on_exit s code signal =
    emit
      (record (clear_timeout (set_status (record s { exit_code = some code }) exited)) {
        closing = false;
      })
      (exit_event (some code) signal)
