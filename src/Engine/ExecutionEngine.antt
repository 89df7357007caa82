-- ===== src/Engine/ExecutionEngine.antt =====
-- packages/engine/src/engine.ts: the engine that holds the sessions.
--
-- The sessions are any type with the operations of `ISession` (packages/engine/src/types.ts). The
-- map holds the sessions themselves: what a session does of its own, on output or an exit, comes as
-- an `updates` event. `closeSession` and `shutdown` end in events of their own, when the promises of
-- `close` are settled.
pub mod Interface
pub mod Commands
pub mod Keys
mod Tests
use tbridge.Base.{
  ℕ, zero, suc, ◌++◌, String, Bool, true, false, not, Option, none, some, List, [], ◌∷◌, length,
  map, keep, if◌then◌else◌, get, set, delete, ◌==◌, string_eq,
}
use tbridge.Protocol.Envelopes.{SessionStatus, SessionInfo}
use tbridge.Engine.Session.{is_active, is_exited}
use tbridge.Engine.ExecutionEngine.Interface.{Sessions}

pub data Forwarded : Type 0 where
  data_event : String → Forwarded
  exit_event : Option ℕ → Forwarded
  error_event : String → Forwarded
  status_change : SessionStatus → Forwarded

pub data Emitted : Type 0 where
  session_created session_closed : String → Emitted
  session_event : String → Forwarded → Emitted

module _ {S : Type 0} (I : Sessions S) where
  open I use {id, status, write, resize, cancel, kill, close, to_info}

  -- `closing` are the ids whose `closeSession` waits.
  pub record ExecutionEngine : Type 0 where
    pub sessions : List (String × S)
    pub closing : List String
    pub emitted : List Emitted

  abbrev pub emit : ExecutionEngine → Emitted → ExecutionEngine
  emit e o = record e { emitted = e.emitted ++ o ∷ [] }

  -- `attachSession`, and `createSession` with the session that its constructor made.
  unfoldable pub attach_session : ExecutionEngine → S → ExecutionEngine
  attach_session e s =
      emit (record e { sessions = set (id s) s e.sessions }) (session_created (id s))

  unfoldable pub list_session_infos : ExecutionEngine → List SessionInfo
  list_session_infos e = map (λ (i : String × S). to_info i.1) e.sessions

  -- `activeCount` counts as it goes.
  unfoldable pub active_in : List (String × S) → ℕ
  active_in [] = 0
  active_in ((i, s) ∷ m) = let n = active_in m in if is_active (status s) then suc n else n

  abbrev pub total_count : ExecutionEngine → ℕ
  total_count e = length e.sessions

  -- The session, where it is there and active.
  unfoldable pub active_session : ExecutionEngine → String → Option S
  active_session e i = elim (get i e.sessions) [
    | none ↦ none
    | some s ↦ if is_active (status s) then some s else none
  ]

  abbrev pub store : ExecutionEngine → String → S → ExecutionEngine
  store e i s = record e { sessions = set i s e.sessions }

  -- Whether the call returned, and the session that it left: `none` where it threw.
  abbrev pub answer : ExecutionEngine → String → Bool × S → Option Bool × ExecutionEngine
  answer e i r = (if r.0 then some true else none, store e i r.1)

  pub data Command : Type 0 where
    writes : String → String → Command
    resizes : String → ℕ → ℕ → Command
    cancels kills : String → Command

  abbrev pub target : Command → String
  target (writes i text) = i
  target (resizes i cols rows) = i
  target (cancels i) = i
  target (kills i) = i

  -- What each of `write`, `resize`, `cancel` and `kill` asks of the session.
  abbrev pub asked : Command → S → Bool × S
  asked (writes i text) s = write s text
  asked (resizes i cols rows) s = resize s cols rows
  asked (cancels i) s = (true, cancel s)
  asked (kills i) s = (true, kill s)

  abbrev pub command_on : ExecutionEngine → Command → Option S → Option Bool × ExecutionEngine
  command_on e c none = (some false, e)
  command_on e c (some s) = answer e (target c) (asked c s)

  unfoldable pub command : ExecutionEngine → Command → Option Bool × ExecutionEngine
  unfolding active_session
  command e c = command_on e c (active_session e (target c))

  unfoldable pub finish_close : ExecutionEngine → String → ExecutionEngine
  finish_close e i = emit (record e { sessions = delete i e.sessions }) (session_closed i)

  -- `closeSession` up to its `await`; what it returns is false only where there is no such session.
  unfoldable pub close_session : ExecutionEngine → String → ExecutionEngine
  unfolding finish_close
  close_session e i = elim (get i e.sessions) [
    | none ↦ e
    | some s ↦
        if is_active (status s)
        then record (store e i (close s)) { closing = e.closing ++ i ∷ [] }
        else finish_close e i
  ]

  -- The loop of `pruneExited`, which also counts.
  unfoldable pub prune : List (String × S) → ℕ × List (String × S)
  prune [] = (0, [])
  prune ((i, s) ∷ m) =
      let (n, rest) = prune m in if is_exited (status s) then (suc n, rest) else (n, (i, s) ∷ rest)

  unfoldable pub prune_exited : ExecutionEngine → ℕ × ExecutionEngine
  unfolding prune
  prune_exited e = let (n, rest) = prune e.sessions in (n, record e { sessions = rest })

  -- The loop of `shutdown`.
  unfoldable pub close_active : List (String × S) → List (String × S)
  close_active [] = []
  close_active ((i, s) ∷ m) =
      let rest = close_active m in
      if is_active (status s) then (i, close s) ∷ rest else (i, s) ∷ rest

  unfoldable pub shutdown : ExecutionEngine → ExecutionEngine
  unfolding close_active
  shutdown e = record e { sessions = close_active e.sessions }

  -- An update leaves the id as it is, which is readonly.
  pub data Event : Type 0 where
    attaches : S → Event
    commands : Command → Event
    closes : String → Event
    settled : String → Event
    prunes shuts_down shut_down : Event
    updates : String → S → Event
    hears : String → Forwarded → Event

  abbrev pub has_id : String → List String → Bool
  has_id i [] = false
  has_id i (j ∷ js) = if j == i then true else has_id i js

  unfoldable pub handle : ExecutionEngine → Event → ExecutionEngine
  unfolding attach_session command close_session finish_close prune_exited shutdown
  handle e (attaches s) = attach_session e s
  handle e (commands c) = (command e c).1
  handle e (closes i) = close_session e i
  handle e (settled i) =
      if has_id i e.closing
      then finish_close (record e { closing = keep (λ j. not (j == i)) e.closing }) i
      else e
  handle e prunes = (prune_exited e).1
  handle e shuts_down = shutdown e
  handle e shut_down = record e { sessions = [] }
  handle e (updates i s) = elim (get i e.sessions) [
    | none ↦ e
    | some old ↦ if I.id old == I.id s then store e i s else e
  ]
  handle e (hears i f) = emit e (session_event i f)
