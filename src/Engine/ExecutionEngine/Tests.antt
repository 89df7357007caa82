-- ===== src/Engine/ExecutionEngine/Tests.antt =====
-- packages/engine/src/engine.ts: the theorem at an engine with two sessions of a peer.
use tbridge.Base.{◌≡◌, ap, true, false, not, [], ◌∷◌, get, ◌==◌, string_eq, arith}
use tbridge.Engine.RemoteSession.{RemoteSession, new_remote_session}
use tbridge.Engine.ExecutionEngine.Interface.{remote}
use tbridge.Engine.ExecutionEngine.{ExecutionEngine, kills, command}
use tbridge.Engine.ExecutionEngine.Commands.{is_refusal, reached, changed, command_isolated}

abbrev first_shell : RemoteSession
first_shell = new_remote_session "a" "alice" "laptop" "sh" 80 24 0

abbrev second_shell : RemoteSession
second_shell = new_remote_session "b" "alice" "laptop" "sh" 80 24 0

abbrev busy : ExecutionEngine (remote false)
busy = record {
  sessions = ("a", first_shell) ∷ ("b", second_shell) ∷ [];
  closing = [];
  emitted = [];
}

command_isolated_example :
    (is_refusal (command (remote false) busy (kills "a")).0
      ≡ not (reached (remote false) (get "a" busy.sessions)))
    × (get "b" (command (remote false) busy (kills "a")).1.sessions ≡ get "b" busy.sessions)
    × (get "a" (command (remote false) busy (kills "a")).1.sessions
        ≡ changed (remote false) (kills "a") (get "a" busy.sessions))
command_isolated_example =
    command_isolated (remote false) busy (kills "a") "b"
      (λ h. let q : false ≡ true = ap (λ s. s == "a") h in ground arith)
