-- ===== src/Server/SessionManager/Tests.antt =====
-- apps/server/src/session-manager.ts: the theorems at one session's calls.
use tbridge.Base.{String, none, some, List, [], ◌∷◌, nat_eq, string_eq}
use tbridge.Protocol.{PeerIdentity}
use tbridge.Server.SessionManager.{
  waiting, active, RelayRoom, SessionManager, new_session_manager, run, Call, registers_host,
  registers_guest, approves,
}
use tbridge.Server.SessionManager.Invariant.{IsValid}
use tbridge.Server.SessionManager.Preservation.{run_new-IsValid}
use tbridge.Server.SessionManager.Lifecycle.{Became, run-Became}

abbrev who : String → PeerIdentity
who d = record { user_id = d; device_id = d; device_name = d; public_key = d }

-- Socket 1 shares under a code, and socket 2 asks to join.
abbrev asking : List Call
asking = registers_host 1 "123-456" (who "h") 0 ∷ registers_guest 2 "123-456" (who "g") 10 ∷ []

abbrev sharing : List Call
sharing =
    registers_host 1 "123-456" (who "h") 0
    ∷ registers_guest 2 "123-456" (who "g") 10
    ∷ approves 1 "s"
    ∷ []

abbrev offered : SessionManager
offered = run (new_session_manager 1000) (registers_host 1 "123-456" (who "h") 0 ∷ [])

abbrev asked : SessionManager
asked = run (new_session_manager 1000) asking

abbrev shared : SessionManager
shared = run (new_session_manager 1000) sharing

abbrev offered_room : RelayRoom
offered_room = record {
  code = "123-456";
  created_at = 0;
  expires_at = 1000;
  state = waiting;
  host = record { socket = 1; identity = who "h" };
  guest = none;
  session_id = none;
}

abbrev shared_room : RelayRoom
shared_room = record offered_room {
  state = active;
  guest = some (record { socket = 2; identity = who "g" });
  session_id = some "s";
}

run_new-IsValid_example : IsValid shared
run_new-IsValid_example = run_new-IsValid 1000 sharing

run-Became_example : Became (asked.heap 0) ((run asked (approves 1 "s" ∷ [])).heap 0)
run-Became_example = run-Became asked (approves 1 "s" ∷ []) 0 (run_new-IsValid 1000 asking)
