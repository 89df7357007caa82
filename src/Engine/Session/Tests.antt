-- ===== src/Engine/Session/Tests.antt =====
-- packages/engine/src/session.ts: the theorem at a session that has exited.
use tbridge.Protocol.Envelopes.{exited}
use tbridge.Engine.Session.Lifecycle.{writes_text, pausing, closes, run, actions, run_exited}
use tbridge.Base.{◌≡◌, refl, [], ◌∷◌, none, some}
use tbridge.Engine.Session.{
  spawn, set_status, clear_timeout, set_timeout, SessionOptions, Session, new_session, on_exit,
  base_name, has_slash,
}

abbrev options : SessionOptions
options = record {
  shell = "/bin/sh";
  cols = none;
  rows = none;
  title = none;
  timeout = some 5;
  owner = "alice";
  device_id = "laptop";
}

abbrev dead : Session
dead = on_exit (new_session "s" options 0 (some 7)) 0 none

base_name-sh : base_name "/bin/sh" ≡ "sh"
unfolding base_name has_slash
base_name-sh = refl

run_exited_example :
    ((run dead (writes_text "ls" ∷ pausing ∷ closes ∷ [])).status ≡ exited)
    × (actions (run dead (writes_text "ls" ∷ pausing ∷ closes ∷ [])) ≡ actions dead)
unfolding on_exit new_session spawn set_status clear_timeout set_timeout
run_exited_example = run_exited dead (writes_text "ls" ∷ pausing ∷ closes ∷ []) refl
