-- ===== src/Engine/Session/Lifecycle.antt =====
-- packages/engine/src/session.ts: a session that has exited.
use tbridge.Base.{
  ℕ, ◌≡◌, refl, ◌∙◌, String, Bool, true, false, Option, List, [], ◌∷◌, keep, keep-append, arith,
  nat_eq,
}
use mathlib.Core.List.{append-nil}
use tbridge.Protocol.Envelopes.{exited}
use tbridge.Engine.Session.{
  PtyCall, pauses, resumes, Session, set_status, clear_timeout, set_timeout, set_title, write,
  resize, pause, resume, cancel, kill, on_timeout, close, on_close_timer, on_data, on_exit,
}

-- What can happen to a session.
pub data Op : Type 0 where
  titles writes_text receives : String → Op
  sizes : ℕ → ℕ → Op
  pausing resuming cancelling times_out closes close_timer clears : Op
  kill_by : String → Op
  sets_timeout : ℕ → Op
  exits : ℕ → Option ℕ → Op

pub step : Session → Op → Session
step s (titles t) = set_title s t
step s (writes_text t) = write s t
step s (receives t) = on_data s t
step s (sizes cols rows) = resize s cols rows
step s pausing = pause s
step s resuming = resume s
step s cancelling = cancel s
step s times_out = on_timeout s
step s closes = close s
step s close_timer = on_close_timer s
step s clears = clear_timeout s
step s (kill_by signal) = kill s signal
step s (sets_timeout ms) = set_timeout s ms
step s (exits code signal) = on_exit s code signal

pub run : Session → List Op → Session
run s [] = s
run s (o ∷ os) = run (step s o) os

-- A call that acts on the process: all but pausing and resuming its output.
abbrev pub acts : PtyCall → Bool
acts pauses = false
acts resumes = false
acts c = true

abbrev pub actions : Session → List PtyCall
actions s = keep acts s.calls

step_exited :
    (s : Session) (o : Op)
    → s.status ≡ exited
    → ((step s o).status ≡ exited) × (actions (step s o) ≡ actions s)
unfolding step set_title write on_data resize cancel on_timeout close on_close_timer clear_timeout
    kill set_timeout on_exit set_status pause resume
step_exited s (titles t) h = (h, refl)
step_exited s (writes_text t) h = ground arith
step_exited s (receives t) h = (h, refl)
step_exited s (sizes cols rows) h = ground arith
step_exited s pausing h =
    ground (arith, keep-append acts s.calls (pauses ∷ []), append-nil (keep acts s.calls))
step_exited s resuming h =
    ground (arith, keep-append acts s.calls (resumes ∷ []), append-nil (keep acts s.calls))
step_exited s cancelling h = ground arith
step_exited s times_out h = ground arith
step_exited s closes h = ground arith
step_exited s close_timer h = ground arith
step_exited s clears h = (h, refl)
step_exited s (kill_by signal) h = ground arith
step_exited s (sets_timeout ms) h = (h, refl)
step_exited s (exits code signal) h = ground arith

-- Once a session has exited it stays so, and whatever is asked of it, whichever of its timers run
-- out, nothing is written to the dead process, and it is neither resized nor killed.
pub run_exited :
    (s : Session) (os : List Op)
    → s.status ≡ exited
    → ((run s os).status ≡ exited) × (actions (run s os) ≡ actions s)
unfolding run
run_exited s [] h = (h, refl)
run_exited s (o ∷ os) h =
    let (e, a) = step_exited s o h in let (f, b) = run_exited (step s o) os e in (f, b ∙ a)
