-- ===== src/Engine/RemoteSession/Mirror.antt =====
-- packages/engine/src/remote-session.ts: a session that was killed and is resumed.
use tbridge.Base.{◌≡◌, ◌++◌, refl, String, true, false, some, [], ◌∷◌, arith}
use tbridge.Protocol.Envelopes.{SessionStatus, active, idle, exited, Payload}
use tbridge.Engine.Session.{is_exited}
use mathlib.Core.Path.{ap₂}
use mathlib.Core.Bool.{false≢true}
use tbridge.Engine.RemoteSession.{RemoteSession, write, kill, resume}

exited_of : (t : SessionStatus) → is_exited t ≡ true → t ≡ exited
exited_of active h = absurd (false≢true h)
exited_of idle h = absurd (false≢true h)
exited_of exited h = refl

kill-fields :
    (s : RemoteSession)
    → ((kill s).status ≡ exited) × ((kill s).sent ≡ s.sent) × ((kill s).id ≡ s.id)
unfolding kill
kill-fields s = ground (arith, exited_of s.status)

-- `resume` does not ask whether the session has exited: one that was killed, and whose exit was
-- reported, is active again after it, and sends what is written while the connection does.
pub resume_revives :
    (s : RemoteSession) (text : String)
    → ((kill s).status ≡ exited)
      × ((resume (kill s)).status ≡ active)
      × ((t : RemoteSession) × (write (resume (kill s)) false text ≡ some t)
          × (t.sent ≡ s.sent ++ Payload.pty_data s.id text ∷ []))
unfolding resume write
resume_revives s text =
    let (e, q, i) = kill-fields s in
    (e, refl, (_, refl, ap₂ (λ l n. l ++ Payload.pty_data n text ∷ []) q i))
