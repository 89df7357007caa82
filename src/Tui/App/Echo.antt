-- ===== src/Tui/App/Echo.antt =====
-- packages/tui/src/app.ts: the output of a shared shell, on its way to the guest and back.
use tbridge.Base.{
  ◌≡◌, refl, ap, ◌∙◌, subst⁻¹, String, true, false, Option, none, some, List, [], ◌∷◌, ◌++◌, length,
  drop, if◌then◌else◌, get, get-set, string_eq, ==_refl, arith,
}
use tbridge.Protocol.Envelopes.{Payload}
use tbridge.Engine.Session.{is_active}
use tbridge.Engine.ExecutionEngine.{ExecutionEngine, active_session, command, writes, command_on}
use tbridge.Engine.ExecutionEngine.Interface.{Sessions, remote}
use tbridge.Engine.RemoteSession.{RemoteSession, on_payload}
use tbridge.Engine.RemoteSession
use tbridge.Network.PeerConnection.{is_encrypted}
use tbridge.Tui.App.State.{App, Peer}
use tbridge.Tui.App.Panes.{Env}
use tbridge.Tui.App.Peers.{send_to, broadcast_to, on_session_data, on_host_payload}

-- The listener that the engine binds to a session's `data`, and the application's to
-- `session:data`.
forward_emitted :
    Env RemoteSession
    → App (remote false)
    → String
    → List RemoteSession.Emitted
    → App (remote false)
forward_emitted env g id [] = g
forward_emitted env g id (RemoteSession.data_event text ∷ es) =
    forward_emitted env (on_session_data (remote false) env g id text) id es
forward_emitted env g id (e ∷ es) = forward_emitted env g id es

-- A remote session of a guest hears a payload: what it emits goes through the guest's application.
unfoldable pub guest_hears :
    Env RemoteSession → App (remote false) → RemoteSession → Payload → App (remote false)
unfolding forward_emitted on_payload
guest_hears env g r payload =
    forward_emitted env g r.id (drop (length r.emitted) ((on_payload r payload).emitted))

get-broadcast_to :
    (k : String) (ps : List (String × Peer)) (p : Peer) (payload : Payload)
    → get k ps ≡ some p
    → is_encrypted p.status ≡ true
    → get k (broadcast_to ps payload) ≡ some (send_to p payload)
unfolding get broadcast_to
get-broadcast_to k [] p payload h e = absurd (ground arith)
get-broadcast_to k ((j, q) ∷ ps) p payload h e = ground (arith, get-broadcast_to k ps p payload)

module _ {S : Type 0} (J : Sessions S) where
  active_session-known :
      (e : ExecutionEngine J) (i : String) (s : S)
      → get i e.sessions ≡ some s
      → is_active (J.status s) ≡ true
      → active_session J e i ≡ some s
  unfolding active_session
  active_session-known e i s h k =
      subst⁻¹
        (λ o.
          ◌≡◌ {A = Option S}
            (elim o [ none ↦ none | some t ↦ if is_active (J.status t) then some t else none ])
            (some s))
        h (ground arith)

  write-stored :
      (e : ExecutionEngine J) (i : String) (s : S) (text : String)
      → get i e.sessions ≡ some s
      → is_active (J.status s) ≡ true
      → get i ((command J e (writes i text)).1.sessions) ≡ some ((J.write s text).1)
  unfolding command
  write-stored e i s text h k =
      subst⁻¹
        (λ o. get i ((command_on J e (writes i text) o).1.sessions) ≡ some ((J.write s text).1))
        (active_session-known e i s h k)
        (get-set i i ((J.write s text).1) e.sessions ∙ ground (arith, ==_refl i))

drop-append {ℓ} : {A : Type ℓ} (xs ys : List A) → drop (length xs) (xs ++ ys) ≡ ys
drop-append [] ys = refl
drop-append (x ∷ xs) ys = drop-append xs ys

emitted-data :
    (r : RemoteSession) (text : String)
    → (on_payload r (Payload.pty_data r.id text)).emitted
      ≡ r.emitted ++ RemoteSession.data_event text ∷ []
unfolding on_payload
emitted-data r text = ground (arith, ==_refl r.id)

hears-data :
    (env : Env RemoteSession) (g : App (remote false)) (r : RemoteSession) (text : String)
    → guest_hears env g r (Payload.pty_data r.id text)
      ≡ on_session_data (remote false) env g r.id text
unfolding guest_hears forward_emitted
hears-data env g r text =
    let hear = λ (es : List RemoteSession.Emitted). forward_emitted env g r.id es in
    ap (λ es. hear (drop (length r.emitted) es)) (emitted-data r text)
    ∙ ap hear (drop-append r.emitted (RemoteSession.data_event text ∷ []))

-- What a shell prints goes to the encrypted guest, the guest's application sends it back to the
-- host, and the host writes it into the shell as if it had been typed.
pub output_echoes :
    {S : Type 0} (J : Sessions S) (env : Env S) (host : App J) (s : S)
    (guest_env : Env RemoteSession) (guest : App (remote false)) (r : RemoteSession)
    (k j text : String) (p q : Peer)
    → get r.id host.engine.sessions ≡ some s
    → is_active (J.status s) ≡ true
    → get k host.peers ≡ some p
    → is_encrypted p.status ≡ true
    → get j guest.peers ≡ some q
    → is_encrypted q.status ≡ true
    → let payload = Payload.pty_data r.id text in
      let host' = on_session_data J env host r.id text in
      (get k host'.peers ≡ some (send_to p payload))
      × (get j ((guest_hears guest_env guest r payload).peers) ≡ some (send_to q payload))
      × (get r.id ((on_host_payload J env host' payload).engine.sessions)
          ≡ some ((J.write s text).1))
unfolding on_session_data on_host_payload
output_echoes J env host s guest_env guest r k j text p q a b c d e f = (
  get-broadcast_to k host.peers p (Payload.pty_data r.id text) c d,
  subst⁻¹
      (λ (g : App (remote false)). get j g.peers ≡ some (send_to q (Payload.pty_data r.id text)))
      (hears-data guest_env guest r text)
      (get-broadcast_to j guest.peers q (Payload.pty_data r.id text) e f),
  write-stored J host.engine r.id s text a b,
)
