-- ===== src/Cli/Terminal/Host/Ending.antt =====
-- apps/cli/src/terminal/remote-host.ts: a command that is closed does not reconnect.
use tbridge.Base.{ℕ, ◌≡◌, refl, ◌∙◌, true, List, [], ◌∷◌, nat_eq, string_eq, arith, if_both}
use tbridge.Protocol.Legacy.{ServerMessage}
use tbridge.Crypto.{Primitives}
use tbridge.Cli.Terminal.Sockets.{Encoding}
use tbridge.Cli.Terminal.Host.{
  Host, send, close, connect_socket, on_open, spawn_shared_pty, on_data, on_exit, on_access_request,
  reply, on_decision, on_answer, on_session_ready, on_key_exchange, on_encrypted_data, on_message,
  on_drain, attempt_reconnect, on_close, on_error, on_wait, Event, opens, closes, fails, receives,
  outputs, exits, decides, answers, drains, waited, react, handle, handle_all,
}

module _ (N : Primitives) (E : Encoding N) where
  -- The command has marked itself closed, and has opened no more sockets than before.
  abbrev pub Over : Host N E → Host N E → Type 0
  Over h h' = (h'.is_closed ≡ true) × (h'.next_socket ≡ h.next_socket)

  on_message-Over :
      (h : Host N E) (k : ℕ) (m : ServerMessage) (key : N.PrivateKey)
      → h.is_closed ≡ true
      → Over h (on_message N E h k m key)
  unfolding on_message on_session_ready on_key_exchange on_encrypted_data on_access_request close
      send spawn_shared_pty
  on_message-Over h k m key o = ground arith

  react-Over : (h : Host N E) (e : Event N E) → h.is_closed ≡ true → Over h (react N E h e)
  unfolding react on_open on_close on_error attempt_reconnect on_drain on_wait connect_socket send
      on_data on_exit close on_decision on_answer reply
  react-Over h (opens k) o = ground arith
  react-Over h (closes k) o = ground arith
  react-Over h (fails k) o = ground arith
  react-Over h (receives k m key) o = grind (arith, on_message-Over)
  react-Over h (outputs id text buffered) o = ground arith
  react-Over h (exits id code signal) o = ground arith
  react-Over h (decides id policies) o = ground arith
  react-Over h (answers id allowed) o = ground arith
  react-Over h (drains k buffered) o = ground arith
  react-Over h (waited id) o = ground arith

  -- A command that has marked itself closed stays so, and opens no other socket.
  pub host_all-Over :
      (h : Host N E) (es : List (Event N E)) → h.is_closed ≡ true → Over h (handle_all N E h es)
  unfolding handle_all handle
  host_all-Over h [] o = (o, refl)
  host_all-Over h (e ∷ es) o =
      let first : Over h (handle N E h e) =
        if_both (λ x. Over h x) h.crashed (o, refl) (react-Over h e o) in
      let rest = host_all-Over (handle N E h e) es first.0 in (rest.0, rest.1 ∙ first.1)
