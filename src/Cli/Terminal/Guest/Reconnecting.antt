-- ===== src/Cli/Terminal/Guest/Reconnecting.antt =====
-- apps/cli/src/terminal/remote-guest.ts: a command that is closed does not reconnect.
use tbridge.Base.{
  ℕ, zero, suc, ◌≡◌, refl, ◌∙◌, String, true, List, [], ◌∷◌, if◌then◌else◌, nat_eq, string_eq,
  arith, if_both,
}
use tbridge.Protocol.Legacy.{ServerMessage}
use tbridge.Crypto.{Primitives}
use tbridge.Cli.Terminal.Sockets.{Encoding}
use tbridge.Cli.Terminal.Guest.{
  Guest, send, send_resize, cleanup, connect_socket, on_open, on_message, on_input, on_keys,
  on_drain, attempt_reconnect, on_close, on_error, on_wait, Event, opens, closes, fails, receives,
  types, resizes, drains, waited, react, handle, handle_all,
}

module _ (N : Primitives) (E : Encoding N) where
  -- The command has marked itself closed, and has opened no more sockets than before.
  abbrev pub Over : Guest N E → Guest N E → Type 0
  Over g h = (h.is_closed ≡ true) × (h.next_socket ≡ g.next_socket)

  Over-trans : (f g h : Guest N E) → Over f g → Over g h → Over f h
  Over-trans f g h (c, e) (d, k) = (d, k ∙ e)

  on_input-Over :
      (g : Guest N E) (keys : String) (buffered : ℕ)
      → g.is_closed ≡ true
      → Over g (on_input N E g keys buffered)
  unfolding on_input
  on_input-Over g keys buffered h = ground arith

  on_keys-Over :
      (n : ℕ) (g : Guest N E) (keys : String) (buffered : ℕ)
      → g.is_closed ≡ true
      → Over g (on_keys N E n g keys buffered)
  unfolding on_keys
  on_keys-Over zero g keys buffered h = (h, refl)
  on_keys-Over (suc n) g keys buffered h =
      let g' = if g.crashed then g else on_input N E g keys buffered in
      let first : Over g g' =
        if_both (λ x. Over g x) g.crashed (h, refl) (on_input-Over g keys buffered h) in
      Over-trans g g' (on_keys N E n g' keys buffered) first
        (on_keys-Over n g' keys buffered first.0)

  on_message-Over :
      (g : Guest N E) (k : ℕ) (m : ServerMessage) (key : N.PrivateKey)
      → g.is_closed ≡ true
      → Over g (on_message N E g k m key)
  unfolding on_message
  on_message-Over g k (ServerMessage.session_ready id role) key h = ground arith
  on_message-Over g k m key h = ground arith

  react-Over : (g : Guest N E) (e : Event N E) → g.is_closed ≡ true → Over g (react N E g e)
  unfolding react on_open on_close on_error attempt_reconnect cleanup on_drain on_wait
      connect_socket send_resize send
  react-Over g (opens k) h = ground arith
  react-Over g (closes k) h = ground arith
  react-Over g (fails k) h = ground arith
  react-Over g (receives k m key) h = grind (arith, on_message-Over)
  react-Over g (types keys buffered) h = on_keys-Over g.listeners g keys buffered h
  react-Over g (resizes columns rows) h = ground arith
  react-Over g (drains k buffered) h = ground arith
  react-Over g (waited id) h = ground arith

  -- A command that has marked itself closed stays so: through any events it opens no other socket,
  -- whatever waits are still to run out.
  pub handle_all-Over :
      (g : Guest N E) (es : List (Event N E)) → g.is_closed ≡ true → Over g (handle_all N E g es)
  unfolding handle_all handle
  handle_all-Over g [] h = (h, refl)
  handle_all-Over g (e ∷ es) h =
      let first : Over g (handle N E g e) =
        if_both (λ x. Over g x) g.crashed (h, refl) (react-Over g e h) in
      Over-trans g (handle N E g e) (handle_all N E (handle N E g e) es) first
        (handle_all-Over (handle N E g e) es first.0)
