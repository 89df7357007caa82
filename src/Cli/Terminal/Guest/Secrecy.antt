-- ===== src/Cli/Terminal/Guest/Secrecy.antt =====
-- apps/cli/src/terminal/remote-guest.ts: what goes out in clear.
use tbridge.Base.{
  ℕ, zero, suc, ◌++◌, ◌≤◌, ◌≡◌, ◌≢◌, refl, ◌∙◌, String, Bool, true, false, none, List, [], ◌∷◌,
  keep, keep-append, if◌then◌else◌, is_some, nat_eq, string_eq, arith, if_both,
}
use mathlib.Core.List.{append-nil}
use tbridge.Protocol.Legacy.{ClientRole, ClientMessage, ServerMessage}
use tbridge.Crypto.{Primitives}
use tbridge.Cli.Terminal.Sockets.{Encoding, backpressure_high}
use tbridge.Cli.Terminal.Guest.{
  Output, sent, exit_sequence, Guest, send, send_resize, cleanup, connect_socket, on_open,
  on_session_ready, on_message, on_input, on_keys, on_drain, attempt_reconnect, on_close, on_error,
  on_wait, Event, opens, closes, fails, receives, types, resizes, drains, waited, react, handle,
  handle_all,
}

-- Keys that go to the relay as they were typed.
abbrev pub is_clear : Output → Bool
is_clear (sent k (ClientMessage.pty_input keys)) = true
is_clear o = false

abbrev pub clear : List Output → List Output
clear os = keep is_clear os

clear_quiet : (os : List Output) (o : Output) → is_clear o ≡ false → clear (os ++ o ∷ []) ≡ clear os
clear_quiet os o h = ground (arith, keep-append is_clear os (o ∷ []), append-nil (clear os))

module _ (N : Primitives) (E : Encoding N) where
  -- The guest still has a cipher, and has sent nothing more in clear.
  abbrev pub Guarded : Guest N E → Guest N E → Type 0
  Guarded g h = (is_some h.cipher ≡ true) × (clear h.out ≡ clear g.out)

  Guarded-trans : (f g h : Guest N E) → Guarded f g → Guarded g h → Guarded f h
  Guarded-trans f g h (c, e) (d, k) = (d, k ∙ e)

  send-Guarded :
      (g : Guest N E) (k : ℕ) (m : ClientMessage)
      → is_clear (sent k m) ≡ false
      → is_some g.cipher ≡ true
      → Guarded g (send N E g k m)
  unfolding send
  send-Guarded g k m c h = grind (arith, clear_quiet)

  on_input-Guarded :
      (g : Guest N E) (keys : String) (buffered : ℕ)
      → is_some g.cipher ≡ true
      → Guarded g (on_input N E g keys buffered)
  unfolding on_input
  on_input-Guarded g keys buffered h = grind (arith, clear_quiet)

  on_keys-Guarded :
      (n : ℕ) (g : Guest N E) (keys : String) (buffered : ℕ)
      → is_some g.cipher ≡ true
      → Guarded g (on_keys N E n g keys buffered)
  unfolding on_keys
  on_keys-Guarded zero g keys buffered h = (h, refl)
  on_keys-Guarded (suc n) g keys buffered h =
      let g' = if g.crashed then g else on_input N E g keys buffered in
      let first : Guarded g g' =
        if_both (λ x. Guarded g x) g.crashed (h, refl) (on_input-Guarded g keys buffered h) in
      Guarded-trans g g' (on_keys N E n g' keys buffered) first
        (on_keys-Guarded n g' keys buffered first.0)

  on_session_ready-Guarded :
      (g : Guest N E) (k : ℕ) (id : String) (key : N.PrivateKey)
      → is_some g.cipher ≡ true
      → Guarded g (on_session_ready N E g k id key)
  unfolding on_session_ready
  on_session_ready-Guarded g k id key h = grind (arith, clear_quiet)

  on_message-Guarded :
      (g : Guest N E) (k : ℕ) (m : ServerMessage) (key : N.PrivateKey)
      → is_some g.cipher ≡ true
      → Guarded g (on_message N E g k m key)
  unfolding on_message
  on_message-Guarded g k (ServerMessage.session_ready id role) key h =
      on_session_ready-Guarded g k id key h
  on_message-Guarded g k (ServerMessage.access_rejected reason) key h = grind (arith, clear_quiet)
  on_message-Guarded g k m key h = grind (arith, clear_quiet)

  react-Guarded :
      (g : Guest N E) (e : Event N E) → is_some g.cipher ≡ true → Guarded g (react N E g e)
  unfolding react on_open on_close on_error attempt_reconnect cleanup on_drain on_wait
      connect_socket send_resize send
  react-Guarded g (opens k) h = grind (arith, clear_quiet)
  react-Guarded g (closes k) h = grind (arith, clear_quiet)
  react-Guarded g (fails k) h = grind (arith, clear_quiet)
  react-Guarded g (receives k m key) h = grind (arith, on_message-Guarded)
  react-Guarded g (types keys buffered) h = on_keys-Guarded g.listeners g keys buffered h
  react-Guarded g (resizes columns rows) h = grind (arith, clear_quiet)
  react-Guarded g (drains k buffered) h = grind (arith, clear_quiet)
  react-Guarded g (waited id) h = grind (arith, clear_quiet)

  -- Once the guest has a cipher, no key press goes out in clear: through any events, whatever the
  -- relay sends, the guest keeps a cipher, and the plain PTY_INPUT messages that it has sent are
  -- those that it had sent before.
  pub handle_all-Guarded :
      (g : Guest N E) (es : List (Event N E))
      → is_some g.cipher ≡ true
      → Guarded g (handle_all N E g es)
  unfolding handle_all handle
  handle_all-Guarded g [] h = (h, refl)
  handle_all-Guarded g (e ∷ es) h =
      let first : Guarded g (handle N E g e) =
        if_both (λ x. Guarded g x) g.crashed (h, refl) (react-Guarded g e h) in
      Guarded-trans g (handle N E g e) (handle_all N E (handle N E g e) es) first
        (handle_all-Guarded (handle N E g e) es first.0)

  -- Before the guest has a cipher, keys go out in clear: SESSION_READY lets the guest type, and what
  -- it types before the host's key has come is sent as it is, for the relay to read.
  pub typed_in_clear :
      (g : Guest N E) (k : ℕ) (id : String) (role : ClientRole) (key : N.PrivateKey) (keys : String)
      (buffered : ℕ)
      → g.crashed ≡ false
      → g.cipher ≡ none
      → g.listeners ≡ 0
      → k ≡ g.current_socket
      → g.open_sockets k ≡ true
      → keys ≢ exit_sequence
      → buffered ≤ backpressure_high
      → (react N E
          (on_message N E g k (ServerMessage.session_ready id role) key)
          (types keys buffered)).out
        ≡ (on_message N E g k (ServerMessage.session_ready id role) key).out
          ++ sent k (ClientMessage.pty_input keys) ∷ []
  unfolding react on_message on_keys on_input
  typed_in_clear g k id role key keys buffered up c l e o ne b =
      ground (arith, string_eq.same_iff keys exit_sequence)
