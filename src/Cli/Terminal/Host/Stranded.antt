-- ===== src/Cli/Terminal/Host/Stranded.antt =====
-- apps/cli/src/terminal/remote-host.ts: a shell whose socket has closed.
use tbridge.Base.{
  ℕ, ◌<◌, ◌≡◌, String, false, Option, none, some, List, [], ◌∷◌, get, set, get-set, get-delete,
  nat_eq, string_eq, arith, if_both,
}
use tbridge.Protocol.Legacy.{ServerMessage}
use tbridge.Crypto.{Primitives}
use tbridge.Cli.Terminal.Sockets.{Encoding}
use tbridge.Cli.Terminal.Host.{
  Pty, Host, send, close, connect_socket, on_open, spawn_shared_pty, on_data, on_exit,
  on_access_request, reply, on_decision, on_answer, on_session_ready, on_key_exchange,
  on_encrypted_data, on_message, on_drain, attempt_reconnect, on_close, on_error, on_wait, Event,
  opens, closes, fails, receives, outputs, exits, decides, answers, drains, waited, react, handle,
  handle_all,
}

abbrev pub Holds : ℕ → Option Pty → Type 0
Holds k none = Unit
Holds k (some p) = p.socket ≡ k

module _ (N : Primitives) (E : Encoding N) where
  -- The socket has been made and has closed.
  abbrev pub Lost : ℕ → Host N E → Type 0
  Lost k h = (k < h.next_socket) × (h.open_sockets k ≡ false) × (get k h.sockets ≡ none)

  -- The shell has been spawned, and while it runs it holds the socket.
  abbrev pub Bound : ℕ → ℕ → Host N E → Type 0
  Bound id k h = (id < h.next_pty) × Holds k (get id h.ptys)

  abbrev pub Stranded : ℕ → ℕ → Host N E → Type 0
  Stranded id k h = Lost k h × Bound id k h

  get-fresh :
      {V : Type 0} (k n : ℕ) (v : V) (m : List (ℕ × V)) → k < n → get k (set n v m) ≡ get k m
  get-fresh k n v m lt = ground (arith, get-set n k v m)

  on_message-Stranded :
      (h : Host N E) (id k j : ℕ) (m : ServerMessage) (key : N.PrivateKey)
      → Stranded id k h
      → Stranded id k (on_message N E h j m key)
  unfolding on_message on_session_ready on_key_exchange on_encrypted_data on_access_request close
      send spawn_shared_pty
  on_message-Stranded h id k j (ServerMessage.key_exchange peer) key s = grind (arith, get-fresh)
  on_message-Stranded h id k j m key s = ground arith

  react-Stranded :
      (h : Host N E) (id k : ℕ) (e : Event N E) → Stranded id k h → Stranded id k (react N E h e)
  unfolding react on_open on_close on_error attempt_reconnect on_drain on_wait connect_socket send
      on_data on_exit close on_decision on_answer reply
  react-Stranded h id k (opens j) s = ground arith
  react-Stranded h id k (closes j) s = ground (arith, get-delete j k h.sockets)
  react-Stranded h id k (fails j) s = ground arith
  react-Stranded h id k (receives j m key) s = ground (arith, on_message-Stranded h id k j m key s)
  react-Stranded h id k (outputs j text buffered) s = ground arith
  react-Stranded h id k (exits j code signal) s = ground (arith, get-delete j id h.ptys)
  react-Stranded h id k (decides j policies) s = ground arith
  react-Stranded h id k (answers j allowed) s = ground arith
  react-Stranded h id k (drains j buffered) s = ground arith
  react-Stranded h id k (waited j) s = grind (arith, get-fresh)

  -- A reconnect does not give a shell its connection back: once the socket that a shell was spawned
  -- on has closed, then after any events, RECONNECT_OK among them, whatever the shell prints changes
  -- nothing, and so is neither sent nor kept.
  pub output_lost :
      (h : Host N E) (id k : ℕ) (es : List (Event N E)) (text : String) (buffered : ℕ)
      → Stranded id k h
      → handle N E (handle_all N E h es) (outputs id text buffered) ≡ handle_all N E h es
  unfolding handle_all handle react on_data
  output_lost h id k [] text buffered s = ground arith
  output_lost h id k (e ∷ es) text buffered s =
      output_lost (handle N E h e) id k es text buffered
        (if_both (λ x. Stranded id k x) h.crashed s (react-Stranded h id k e s))
