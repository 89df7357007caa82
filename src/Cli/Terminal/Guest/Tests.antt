-- ===== src/Cli/Terminal/Guest/Tests.antt =====
-- apps/cli/src/terminal/remote-guest.ts: the theorems at a guest that has joined.
use tbridge.Base.{
  ◌≡◌, refl, ap, ◌==◌, true, false, some, [], ◌∷◌, ◌++◌, get, set, nat_eq, string_eq, arith,
}
use tbridge.Protocol.{PeerIdentity}
use tbridge.Protocol.Legacy.{ClientRole, ClientMessage, ServerMessage}
use tbridge.Crypto.{new_cipher}
use tbridge.Crypto.Toy.{toy}
use tbridge.Cli.Terminal.Sockets.{Encoding}
use tbridge.Cli.Terminal.Guest.{
  sent, exit_sequence, Guest, connect_socket, new_guest, on_message, react, on_open, send, opens,
  types, receives, resizes, handle_all,
}
use tbridge.Cli.Terminal.Guest.Secrecy.{Guarded, handle_all-Guarded, typed_in_clear}

abbrev plain_text : Encoding toy
plain_text = record { to_text = λ s. 1; of_text = λ t. "x" }

abbrev bob : PeerIdentity
bob = record { user_id = "bob"; device_id = "b1"; device_name = "laptop"; public_key = "pb" }

-- Its socket is open, and SESSION_READY has not come.
abbrev waiting_guest : Guest toy plain_text
waiting_guest = react toy plain_text (new_guest toy plain_text "ABC" bob 80 24) (opens 0)

-- It has agreed on a cipher.
abbrev joined : Guest toy plain_text
joined =
    record (on_message toy plain_text waiting_guest 0
      (ServerMessage.session_ready "s" ClientRole.guest) 4) {
        cipher = some (new_cipher toy (5 ∷ []) 2);
      }

abbrev over : Guest toy plain_text
over = record joined { is_closed = true }

handle_all-Guarded_example : Guarded toy plain_text joined (
    handle_all toy plain_text joined (
      types "l" 0
      ∷ resizes 90 30
      ∷ receives 0 (ServerMessage.session_ready "t" ClientRole.guest) 6
      ∷ types "s" 70000
      ∷ types "s" 0
      ∷ []))
handle_all-Guarded_example =
    handle_all-Guarded toy plain_text joined
      (types "l" 0
        ∷ resizes 90 30
        ∷ receives 0 (ServerMessage.session_ready "t" ClientRole.guest) 6
        ∷ types "s" 70000
        ∷ types "s" 0
        ∷ [])
      refl

typed_in_clear_example :
    (react toy plain_text
      (on_message toy plain_text waiting_guest 0
        (ServerMessage.session_ready "s" ClientRole.guest)
        4)
      (types "l" 0)).out
    ≡ (on_message toy plain_text waiting_guest 0
        (ServerMessage.session_ready "s" ClientRole.guest)
        4).out
      ++ sent 0 (ClientMessage.pty_input "l") ∷ []
unfolding react on_open send new_guest connect_socket get set
typed_in_clear_example =
    typed_in_clear toy plain_text waiting_guest 0 "s" ClientRole.guest 4 "l" 0 refl refl refl refl
      refl (λ h. let q : false ≡ true = ap (λ s. s == exit_sequence) h in ground arith)
      (omega arith)
