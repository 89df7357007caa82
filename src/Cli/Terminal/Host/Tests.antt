-- ===== src/Cli/Terminal/Host/Tests.antt =====
-- apps/cli/src/terminal/remote-host.ts: the theorems at a host whose shell is shared.
use tbridge.Base.{none, ◌≡◌, refl, ◌⊎◌, true, false, some, [], ◌∷◌, get, nat_eq, string_eq, arith}
use mathlib.Core.Bool.{false≢true}
use tbridge.Protocol.{PeerIdentity}
use tbridge.Protocol.Legacy.{ClientRole, ServerMessage}
use tbridge.Crypto.Toy.{toy}
use tbridge.Cli.Policy.Commands.{deny_user}
use tbridge.Cli.Policy.{Policies, trusted}
use tbridge.Cli.Terminal.Sockets.{Encoding}
use tbridge.Cli.Terminal.Host.{
  Host, opens, receives, outputs, decides, waited, handle, handle_all, new_host,
}
use tbridge.Cli.Terminal.Host.Consent.{approvals, Consents, handle_approves, denied_refused}
use tbridge.Cli.Terminal.Host.Stranded.{output_lost}

abbrev host_text : Encoding toy
host_text = record { to_text = λ s. 1; of_text = λ t. "x" }

abbrev alice : PeerIdentity
alice = record { user_id = "alice"; device_id = "a1"; device_name = "desk"; public_key = "pa" }

abbrev carol : PeerIdentity
carol = record { user_id = "carol"; device_id = "c1"; device_name = "phone"; public_key = "pc" }

-- Its socket is open, and a guest asks for access.
abbrev asked : Host toy host_text
asked = record (new_host toy host_text "ABC" alice) {
  open_sockets = λ k. true;
  asking = (0, record { socket = 0; requester = carol; prompted = false }) ∷ [];
  next_request = 1;
}

abbrev policies : Policies
policies = record {
  file = some (some (("carol", record { access = trusted; updated_at = "now" }) ∷ []));
  default_users = [];
}

-- A shell was spawned on socket 0, which has closed; a reconnect is to come.
abbrev dropped : Host toy host_text
dropped = record (new_host toy host_text "ABC" alice) {
  sockets = [];
  next_socket = 1;
  session_id = some "s";
  child = some 0;
  ptys = (0, record { socket = 0; cipher = 0 }) ∷ [];
  next_pty = 1;
  waits = (0, record { attempt = 0; delay = 1000 }) ∷ [];
  next_wait = 1;
}

abbrev ended : Host toy host_text
ended = record dropped { is_closed = true }

handle_approves_example :
    (approvals (handle toy host_text asked (decides 0 policies)).out ≡ approvals asked.out)
    ⊎ Consents toy host_text asked (decides 0 policies)
handle_approves_example = handle_approves toy host_text asked (decides 0 policies)

output_lost_example :
    handle toy host_text
      (handle_all toy host_text dropped
        (waited 0 ∷ opens 1 ∷ receives 1 (ServerMessage.reconnect_ok "s" ClientRole.host) 3 ∷ []))
      (outputs 0 "x" 0)
    ≡ handle_all toy host_text dropped
        (waited 0 ∷ opens 1 ∷ receives 1 (ServerMessage.reconnect_ok "s" ClientRole.host) 3 ∷ [])
unfolding new_host get
output_lost_example =
    output_lost toy host_text dropped 0 0
      (waited 0 ∷ opens 1 ∷ receives 1 (ServerMessage.reconnect_ok "s" ClientRole.host) 3 ∷ []) "x"
      0 ((omega arith, refl, refl), (omega arith, refl))

denied_refused_example :
    (approvals (handle toy host_text asked (decides 0 (deny_user policies "carol" "later"))).out
      ≡ approvals asked.out)
    × (get 0 (handle toy host_text asked (decides 0 (deny_user policies "carol" "later"))).asking
        ≡ none)
unfolding new_host get
denied_refused_example =
    denied_refused toy host_text asked 0
      (record { socket = 0; requester = carol; prompted = false }) policies "later" refl refl refl
      (λ h. false≢true ((string_eq.same_iff "carol" "__proto__").1 h))
