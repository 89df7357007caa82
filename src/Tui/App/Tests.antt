-- ===== src/Tui/App/Tests.antt =====
-- packages/tui/src/app.ts: an application with one pane, which shows a session of a peer's machine.
use tbridge.Base.{
  ◌⊎◌, ℕ, zero, suc, ap, ◌≡◌, refl, String, true, false, none, some, List, [], ◌∷◌, get, set,
  nat_eq, string_eq, arith,
}
use tbridge.Protocol.Envelopes.{Payload}
use tbridge.Engine.ExecutionEngine.Interface.{remote}
use tbridge.Engine.RemoteSession.{RemoteSession, new_remote_session}
use tbridge.Network.PeerConnection.{encrypted}
use tbridge.Tui.Keys.{KeyEvent}
use tbridge.Tui.Keys.Ascii.{char_of, ascii, object_names}
use tbridge.Tui.PaneManager.{new_pane_manager}
use tbridge.Tui.CommandPalette.{new_palette, open_palette}
use tbridge.Tui.CommandBar.{new_bar, enter_input}
use tbridge.Tui.Sidebar.{new_sidebar}
use tbridge.Tui.Toast.{new_toast}
use tbridge.Tui.App.State.{stop, App, Peer, on_terminal, runs_command, focused_pane}
use tbridge.Tui.App.Panes.{Env, mount}
use tbridge.Tui.App.Input.{on_input, handle_key}
use tbridge.Tui.App.Peers.{send_to, on_session_data, on_host_payload}
use tbridge.Tui.PaneManager.Requests.{new_pane_manager-IsValid}
use tbridge.Tui.App.Upkeep.Actions.{Named, InOrder}
use tbridge.Tui.App.Upkeep.Typing.{type_all, type_all-InOrder}
use tbridge.Tui.App.Isolation.{Same, is_quit, palette_isolates}
use tbridge.Tui.App.Leaking.{Typing, Ready, space_leaks}
use tbridge.Tui.App.Echo.{guest_hears, output_echoes}

abbrev session : RemoteSession
session = new_remote_session "s1" "ann" "laptop" "/bin/sh" 80 24 0

-- Names that are all different: n + 1 times the same letter.
abbrev unary : ℕ → String
unary zero = "i"
unary (suc n) = String.◌∷◌ "i" (unary n)

abbrev size : String → ℕ
size String.[] = 0
size (String.◌∷◌ c s) = suc (size s)

size-unary : (n : ℕ) → size (unary n) ≡ suc n
size-unary zero = refl
size-unary (suc n) = ap suc (size-unary n)

unary-Named : Named unary
unary-Named = record {
  distinct = λ j k e. omega (arith, size-unary j, size-unary k, ap size e);
  nonempty = λ k e. omega (arith, size-unary k, ap size e);
}

abbrev env : Env RemoteSession
env = record {
  now = 5000;
  create = λ t. some session;
  pane_id = unary;
  text_of = ascii;
  set_title = λ t s. record s { title = t };
  to_lower_case = λ us. us;
  decode = ascii;
  from_char_code = char_of;
  inherited = object_names;
}

abbrev empty : App (remote false)
empty = record {
  engine = record { sessions = []; closing = []; emitted = [] };
  palette = new_palette;
  bar = new_bar;
  sidebar = new_sidebar none;
  panes = new_pane_manager 80 24;
  toast = new_toast;
  status_bar = record {
    connected = true;
    active_sessions = 0;
    peer_count = 0;
    share_code = none;
    focus = on_terminal;
  };
  peers = [];
  pair_requests = [];
  share_code = none;
  user_id = "bob";
  prefix_mode = false;
  sidebar_focused = false;
  pane_counter = 0;
  last_ctrl_c_at = 0;
  relay_worker = true;
  torn_down = [];
  over = none;
}

abbrev friend : Peer
friend = record { peer_user = "ann"; peer_device = "laptop"; status = encrypted; sent = [] }

abbrev ready : App (remote false)
ready = record (mount (remote false) env empty session) { peers = ("ann:laptop", friend) ∷ [] }

abbrev searching : App (remote false)
searching = record ready { palette = open_palette env.to_lower_case ready.palette (some tt) }

abbrev typing : App (remote false)
typing = record ready { bar = enter_input runs_command }

abbrev key_w : KeyEvent
key_w = record { raw = 119 ∷ []; name = "w"; ctrl = false; shift = false; meta = false; ch = "w" }

palette_isolates_example :
    ((is_quit key_w.name ≡ true)
      × (handle_key (remote false) env searching key_w ≡ stop (remote false) searching))
    ⊎ ((is_quit key_w.name ≡ false)
        × Same (remote false) env searching (handle_key (remote false) env searching key_w))
unfolding open_palette
palette_isolates_example = palette_isolates (remote false) env searching key_w refl (ground arith)

typing-Typing : Typing (remote false) env typing
unfolding enter_input new_palette mount
typing-Typing = record { closed = refl; typing = refl; no_prefix = refl; in_pane = refl }

typing-Ready : Ready (remote false) env typing session
unfolding mount focused_pane new_pane_manager new_remote_session get set
typing-Ready = record {
  pane_id = "ii";
  pane = record {
    session = some "s1";
    rect = record { x = 1; y = 2; width = 80; height = 21 };
    focused = true;
    lines = 0;
    scroll_offset = 0;
  };
  session_id = "s1";
  focused = refl;
  shows = refl;
  known = refl;
  alive = refl;
}

space_leaks_example :
    ((on_input (remote false) env typing (32 ∷ [])).bar ≡ typing.bar)
    × ((on_input (remote false) env typing (32 ∷ [])).engine.sessions
        ≡ set "s1" ((remote false).write session " ").1 typing.engine.sessions)
unfolding new_remote_session
space_leaks_example = space_leaks (remote false) env typing session refl typing-Typing typing-Ready

output_echoes_example :
    let payload = Payload.pty_data "s1" "ls" in
    let host' = on_session_data (remote false) env ready "s1" "ls" in
    (get "ann:laptop" host'.peers ≡ some (send_to friend payload))
    × (get "ann:laptop" (guest_hears env ready session payload).peers
        ≡ some (send_to friend payload))
    × (get "s1" (on_host_payload (remote false) env host' payload).engine.sessions
        ≡ some ((remote false).write session "ls").1)
unfolding new_remote_session mount get set
output_echoes_example =
    output_echoes (remote false) env ready session env ready session "ann:laptop" "ann:laptop" "ls"
      friend friend refl refl refl refl refl refl

empty-InOrder : InOrder (remote false) env unary-Named empty
unfolding new_pane_manager
empty-InOrder = (new_pane_manager-IsValid 80 24, λ k h. refl)

-- Ctrl+B and n, twice, and Ctrl+B and l.
abbrev opening : List (List ℕ)
opening = (2 ∷ []) ∷ (110 ∷ []) ∷ (2 ∷ []) ∷ (110 ∷ []) ∷ (2 ∷ []) ∷ (108 ∷ []) ∷ []

type_all-InOrder_example :
    InOrder (remote false) env unary-Named (type_all (remote false) env unary-Named empty opening)
type_all-InOrder_example =
    type_all-InOrder (remote false) env unary-Named empty opening empty-InOrder
