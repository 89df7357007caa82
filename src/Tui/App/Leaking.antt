-- ===== src/Tui/App/Leaking.antt =====
-- packages/tui/src/app.ts: a space that is typed in the command bar.
use tbridge.Base.{
  ℕ, ◌≡◌, refl, ap, ◌∙◌, subst⁻¹, String, Bool, true, false, not, Option, none, some, List, [], ◌∷◌,
  if◌then◌else◌, get, set, ◌==◌, string_eq, arith, if_split,
}
use tbridge.Engine.ExecutionEngine.Interface.{Sessions}
use tbridge.Engine.Session.{is_active}
use tbridge.Tui.Keys.{KeyEvent, special, special_key, parse_key, parse_rest}
use tbridge.Tui.PaneManager.{TerminalPane}
use tbridge.Tui.CommandBar.{CommandBar, Mode, hints, input, is_input}
use tbridge.Tui.CommandBar
use tbridge.Tui.App.State.{
  App, Submit, update_status_bar, focused_pane, after_call, stop, crashed, session_in,
}
use tbridge.Tui.App.Panes.{Env}
use tbridge.Tui.App.Input.{
  quit_key, should_quit, bar_step, below_tab, below_bar, above_bar, handle_key, forward, on_input,
  submit_line, write_active,
}

abbrev space_key : KeyEvent
space_key = record {
  raw = 32 ∷ [];
  name = "space";
  ctrl = false;
  shift = false;
  meta = false;
  ch = "";
}

bar_ignores : (b : CommandBar Submit) → CommandBar.handle_key b "space" "" ≡ (false, b, none)
unfolding CommandBar.handle_key CommandBar.switch_key CommandBar.bar_key CommandBar.typed
bar_ignores b = ground arith

module _ {S : Type 0} (I : Sessions S) (env : Env S) where
  parse-space :
      env.decode (32 ∷ []) ≡ " "
      → parse_key env.decode env.from_char_code env.inherited (32 ∷ []) ≡ some space_key
  unfolding parse_key special
  parse-space h =
      subst⁻¹
        (λ s.
          ◌≡◌ {A = Option KeyEvent}
            (elim (special s) [
              | some name ↦
                  some (special_key env.decode env.from_char_code env.inherited (32 ∷ []) name)
              | none ↦ parse_rest env.decode env.from_char_code env.inherited (32 ∷ [])
            ])
            (some space_key))
        h refl

  should_quit-space : (a : App I) → should_quit I env a space_key ≡ (false, a)
  unfolding should_quit quit_key
  should_quit-space a = refl

  below_bar-space :
      (a : App I)
      → a.prefix_mode ≡ false
      → a.sidebar_focused ≡ false
      → below_bar I env a space_key ≡ forward I env a space_key
  unfolding below_bar below_tab
  below_bar-space a h k =
      if_split (λ b. b ≡ forward I env a space_key) a.prefix_mode (λ e. absurd (ground (arith, h)))
        (λ e.
          if_split (λ b. b ≡ forward I env a space_key) a.sidebar_focused
            (λ f. absurd (ground (arith, k))) (λ f. refl))

  bar_step-space : (a : App I) → bar_step I env a space_key ≡ (false, update_status_bar I a)
  unfolding bar_step
  bar_step-space a =
      subst⁻¹
        (λ (r : Bool × CommandBar.CommandBar Submit × Option (Submit × List ℕ)).
          ◌≡◌ {A = Bool × App I}
            (r.0, update_status_bar I (record (submit_line I env a r.2) { bar = r.1 }))
            (false, update_status_bar I a))
        (bar_ignores a.bar) refl

  -- Where neither the palette nor the side bar takes the keys.
  pub record Typing (a : App I) : Type 0 where
    pub closed : a.palette.visible ≡ false
    pub typing : is_input a.bar.mode ≡ true
    pub no_prefix : a.prefix_mode ≡ false
    pub in_pane : a.sidebar_focused ≡ false

  above_bar-space :
      (a : App I)
      → Typing a
      → above_bar I env a space_key ≡ forward I env (update_status_bar I a) space_key
  unfolding above_bar update_status_bar
  above_bar-space a t =
      if_split (λ b. b ≡ forward I env (update_status_bar I a) space_key) a.palette.visible
        (λ e. absurd (ground (arith, t.closed)))
        (λ e.
          if_split (λ b. b ≡ forward I env (update_status_bar I a) space_key)
            (not (is_input a.bar.mode)) (λ f. absurd (ground (arith, t.typing)))
            (λ f.
              subst⁻¹
                (λ (r : Bool × App I).
                  (if r.0 then r.1 else below_bar I env r.1 space_key)
                  ≡ forward I env (update_status_bar I a) space_key)
                (bar_step-space a) (below_bar-space (update_status_bar I a) t.no_prefix t.in_pane)))

  -- The focused pane, and its session, which is active.
  pub record Ready (a : App I) (s : S) : Type 0 where
    pub pane_id : String
    pub pane : TerminalPane
    pub session_id : String
    pub focused : focused_pane I a ≡ some (pane_id, pane)
    pub shows : pane.session ≡ some session_id
    pub known : get session_id a.engine.sessions ≡ some s
    pub alive : is_active (I.status s) ≡ true

  forward-active :
      (a : App I) (s : S) (key : KeyEvent)
      → Ready a s
      → forward I env a key ≡ after_call I a (I.write s (env.decode key.raw))
  unfolding forward
  forward-active a s key r =
      let text = env.decode key.raw in
      let Goal = λ (b : App I). b ≡ after_call I a (I.write s text) in
      let written = λ (o : Option S). write_active I env a o text in
      let shown = λ (o : Option String). written (session_in I a.engine.sessions o) in
      subst⁻¹
        (λ (o : Option (String × TerminalPane)). Goal (elim o [
          | none ↦ if key.name == "ctrl-c" then stop I a else a
          | some ip ↦ shown ip.1.session
        ]))
        r.focused
        (subst⁻¹ (λ o. Goal (shown o)) r.shows
          (subst⁻¹ (λ o. Goal (written o)) r.known (ground (arith, r.alive))))

  Ready-update_status_bar : (a : App I) (s : S) → Ready a s → Ready (update_status_bar I a) s
  unfolding update_status_bar focused_pane
  Ready-update_status_bar a s r = record {
    pane_id = r.pane_id;
    pane = r.pane;
    session_id = r.session_id;
    focused = r.focused;
    shows = r.shows;
    known = r.known;
    alive = r.alive;
  }

  handle_key-space :
      (a : App I) (s : S)
      → env.decode (32 ∷ []) ≡ " "
      → Typing a
      → Ready a s
      → handle_key I env a space_key ≡ after_call I (update_status_bar I a) (I.write s " ")
  unfolding handle_key should_quit quit_key
  handle_key-space a s d t r =
      above_bar-space a t
      ∙ forward-active (update_status_bar I a) s space_key (Ready-update_status_bar a s r)
      ∙ ap (λ text. after_call I (update_status_bar I a) (I.write s text)) d

  -- While a line is typed in the command bar, the space bar leaves the line as it is and types a
  -- space into the session of the focused pane, where it is active.
  pub space_leaks :
      (a : App I) (s : S)
      → env.decode (32 ∷ []) ≡ " "
      → Typing a
      → Ready a s
      → ((on_input I env a (32 ∷ [])).bar ≡ a.bar)
        × ((on_input I env a (32 ∷ [])).engine.sessions
            ≡ set (I.id s) ((I.write s " ").1) a.engine.sessions)
  unfolding on_input update_status_bar
  space_leaks a s d t r =
      let Goal = λ (b : App I).
        (b.bar ≡ a.bar)
        × (b.engine.sessions ≡ set (I.id s) ((I.write s " ").1) a.engine.sessions) in
      subst⁻¹
        (λ (o : Option KeyEvent).
          Goal (elim o [
            | none ↦ record a { over = some crashed }
            | some key ↦ handle_key I env a key
          ]))
        (parse-space d)
        (subst⁻¹ Goal (handle_key-space a s d t r)
          (refl, ap (λ k. set k ((I.write s " ").1) a.engine.sessions) (I.id-write s " ")))
