-- ===== src/Tui/App/Isolation.antt =====
-- packages/tui/src/app.ts: what a key or a command leaves as it was.
use tbridge.Base.{
  ◌⊎◌, inl, inr, Bool-cases, false, ◌≡◌, refl, subst⁻¹, String, Bool, true, false, ◌||◌, Option,
  none, some, List, ◌==◌, string_eq, arith, if_both, if_split,
}
use tbridge.Engine.ExecutionEngine.Interface.{Sessions}
use tbridge.Tui.Keys.{KeyEvent}
use tbridge.Tui.CommandPalette.{
  CommandPalette, Call, closes, runs, PaletteKey, key_escape, key_return, palette_key, switch_key,
  close_calls,
}
use tbridge.Tui.CommandPalette
use tbridge.Tui.App.State.{App, Action, notify, stop}
use tbridge.Tui.App.Panes.{Env}
use tbridge.Tui.App.Input.{
  should_quit, second_ctrl_c, outside_pane, quit_key, run_calls, palette_step, above_bar,
  handle_key,
}

abbrev is_return : PaletteKey → Bool
is_return key_return = true
is_return name = false

is_return-palette_key :
    (name : String) → (name == "return") ≡ false → is_return (palette_key name) ≡ false
unfolding palette_key
is_return-palette_key name h = ground arith

-- Ctrl+C, Ctrl+D, Ctrl+Q and Ctrl+X.
unfoldable pub is_quit : String → Bool
is_quit name = (name == "ctrl-c") || (name == "ctrl-d") || (name == "ctrl-q") || (name == "ctrl-x")

module _ {S : Type 0} (I : Sessions S) (env : Env S) where
  -- The same sessions, panes, command bar, side bar, peers and requests, and the process goes on, or
  -- not, as before.
  abbrev pub Same : App I → App I → Type 0
  Same a b =
      (b.engine ≡ a.engine)
      × (b.panes ≡ a.panes)
      × (b.bar ≡ a.bar)
      × (b.sidebar ≡ a.sidebar)
      × (b.peers ≡ a.peers)
      × (b.pair_requests ≡ a.pair_requests)
      × (b.torn_down ≡ a.torn_down)
      × (b.over ≡ a.over)

  Same-refl : (a : App I) → Same a a
  Same-refl a = (refl, refl, refl, refl, refl, refl, refl, refl)

  quits_open :
      (a : App I) (key : KeyEvent)
      → a.palette.visible ≡ true
      → should_quit I env a key ≡ (is_quit key.name, a)
  unfolding should_quit quit_key outside_pane second_ctrl_c notify is_quit
  quits_open a key v = ground arith

  run_calls-closes : (a : App I) (o : Option Unit) → run_calls I env a (close_calls o) ≡ a
  unfolding run_calls
  run_calls-closes a none = refl
  run_calls-closes a (some c) = refl

  run_calls-switch_key :
      (a : App I) (p : CommandPalette Action Unit) (name : PaletteKey) (key : KeyEvent)
      → is_return name ≡ false
      → run_calls I env a ((switch_key env.to_lower_case p name key).1) ≡ a
  unfolding switch_key run_calls CommandPalette.close_palette
  run_calls-switch_key a p key_escape key h = run_calls-closes a p.on_close
  run_calls-switch_key a p key_return key h = absurd (ground arith)
  run_calls-switch_key a p name key h = refl

  palette_step-Same :
      (a : App I) (key : KeyEvent)
      → (key.name == "return") ≡ false
      → Same a (palette_step I env a key)
  unfolding palette_step CommandPalette.handle_key
  palette_step-Same a key h =
      let p = switch_key env.to_lower_case a.palette (palette_key key.name) key in
      if_both
        (λ (r : Bool × CommandPalette Action Unit × List (Call Action Unit)).
          Same a (run_calls I env (record a { palette = r.1 }) r.2))
        a.palette.visible
        (subst⁻¹ (Same a)
          (run_calls-switch_key (record a { palette = p.0 }) a.palette (palette_key key.name) key
            (is_return-palette_key key.name h))
          (Same-refl a))
        (Same-refl a)

  above_bar-Same :
      (a : App I) (key : KeyEvent)
      → a.palette.visible ≡ true
      → (key.name == "return") ≡ false
      → Same a (above_bar I env a key)
  unfolding above_bar
  above_bar-Same a key v h =
      if_split (Same a) a.palette.visible (λ e. palette_step-Same a key h)
        (λ e. absurd (ground (arith, v)))

  -- While the palette is open, Ctrl+C, Ctrl+D, Ctrl+Q and Ctrl+X do what `stop` does, and no other key
  -- but Return changes the sessions, the panes, the command bar, the side bar, or what peers are sent,
  -- tears anything down or ends the process.
  pub palette_isolates :
      (a : App I) (key : KeyEvent)
      → a.palette.visible ≡ true
      → (key.name == "return") ≡ false
      → ((is_quit key.name ≡ true) × (handle_key I env a key ≡ stop I a))
        ⊎ ((is_quit key.name ≡ false) × Same a (handle_key I env a key))
  unfolding handle_key
  palette_isolates a key v h =
      let q = quits_open a key v in
      elim (Bool-cases (is_quit key.name)) [
        | inl x ↦ inl (x, rw (q, x, handle_key) refl)
        | inr x ↦ inr (x, rw (q, x, handle_key) (above_bar-Same a key v h))
      ]
