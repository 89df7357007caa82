-- ===== src/Tui/App/Upkeep/Typing.antt =====
-- packages/tui/src/app.ts: what the keys make of the panes.
use tbridge.Base.{
  ℕ, zero, suc, ◌≡◌, refl, ap, subst⁻¹, String, Bool, true, false, ◌&&◌, ◌||◌, not, Option, none,
  some, List, [], ◌∷◌, if◌then◌else◌, get, get_elem?, ◌==◌, nat_eq, string_eq, arith, if_both,
  Option-cases, inl, inr, is_some,
}
use tbridge.Engine.ExecutionEngine.Interface.{Sessions}
use tbridge.Engine.Session.{is_active}
use tbridge.Tui.Keys.{KeyEvent, parse_key}
use tbridge.Tui.PaneManager.{TerminalPane, focuses, handle, truthy, focus_pane}
use tbridge.Tui.PaneManager.Naming.{Counted, Counted-handle, ordered}
use tbridge.Tui.CommandPalette.{Call, closes, runs}
use tbridge.Tui.Sidebar.{selected_id}
use tbridge.Tui.App.State.{
  App, Action, crashed, stop, notify, focused_pane, session_in, update_sidebar, update_status_bar,
  update_bars,
}
use tbridge.Tui.App.Panes.{Env, run_action, close_pane_of}
use tbridge.Tui.App.Input.{
  QuitKey, quit_now, quit_ctrl_c, quit_not, quit_for, ctrl_c, quit_key, should_quit, outside_pane,
  second_ctrl_c, PrefixKey, prefix_new, prefix_close, prefix_next, prefix_prev, prefix_quit,
  prefix_sidebar, prefix_up, prefix_down, prefix_pane, prefix_unknown, prefix_key,
  handle_prefix_key, focus_of, SidebarKey, sidebar_prev, sidebar_next, sidebar_open, sidebar_leave,
  sidebar_delete, sidebar_other, sidebar_key, handle_sidebar_key, pane_of, open_selected,
  close_selected, write_active, forward, below_tab, below_bar, run_calls, palette_step, bar_step,
  above_bar, handle_key, on_input, is_ctrl_x,
}
use tbridge.Tui.App.Upkeep.Actions.{
  Named, InOrder, create_local_session-InOrder, close_pane_of-InOrder, stop_if_empty-InOrder,
  close_current_pane-InOrder, up-InOrder, down-InOrder, next-InOrder, prev-InOrder,
  toggle_sidebar-InOrder, run_action-InOrder,
}
use tbridge.Tui.CommandPalette
use tbridge.Tui.CommandBar
use tbridge.Tui.CommandBar.{is_input}
use tbridge.Tui.App.Upkeep.Commands.{submit_line-InOrder}

get-at :
    (ps : List (String × TerminalPane)) (n : ℕ) (ip : String × TerminalPane)
    → get_elem? ps n ≡ some ip
    → is_some (get ip.0 ps) ≡ true
unfolding get
get-at [] n ip h = absurd (ground (arith, h))
get-at ((j, p) ∷ ps) zero ip h =
    let e : j ≡ ip.0 =
      ap
        (λ (o : Option (String × TerminalPane)). elim o as (λ x. String) [
          | none ↦ j
          | some x ↦ x.0
        ])
        h in
    ground (arith, (string_eq.same_iff j ip.0).1 e)
get-at ((j, p) ∷ ps) (suc n) ip h = ground (arith, get-at ps n ip h)

get-pane_of :
    (ps : List (String × TerminalPane)) (i id : String)
    → pane_of ps i ≡ some id
    → is_some (get id ps) ≡ true
unfolding pane_of get
get-pane_of [] i id h = absurd (ground arith)
get-pane_of ((j, p) ∷ ps) i id h = ground (arith, get-pane_of ps i id, string_eq.same_iff j id)

module _ {S : Type 0} (I : Sessions S) (env : Env S) (names : Named env.pane_id) where
  abbrev Kept : App I → Type 0
  Kept a = InOrder I env names a

  focused :
      (a : App I) (id : String)
      → is_some (get id a.panes.panes) ≡ true
      → Kept a
      → Counted env.pane_id (focus_pane a.panes id) a.pane_counter
  unfolding handle
  focused a id e h =
      Counted-handle env.pane_id a.panes a.pane_counter (focuses id)
        (λ i s q. absurd (ground (arith, q))) (ordered a.panes id h.0 e) h

  focus_of-InOrder :
      (a : App I) (o : Option (String × TerminalPane))
      → ((ip : String × TerminalPane) → o ≡ some ip → is_some (get ip.0 a.panes.panes) ≡ true)
      → Kept a
      → Kept (focus_of I env a o)
  unfolding update_sidebar
  focus_of-InOrder a none f h = h
  focus_of-InOrder a (some ip) f h = focused a ip.0 (f ip refl) h

  prefix-InOrder :
      (a : App I) (k : PrefixKey) (name : String) → Kept a → Kept (handle_prefix_key I env a k name)
  unfolding handle_prefix_key notify stop
  prefix-InOrder a prefix_new name h = create_local_session-InOrder I env names a none h
  prefix-InOrder a prefix_close name h = close_current_pane-InOrder I env names a h
  prefix-InOrder a prefix_next name h = next-InOrder I env names a h
  prefix-InOrder a prefix_prev name h = prev-InOrder I env names a h
  prefix-InOrder a prefix_quit name h = h
  prefix-InOrder a prefix_sidebar name h = toggle_sidebar-InOrder I env names a env.now h
  prefix-InOrder a prefix_up name h = up-InOrder I env names a h
  prefix-InOrder a prefix_down name h = down-InOrder I env names a h
  prefix-InOrder a (prefix_pane n) name h =
      focus_of-InOrder a (get_elem? a.panes.panes n) (λ ip. get-at a.panes.panes n ip) h
  prefix-InOrder a prefix_unknown name h = h

  open_selected-InOrder : (a : App I) (o : Option String) → Kept a → Kept (open_selected I env a o)
  open_selected-InOrder a none h = h
  open_selected-InOrder a (some i) h = elim (Option-cases (pane_of a.panes.panes i)) [
    | inl e ↦ subst⁻¹ (λ o. Kept (opened o)) e h
    | inr (id, e) ↦
        subst⁻¹ (λ o. Kept (opened o)) e (focused a id (get-pane_of a.panes.panes i id e) h)
  ]
    where
      opened : Option String → App I
      opened o = elim o [ none ↦ a | some id ↦ record a { panes = focus_pane a.panes id } ]

  close_selected-InOrder :
      (a : App I) (o : Option String) → Kept a → Kept (close_selected I env a o)
  unfolding update_sidebar update_status_bar
  close_selected-InOrder a none h = h
  close_selected-InOrder a (some i) h =
      let a' = closed (pane_of a.panes.panes i) in
      let k = closed-InOrder (pane_of a.panes.panes i) in
      stop_if_empty-InOrder I env names a' a' k k
    where
      closed : Option String → App I
      closed o = elim o [ none ↦ update_bars I a | some id ↦ close_pane_of I env a id (some i) ]

      closed-InOrder : (o : Option String) → Kept (closed o)
      closed-InOrder none = h
      closed-InOrder (some id) = close_pane_of-InOrder I env names a id (some i) h

  sidebar-InOrder : (a : App I) (k : SidebarKey) → Kept a → Kept ((handle_sidebar_key I env a k).1)
  unfolding handle_sidebar_key
  sidebar-InOrder a sidebar_prev h = h
  sidebar-InOrder a sidebar_next h = h
  sidebar-InOrder a sidebar_open h = open_selected-InOrder a (truthy (selected_id a.sidebar)) h
  sidebar-InOrder a sidebar_leave h = h
  sidebar-InOrder a sidebar_delete h = close_selected-InOrder a (truthy (selected_id a.sidebar)) h
  sidebar-InOrder a sidebar_other h = h

  write_active-InOrder :
      (a : App I) (o : Option S) (t : String) → Kept a → Kept (write_active I env a o t)
  write_active-InOrder a none t h = h
  write_active-InOrder a (some s) t h = if_both Kept (is_active (I.status s)) h h

  forward-InOrder : (a : App I) (key : KeyEvent) → Kept a → Kept (forward I env a key)
  unfolding forward stop
  forward-InOrder a key h =
      elim (focused_pane I a)
        as (λ o. Kept (elim o as (λ x. App I) [
          | none ↦ if key.name == "ctrl-c" then stop I a else a
          | some ip ↦
              write_active I env a (session_in I a.engine.sessions ip.1.session)
                (env.decode key.raw)
        ])) [
          | none ↦ if_both Kept (key.name == "ctrl-c") h h
          | some ip ↦
              write_active-InOrder a (session_in I a.engine.sessions ip.1.session)
                (env.decode key.raw) h
        ]

  below_tab-InOrder : (a : App I) (key : KeyEvent) → Kept a → Kept (below_tab I env a key)
  unfolding below_tab update_status_bar
  below_tab-InOrder a key h =
      let k = sidebar-InOrder a (sidebar_key key.name) h in
      let r = handle_sidebar_key I env a (sidebar_key key.name) in
      if_both Kept a.sidebar_focused
        (if_both Kept r.0 k (
          forward-InOrder
            (update_status_bar I (record (update_status_bar I r.1) { sidebar_focused = false })) key
            k))
        (forward-InOrder a key h)

  below_bar-InOrder : (a : App I) (key : KeyEvent) → Kept a → Kept (below_bar I env a key)
  unfolding below_bar update_status_bar
  below_bar-InOrder a key h = if_both Kept (key.name == "ctrl-p") h (
      if_both Kept (key.name == "ctrl-b") h (
        if_both Kept a.prefix_mode
          (prefix-InOrder (record a { prefix_mode = false }) (prefix_key key.name) key.name h)
          (if_both Kept ((key.ch == "/") && not (is_input a.bar.mode)) h
            (if_both Kept (key.name == "tab") h (below_tab-InOrder a key h)))))

  run_calls-InOrder :
      (a : App I) (cs : List (Call Action Unit)) → Kept a → Kept (run_calls I env a cs)
  unfolding run_calls
  run_calls-InOrder a [] h = h
  run_calls-InOrder a (closes c ∷ cs) h = run_calls-InOrder a cs h
  run_calls-InOrder a (runs c ∷ cs) h =
      run_calls-InOrder (run_action I env a c) cs (run_action-InOrder I env names a c h)

  above_bar-InOrder : (a : App I) (key : KeyEvent) → Kept a → Kept (above_bar I env a key)
  unfolding above_bar palette_step bar_step update_status_bar
  above_bar-InOrder a key h =
      let r = CommandPalette.handle_key env.to_lower_case a.palette key in
      let b = CommandBar.handle_key a.bar key.name key.ch in
      let k = submit_line-InOrder I env names a b.2 h in
      if_both Kept a.palette.visible (run_calls-InOrder (record a { palette = r.1 }) r.2 h) (
        if_both Kept (not (is_input a.bar.mode)) (below_bar-InOrder a key h)
          (if_both Kept b.0 k (below_bar-InOrder ((bar_step I env a key).1) key k)))

  ctrl_c-InOrder : (a : App I) (b : Bool) → Kept a → Kept ((ctrl_c I env a b).1)
  unfolding notify
  ctrl_c-InOrder a true h = h
  ctrl_c-InOrder a false h = h

  quit_for-InOrder : (a : App I) (q : QuitKey) → Kept a → Kept ((quit_for I env a q).1)
  quit_for-InOrder a quit_now h = h
  quit_for-InOrder a quit_ctrl_c h =
      ctrl_c-InOrder a (outside_pane I env a || second_ctrl_c I env a) h
  quit_for-InOrder a quit_not h = h

  handle_key-InOrder : (a : App I) (key : KeyEvent) → Kept a → Kept (handle_key I env a key)
  unfolding handle_key should_quit stop
  handle_key-InOrder a key h =
      let r = quit_for I env a (quit_key key.name) in
      let k = quit_for-InOrder a (quit_key key.name) h in
      if_both Kept r.0 k (above_bar-InOrder r.1 key k)

  on_input-InOrder : (a : App I) (raw : List ℕ) → Kept a → Kept (on_input I env a raw)
  unfolding on_input stop
  on_input-InOrder a raw h =
      if_both Kept (is_ctrl_x raw) h
        (elim (parse_key env.decode env.from_char_code env.inherited raw)
          as (λ o. Kept (elim o as (λ x. App I) [
            | none ↦ record a { over = some crashed }
            | some key ↦ handle_key I env a key
          ])) [ none ↦ h | some key ↦ handle_key-InOrder a key h ])

  -- Chunks of input, one after the other, until the process is over.
  unfoldable pub type_all : App I → List (List ℕ) → App I
  unfolding on_input
  type_all a [] = a
  type_all a (raw ∷ raws) =
      let rest = type_all (on_input I env a raw) raws in if is_some a.over then a else rest

  -- Whatever is typed, in the panes, the palette, the command bar or the side bar, the panes stay
  -- in order, where their names are all different and not empty: each is laid out once, exactly one
  -- has the focus where there is any, and no name of a later pane is taken.
  pub type_all-InOrder :
      (a : App I) (raws : List (List ℕ))
      → InOrder I env names a
      → InOrder I env names (type_all a raws)
  unfolding type_all
  type_all-InOrder a [] h = h
  type_all-InOrder a (raw ∷ raws) h =
      if_both Kept (is_some a.over) h
        (type_all-InOrder (on_input I env a raw) raws (on_input-InOrder a raw h))
