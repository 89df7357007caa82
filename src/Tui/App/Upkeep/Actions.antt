-- ===== src/Tui/App/Upkeep/Actions.antt =====
-- packages/tui/src/app.ts: what the actions and the commands make of the panes.
use tbridge.Base.{
  ℕ, ◌≡◌, ◌≢◌, refl, ap, ◌∙◌, subst, subst⁻¹, String, Option, none, some, List, set, get, ◌==◌,
  nat_eq, string_eq, arith, if_both, Option-cases, inl, inr, length, ltb,
}
use tbridge.Engine.ExecutionEngine.Interface.{Sessions}
use tbridge.Tui.Toast.{ToastLevel}
use tbridge.Tui.PaneManager.{
  PaneManager, TerminalPane, removes, next, prev, offsets, handle, scroll_up, scroll_down,
  focus_next, focus_prev, truthy,
}
use tbridge.Tui.PaneManager.Naming.{Counted, Counted-handle, Counted-create_pane, set_scrolled}
use tbridge.Tui.App.State.{
  App, Action, new_pane, close_pane, next_pane, prev_pane, toggles_sidebar, renames_session,
  kills_process, interrupts_process, scrolls_up, scrolls_down, clears_pane, connects_peer,
  sends_message, quits, stop, notify, focused_pane, focused_session, update_sidebar,
  update_status_bar, update_bars, toggle_sidebar, pane_closed, renamed, process_killed,
  create_failed, store_session, after_call,
}
use tbridge.Tui.App.Panes.{
  Env, mount, announce_pane, create_local_session, close_pane_of, stop_if_empty, close_current_pane,
  rename_current_session, kill_session, cancel_session, write_session, scroll, focus_by, run_action,
}

-- The names of the panes are all different, and none is empty.
pub record Named (pane_id : ℕ → String) : Type 0 where
  pub distinct : (j k : ℕ) → pane_id j ≡ pane_id k → j ≡ k
  pub nonempty : (k : ℕ) → pane_id k ≢ ""

module _ {S : Type 0} (I : Sessions S) (env : Env S) (names : Named env.pane_id) where
  -- The panes are in order, and those of later names are not there yet.
  abbrev pub InOrder : App I → Type 0
  InOrder a = Counted env.pane_id a.panes a.pane_counter

  pub removed :
      (m : PaneManager) (n : ℕ) (id : String)
      → Counted env.pane_id m n
      → Counted env.pane_id (handle m (removes id)) n
  removed m n id h =
      Counted-handle env.pane_id m n (removes id) (λ i s e. absurd (ground (arith, e))) tt h

  pub shifted :
      (m : PaneManager) (n x : ℕ)
      → Counted env.pane_id m n
      → Counted env.pane_id (handle m (offsets x)) n
  shifted m n x h =
      Counted-handle env.pane_id m n (offsets x) (λ i s e. absurd (ground (arith, e))) tt h

  mount-InOrder : (a : App I) (s : S) → InOrder a → InOrder (mount I env a s)
  unfolding mount
  mount-InOrder a s h =
      Counted-create_pane env.pane_id a.panes a.pane_counter (some (I.id s)) names.distinct
        names.nonempty h

  announce_pane-InOrder : (a : App I) → InOrder a → InOrder (announce_pane I env a)
  unfolding notify
  announce_pane-InOrder a h = if_both InOrder (ltb 1 a.pane_counter) h h

  pub create_local_session-InOrder :
      (a : App I) (t : Option (List ℕ)) → InOrder a → InOrder (create_local_session I env a t)
  unfolding create_local_session notify update_sidebar update_status_bar
  create_local_session-InOrder a t h =
      elim (env.create t)
        as (λ o. InOrder (elim o as (λ x. App I) [
          | none ↦ notify I a create_failed ToastLevel.error 4000 env.now
          | some s ↦ announce_pane I env (update_bars I (mount I env a s))
        ])) [
          | none ↦ h
          | some s ↦ announce_pane-InOrder (update_bars I (mount I env a s)) (mount-InOrder a s h)
        ]

  pub close_pane_of-InOrder :
      (a : App I) (id : String) (o : Option String)
      → InOrder a
      → InOrder (close_pane_of I env a id o)
  unfolding close_pane_of update_sidebar update_status_bar handle
  close_pane_of-InOrder a id none h = removed a.panes a.pane_counter id h
  close_pane_of-InOrder a id (some i) h = removed a.panes a.pane_counter id h

  pub stop_if_empty-InOrder :
      (a b : App I) → InOrder a → InOrder b → InOrder (stop_if_empty I env a b)
  unfolding stop
  stop_if_empty-InOrder a b h k = if_both InOrder (length a.panes.panes == 0) h k

  pub close_current_pane-InOrder : (a : App I) → InOrder a → InOrder (close_current_pane I env a)
  unfolding close_current_pane notify
  close_current_pane-InOrder a h =
      elim (focused_pane I a)
        as (λ o. InOrder (elim o as (λ x. App I) [
          | none ↦ a
          | some ip ↦
              let a' = close_pane_of I env a ip.0 ip.1.session in
              stop_if_empty I env a' (notify I a' pane_closed ToastLevel.info 1500 env.now)
        ])) [
          | none ↦ h
          | some ip ↦
              let k = close_pane_of-InOrder a ip.0 ip.1.session h in
              let a' = close_pane_of I env a ip.0 ip.1.session in
              stop_if_empty-InOrder a' (notify I a' pane_closed ToastLevel.info 1500 env.now) k k
        ]

  pub rename_current_session-InOrder :
      (a : App I) (t : List ℕ) → InOrder a → InOrder (rename_current_session I env a t)
  unfolding rename_current_session notify update_sidebar
  rename_current_session-InOrder a t h =
      elim (focused_session I a)
        as (λ o. InOrder (elim o as (λ x. App I) [
          | none ↦ a
          | some s ↦
              notify I (update_sidebar I (store_session I a (env.set_title (env.text_of t) s)))
                (renamed t) ToastLevel.success 1500 env.now
        ])) [ none ↦ h | some s ↦ h ]

  pub kill_session-InOrder : (a : App I) → InOrder a → InOrder (kill_session I env a)
  unfolding kill_session
  kill_session-InOrder a h =
      elim (focused_session I a)
        as (λ o.
          InOrder (elim o as (λ x. App I) [ none ↦ a | some s ↦ store_session I a (I.kill s) ])) [
            | none ↦ h
            | some s ↦ h
          ]

  cancel_session-InOrder : (a : App I) → InOrder a → InOrder (cancel_session I env a)
  unfolding cancel_session
  cancel_session-InOrder a h =
      elim (focused_session I a)
        as (λ o.
          InOrder (elim o as (λ x. App I) [ none ↦ a | some s ↦ store_session I a (I.cancel s) ])) [
            | none ↦ h
            | some s ↦ h
          ]

  pub write_session-InOrder :
      (a : App I) (t : String) → InOrder a → InOrder (write_session I env a t)
  unfolding write_session
  write_session-InOrder a t h =
      elim (focused_session I a)
        as (λ o.
          InOrder (elim o as (λ x. App I) [ none ↦ a | some s ↦ after_call I a (I.write s t) ])) [
            | none ↦ h
            | some s ↦ h
          ]

  focused_pane-get :
      (a : App I) (id : String) (p : TerminalPane)
      → focused_pane I a ≡ some (id, p)
      → get id a.panes.panes ≡ some p
  unfolding focused_pane
  focused_pane-get a id p h = found (truthy a.panes.focused_id) h
    where
      same :
          (i : String) (q : TerminalPane)
          → get i a.panes.panes ≡ some q
          → ◌≡◌ {A = Option (String × TerminalPane)} (some (i, q)) (some (id, p))
          → get id a.panes.panes ≡ some p
      same i q k e =
          subst (λ j. get j a.panes.panes ≡ some p)
            (ap
              (λ (o : Option (String × TerminalPane)). elim o as (λ x. String) [
                | none ↦ i
                | some x ↦ x.0
              ])
              e)
            (k
              ∙ ap
                  (λ (o : Option (String × TerminalPane)). elim o as (λ x. Option TerminalPane) [
                    | none ↦ none
                    | some x ↦ some x.1
                  ])
                  e)

      found :
          (o : Option String)
          → ◌≡◌ {A = Option (String × TerminalPane)}
              (elim o [
                | none ↦ none
                | some i ↦ elim (get i a.panes.panes) [ none ↦ none | some q ↦ some (i, q) ]
              ])
              (some (id, p))
          → get id a.panes.panes ≡ some p
      found none e = absurd (ground (arith, e))
      found (some i) e = elim (Option-cases (get i a.panes.panes)) [
        | inl k ↦ absurd (ground (arith, e, k))
        | inr (q, k) ↦ same i q k (
            subst
              (λ u.
                ◌≡◌ {A = Option (String × TerminalPane)}
                  (elim u [ none ↦ none | some r ↦ some (i, r) ]) (some (id, p)))
              k e)
      ]

  pub scroll-InOrder :
      (a : App I) (f : TerminalPane → TerminalPane)
      → ((p : TerminalPane) → (f p).focused ≡ p.focused)
      → InOrder a
      → InOrder (scroll I env f a)
  unfolding scroll
  scroll-InOrder a f same (v, c) = elim (Option-cases (focused_pane I a)) [
    | inl e ↦ subst⁻¹ (λ o. InOrder (scrolled o)) e (v, c)
    | inr (ip, e) ↦
        subst⁻¹ (λ o. InOrder (scrolled o)) e
          (
            set_scrolled a.panes ip.0 ip.1 (f ip.1) (focused_pane-get a ip.0 ip.1 e) (same ip.1) v,
            c,
          )
  ]
    where
      scrolled : Option (String × TerminalPane) → App I
      scrolled o = elim o [
        | none ↦ a
        | some ip ↦ record a { panes = record a.panes { panes = set ip.0 (f ip.1) a.panes.panes } }
      ]

  pub up-InOrder : (a : App I) → InOrder a → InOrder (scroll I env (scroll_up 10) a)
  unfolding scroll_up
  up-InOrder a h = scroll-InOrder a (scroll_up 10) (λ p. refl) h

  pub down-InOrder : (a : App I) → InOrder a → InOrder (scroll I env (scroll_down 10) a)
  unfolding scroll_down
  down-InOrder a h = scroll-InOrder a (scroll_down 10) (λ p. refl) h

  pub next-InOrder : (a : App I) → InOrder a → InOrder (focus_by I env focus_next a)
  unfolding update_sidebar handle
  next-InOrder a h =
      Counted-handle env.pane_id a.panes a.pane_counter next (λ i s e. absurd (ground (arith, e)))
        tt h

  pub prev-InOrder : (a : App I) → InOrder a → InOrder (focus_by I env focus_prev a)
  unfolding update_sidebar handle
  prev-InOrder a h =
      Counted-handle env.pane_id a.panes a.pane_counter prev (λ i s e. absurd (ground (arith, e)))
        tt h

  pub toggle_sidebar-InOrder : (a : App I) (now : ℕ) → InOrder a → InOrder (toggle_sidebar I a now)
  unfolding toggle_sidebar notify handle
  toggle_sidebar-InOrder a now h = shifted a.panes a.pane_counter _ h

  pub run_action-InOrder : (a : App I) (c : Action) → InOrder a → InOrder (run_action I env a c)
  unfolding run_action notify stop
  run_action-InOrder a new_pane h = create_local_session-InOrder a none h
  run_action-InOrder a close_pane h = close_current_pane-InOrder a h
  run_action-InOrder a next_pane h = next-InOrder a h
  run_action-InOrder a prev_pane h = prev-InOrder a h
  run_action-InOrder a toggles_sidebar h = toggle_sidebar-InOrder a env.now h
  run_action-InOrder a renames_session h = h
  run_action-InOrder a kills_process h =
      elim (focused_session I a)
        as (λ o. InOrder (elim o as (λ x. App I) [
          | none ↦ a
          | some s ↦ notify I (kill_session I env a) process_killed ToastLevel.warning 3000 env.now
        ])) [ none ↦ h | some s ↦ kill_session-InOrder a h ]
  run_action-InOrder a interrupts_process h = cancel_session-InOrder a h
  run_action-InOrder a scrolls_up h = up-InOrder a h
  run_action-InOrder a scrolls_down h = down-InOrder a h
  run_action-InOrder a clears_pane h = write_session-InOrder a "clear\n" h
  run_action-InOrder a connects_peer h = h
  run_action-InOrder a sends_message h = h
  run_action-InOrder a quits h = h
