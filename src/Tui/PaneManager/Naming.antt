-- ===== src/Tui/PaneManager/Naming.antt =====
-- packages/tui/src/components/pane-manager.ts: panes that are named by a count.
use tbridge.Base.{
  ℕ, suc, ◌<◌, ◌≡◌, ◌≢◌, refl, ap, sym, ◌∙◌, subst, ==_refl, String, Bool, true, false, not, Option,
  none, some, List, [], ◌∷◌, ◌++◌, if◌then◌else◌, get, set, get-set, keep, ◌==◌, nat_eq, string_eq,
  arith, if_both, is_some, inl, inr, length, leb, Bool-cases,
}
use tbridge.Tui.PaneManager.{
  PaneManager, TerminalPane, Event, creates, removes, focuses, next, prev, resizes, offsets, handle,
  focus_pane, at_index, create_pane, remove_pane, drop_pane, relayout, is_id, focus_next,
  focus_prev, set_offset, on_resize,
}
use tbridge.Tui.PaneManager.Focus.{IsValid, Listed, focus_of, mem, mem-append, focus_of-cases}
use tbridge.Tui.PaneManager.Requests.{Allowed, handle-IsValid}

pub focus_pane-order : (m : PaneManager) (id : String) → (focus_pane m id).pane_order ≡ m.pane_order
unfolding focus_pane
focus_pane-order m id =
    if_both (λ (x : PaneManager). x.pane_order ≡ m.pane_order) (is_id m.focused_id id) refl refl

at_index-order : (m : PaneManager) (o : Option String) → (at_index m o).pane_order ≡ m.pane_order
at_index-order m none = refl
at_index-order m (some id) = focus_pane-order m id

mem-keep :
    (id : String) (p : String → Bool) (ids : List String)
    → mem id ids ≡ false
    → mem id (keep p ids) ≡ false
mem-keep id p [] h = refl
mem-keep id p (i ∷ ids) h = ground (arith, mem-keep id p ids)

remove_pane-mem :
    (m : PaneManager) (id j : String)
    → mem j m.pane_order ≡ false
    → mem j ((remove_pane m id).pane_order) ≡ false
unfolding remove_pane drop_pane relayout
remove_pane-mem m id j h =
    elim (get id m.panes)
      as (λ o.
        mem j (
          (elim o as (λ x. PaneManager) [
            | none ↦ m
            | some p ↦ relayout (drop_pane m id)
          ]).pane_order)
        ≡ false) [
          | none ↦ h
          | some p ↦
              let kept = mem-keep j (λ i. not (i == id)) m.pane_order h in
              if_both (λ (x : PaneManager). mem j x.pane_order ≡ false) (is_id m.focused_id id) kept
                kept
        ]

create_pane-order :
    (m : PaneManager) (id : String) (s : Option String)
    → (create_pane m id s).pane_order ≡ m.pane_order ++ id ∷ []
unfolding create_pane relayout
create_pane-order m id s = focus_pane-order _ id

-- The name is not of a pane that is there.
unnamed-handle :
    (m : PaneManager) (e : Event) (j : String)
    → ((id : String) (s : Option String) → e ≡ creates id s → ⊥)
    → mem j m.pane_order ≡ false
    → mem j ((handle m e).pane_order) ≡ false
unfolding handle focus_next focus_prev set_offset on_resize relayout
unnamed-handle m (creates id s) j n h = absurd (n id s refl)
unnamed-handle m (removes id) j n h = remove_pane-mem m id j h
unnamed-handle m (focuses id) j n h = ap (mem j) (focus_pane-order m id) ∙ h
unnamed-handle m next j n h =
    if_both (λ (x : PaneManager). mem j x.pane_order ≡ false) (leb (length m.pane_order) 1) h
      (ap (mem j) (at_index-order m _) ∙ h)
unnamed-handle m prev j n h =
    if_both (λ (x : PaneManager). mem j x.pane_order ≡ false) (leb (length m.pane_order) 1) h
      (ap (mem j) (at_index-order m _) ∙ h)
unnamed-handle m (resizes c r) j n h = h
unnamed-handle m (offsets x) j n h = h

pub set_scrolled :
    (m : PaneManager) (id : String) (p q : TerminalPane)
    → get id m.panes ≡ some p
    → q.focused ≡ p.focused
    → IsValid m
    → IsValid (record m { panes = set id q m.panes })
set_scrolled m id p q h e ((d, n, f, l), s) =
    let Row = λ (i : String).
      focus_of (get i (set id q m.panes))
      ≡ (if mem i m.pane_order then some (is_id m.focused_id i) else none) in
    let here : Row id = ground (arith, l id, h, e, get-set id id q m.panes, ==_refl id) in
    let listed : Listed m.pane_order m.focused_id (set id q m.panes) = λ j.
      elim (Bool-cases (id == j)) [
        | inl y ↦ subst Row ((string_eq.same_iff id j).0 y) here
        | inr k ↦ ground (arith, k, l j, get-set id j q m.panes)
      ] in
    ((d, n, f, listed), s)

-- A pane that is there is in the order.
pub ordered :
    (m : PaneManager) (id : String)
    → IsValid m
    → is_some (get id m.panes) ≡ true
    → mem id m.pane_order ≡ true
ordered m id ((d, n, f, l), s) h =
    sym (focus_of-cases (get id m.panes) (mem id m.pane_order) (is_id m.focused_id id) (l id)) ∙ h

module _ (pane_id : ℕ → String) where
  -- A valid manager, in which the panes named from the count on are not there yet.
  abbrev pub Counted : PaneManager → ℕ → Type 0
  Counted m n = IsValid m × ((k : ℕ) → n < k → mem (pane_id k) m.pane_order ≡ false)

  pub Counted-handle :
      (m : PaneManager) (n : ℕ) (e : Event)
      → ((id : String) (s : Option String) → e ≡ creates id s → ⊥)
      → Allowed m e
      → Counted m n
      → Counted (handle m e) n
  Counted-handle m n e new a (v, c) =
      (handle-IsValid m e a v, λ k h. unnamed-handle m e (pane_id k) new (c k h))

  pub Counted-create_pane :
      (m : PaneManager) (n : ℕ) (s : Option String)
      → ((j k : ℕ) → pane_id j ≡ pane_id k → j ≡ k)
      → ((k : ℕ) → pane_id k ≢ "")
      → Counted m n
      → Counted (create_pane m (pane_id (suc n)) s) (suc n)
  unfolding handle
  Counted-create_pane m n s inj named (v, c) = (
    handle-IsValid m (creates (pane_id (suc n)) s) (c (suc n) (omega arith), named (suc n)) v,
    λ k h. ap (mem (pane_id k)) (create_pane-order m (pane_id (suc n)) s) ∙ unnamed k h,
  )
    where
      other : (k : ℕ) → suc n < k → (pane_id (suc n) == pane_id k) ≡ false
      other k h = elim (Bool-cases (pane_id (suc n) == pane_id k)) [
        | inl y ↦ absurd (omega (arith, inj (suc n) k ((string_eq.same_iff _ _).0 y), h))
        | inr e ↦ e
      ]

      unnamed : (k : ℕ) → suc n < k → mem (pane_id k) (m.pane_order ++ pane_id (suc n) ∷ []) ≡ false
      unnamed k h = ground (
        arith,
        mem-append (pane_id k) (pane_id (suc n)) m.pane_order,
        c k (omega arith),
        other k h,
      )
