-- ===== src/Tui/PaneManager/Requests.antt =====
-- packages/tui/src/components/pane-manager.ts: the panes stay in order through all requests.
use tbridge.Base.{
  ℕ, zero, suc, ◌+◌, ◌-◌, ◌++◌, ◌≡◌, ◌≢◌, refl, ap, sym, subst⁻¹, ◌∙◌, inl, inr, String, true,
  false, not, Option, none, some, List, [], ◌∷◌, keep, length, get_elem?, leb, if◌then◌else◌, get,
  set, delete, get-set, get-delete, ◌==◌, nat_eq, string_eq, arith, if_both, if_split, subst,
  is_some, Bool-cases, Option-cases,
}
use tbridge.Tui.PaneManager.{
  Rect, TerminalPane, PaneManager, new_pane_manager, relayout, on_resize, set_offset, truthy, is_id,
  focus_pane, create_pane, focus_first, drop_pane, remove_pane, at_index, focus_next, focus_prev,
  Event, creates, removes, focuses, next, prev, resizes, offsets, handle, handle_requests, top,
}
use tbridge.Tui.PaneManager.Focus.{
  mem, Distinct, FocusIn, Listed, Sound, is_empty, IsValid, focus_of-set_focused, relayout-IsValid,
  mem-append, Distinct-append, focus_of-cases, truthy-listed, is_id-eq, focus_pane-Sound,
}

is_empty-append : (ids : List String) (i : String) → is_empty (ids ++ i ∷ []) ≡ false
is_empty-append [] i = refl
is_empty-append (j ∷ ids) i = refl

FocusIn-append :
    (f : Option String) (ids : List String) (i : String) → FocusIn f ids → FocusIn f (ids ++ i ∷ [])
FocusIn-append none ids i h = tt
FocusIn-append (some j) ids i h = ground (arith, mem-append j i ids)

is_id-new :
    (f : Option String) (ids : List String) (id : String)
    → FocusIn f ids
    → mem id ids ≡ false
    → is_id f id ≡ false
is_id-new none ids id h new = refl
is_id-new (some i) ids id h new = elim (Bool-cases (i == id)) [
  | inl y ↦ absurd (ground (arith, ap (λ k. mem k ids) ((string_eq.same_iff i id).0 y)))
  | inr n ↦ n
]

is_id-same : (f : Option String) (i j : String) → (i == j) ≡ true → is_id f i ≡ is_id f j
is_id-same f i j h = ap (is_id f) ((string_eq.same_iff i j).0 h)

create_pane-IsValid :
    (m : PaneManager) (id : String) (session : Option String)
    → Sound m
    → mem id m.pane_order ≡ false
    → id ≢ ""
    → IsValid (create_pane m id session)
unfolding create_pane
create_pane-IsValid m id session (d, e, f, l) new ne =
    let rect : Rect = record { x = m.x; y = top; width = m.width; height = m.height } in
    let p : TerminalPane = record {
      session = session;
      rect = rect;
      focused = false;
      lines = 0;
      scroll_offset = 0;
    } in
    let order = m.pane_order ++ id ∷ [] in
    let m1 : PaneManager = record m { panes = set id p m.panes; pane_order = order } in
    let listed : Listed order m.focused_id (set id p m.panes) = λ j. ground (
      arith,
      l j,
      get-set id j p m.panes,
      mem-append j id m.pane_order,
      is_id-new m.focused_id m.pane_order id f new,
      is_id-same m.focused_id id j,
      string_eq.same_iff id j,
    ) in
    let sound : Sound m1 = (
      Distinct-append id m.pane_order new d,
      ground (arith, mem-append "" id m.pane_order, string_eq.same_iff id ""),
      FocusIn-append m.focused_id m.pane_order id f,
      listed,
    ) in
    let (s, focus, same) =
      focus_pane-Sound m1 id sound
        (ground (arith, mem-append id id m.pane_order, string_eq.same_iff id id)) in
    relayout-IsValid (focus_pane m1 id) (
      s,
      ap is_some focus
          ∙ sym (ap (λ ids. not (is_empty ids)) same ∙ ap not (is_empty-append m.pane_order id)),
    )

-- The order without one of its ids.
abbrev without : String → List String → List String
without id ids = keep (λ i. not (i == id)) ids

mem-without :
    (j id : String) (ids : List String)
    → mem j (without id ids) ≡ (if id == j then false else mem j ids)
mem-without j id [] = ground arith
mem-without j id (i ∷ ids) = ground (
  arith,
  mem-without j id ids,
  string_eq.same_iff i id,
  string_eq.same_iff i j,
  string_eq.same_iff id j,
)

Distinct-without : (id : String) (ids : List String) → Distinct ids → Distinct (without id ids)
Distinct-without id [] d = tt
Distinct-without id (i ∷ ids) d = ground (arith, mem-without i id ids, Distinct-without id ids d.1)

delete-Listed :
    (ids : List String) (f : Option String) (id : String) (ps : List (String × TerminalPane))
    → Listed ids f ps
    → Listed (without id ids) f (delete id ps)
delete-Listed ids f id ps l = λ j. ground (arith, l j, get-delete id j ps, mem-without j id ids)

-- The focus goes to the first that is left.
refocus :
    (ids : List String) (id : String) (ps : List (String × TerminalPane))
    → mem "" ids ≡ false
    → mem id ids ≡ false
    → Listed ids (some id) ps
    → FocusIn (get_elem? ids 0) ids
      × Listed ids (get_elem? ids 0) (focus_first ps (truthy (get_elem? ids 0)))
      × (is_some (get_elem? ids 0) ≡ not (is_empty ids))
refocus [] id ps e n l = (tt, l, refl)
refocus (i ∷ ids) id ps e n l =
    let first : mem i (i ∷ ids) ≡ true = ground (arith, string_eq.same_iff i i) in
    (
      first,
      rw (truthy-listed (i ∷ ids) i e first) (λ j. ground (
        arith,
        l j,
        focus_of-set_focused ps i true j,
        focus_of-cases (get j ps) (mem j (i ∷ ids)) (id == j) (l j),
        string_eq.same_iff i j,
        ap (λ k. mem k (i ∷ ids)) ((string_eq.same_iff id j).0 _),
      )),
      refl,
    )

FocusIn-without :
    (f : Option String) (id : String) (ids : List String)
    → FocusIn f ids
    → is_id f id ≡ false
    → FocusIn f (without id ids)
FocusIn-without none id ids h n = tt
FocusIn-without (some i) id ids h n =
    ground (arith, mem-without i id ids, string_eq.same_iff i id, string_eq.same_iff id i)

some_focus :
    (f : Option String) (ids : List String)
    → FocusIn f ids
    → is_some f ≡ true
    → is_empty ids ≡ false
some_focus none ids h s = absurd (ground arith)
some_focus (some i) [] h s = absurd (ground arith)
some_focus (some i) (j ∷ ids) h s = refl

is_empty-eq : (ids : List String) → is_empty ids ≡ true → ids ≡ []
is_empty-eq [] h = refl
is_empty-eq (i ∷ ids) h = absurd (ground arith)

drop_pane-IsValid :
    (m : PaneManager) (id : String)
    → IsValid m
    → mem id m.pane_order ≡ true
    → IsValid (drop_pane m id)
unfolding drop_pane
drop_pane-IsValid m id ((d, e, f, l), s) h =
    let order = without id m.pane_order in
    let d' = Distinct-without id m.pane_order d in
    let e' : mem "" order ≡ false = ground (arith, mem-without "" id m.pane_order) in
    let l' = delete-Listed m.pane_order m.focused_id id m.panes l in
    let m' : PaneManager = record m { panes = delete id m.panes; pane_order = order } in
    if_split (λ x. IsValid x) (is_id m.focused_id id)
      (λ y.
        let at : m.focused_id ≡ some id = is_id-eq m.focused_id id y in
        let (g, k, t) =
          refocus order id (delete id m.panes) e'
            (ground (arith, mem-without id id m.pane_order, string_eq.same_iff id id))
            (subst (λ o. Listed order o (delete id m.panes)) at l') in
        ((d', e', g, k), t))
      (λ n.
        let f' = FocusIn-without m.focused_id id m.pane_order f n in
        let full : is_some m.focused_id ≡ true = ground (arith, s, h) in
        ((d', e', f', l'), full ∙ sym (ap not (some_focus m.focused_id order f' full))))

remove_pane-IsValid : (m : PaneManager) (id : String) → IsValid m → IsValid (remove_pane m id)
unfolding remove_pane
remove_pane-IsValid m id v = elim (Option-cases (get id m.panes)) [
  | inl e ↦ let kept : remove_pane m id ≡ m = ground (arith, e) in subst⁻¹ (λ x. IsValid x) kept v
  | inr (p, e) ↦
      let gone : remove_pane m id ≡ relayout (drop_pane m id) = ground (arith, e) in
      subst⁻¹ (λ x. IsValid x) gone
        (relayout-IsValid (drop_pane m id) (drop_pane-IsValid m id v (ground (arith, v.0.3 id, e))))
]

pub mem-get_elem? :
    (ids : List String) (k : ℕ) (id : String) → get_elem? ids k ≡ some id → mem id ids ≡ true
mem-get_elem? [] k id h = absurd (ground arith)
mem-get_elem? (i ∷ ids) zero id h = ground (arith, string_eq.same_iff i id)
mem-get_elem? (i ∷ ids) (suc k) id h = ground (arith, mem-get_elem? ids k id h)

pub focus_pane-IsValid :
    (m : PaneManager) (id : String)
    → IsValid m
    → mem id m.pane_order ≡ true
    → IsValid (focus_pane m id)
focus_pane-IsValid m id (s, t) h =
    let (sound, focus, same) = focus_pane-Sound m id s h in
    (
      sound,
      ap is_some focus
          ∙ sym (ap not (some_focus (some id) m.pane_order h refl))
          ∙ sym (ap (λ ids. not (is_empty ids)) same),
    )

at_index-IsValid :
    (m : PaneManager) (k : ℕ) → IsValid m → IsValid (at_index m (get_elem? m.pane_order k))
at_index-IsValid m k v = elim (Option-cases (get_elem? m.pane_order k)) [
  | inl e ↦ rw e v
  | inr (id, e) ↦ rw e (focus_pane-IsValid m id v (mem-get_elem? m.pane_order k id e))
]

-- What may be asked: a new pane has a name of its own, which is not empty, and the pane to focus is
-- there.
abbrev pub Allowed : PaneManager → Event → Type 0
Allowed m (creates id session) = (mem id m.pane_order ≡ false) × (id ≢ "")
Allowed m (focuses id) = mem id m.pane_order ≡ true
Allowed m e = Unit

pub handle-IsValid : (m : PaneManager) (e : Event) → Allowed m e → IsValid m → IsValid (handle m e)
unfolding handle focus_next focus_prev on_resize set_offset
handle-IsValid m (creates id session) (a, b) v = create_pane-IsValid m id session v.0 a b
handle-IsValid m (removes id) a v = remove_pane-IsValid m id v
handle-IsValid m (focuses id) a v = focus_pane-IsValid m id v a
handle-IsValid m next a v =
    if_both (λ x. IsValid x) (leb (length m.pane_order) 1) v (at_index-IsValid m _ v)
handle-IsValid m prev a v =
    if_both (λ x. IsValid x) (leb (length m.pane_order) 1) v (at_index-IsValid m _ v)
handle-IsValid m (resizes columns rows) a v =
    relayout-IsValid
      (record m { columns = columns; rows = rows; width = columns; height = rows - 3 }) v
handle-IsValid m (offsets x) a v =
    relayout-IsValid (record m { x = x; width = m.columns + 1 - x }) v

abbrev pub AllAllowed : PaneManager → List Event → Type 0
AllAllowed m [] = Unit
AllAllowed m (e ∷ es) = Allowed m e × AllAllowed (handle m e) es

-- Through any requests, where a new pane has a name of its own that is not empty and only panes
-- that are there are focused by name, a valid manager stays valid: the order has each pane once,
-- one pane has the focus where there is any, and it is the pane of the focused id.
pub handle_requests-IsValid :
    (m : PaneManager) (es : List Event)
    → AllAllowed m es
    → IsValid m
    → IsValid (handle_requests m es)
unfolding handle_requests
handle_requests-IsValid m [] a v = v
handle_requests-IsValid m (e ∷ es) (a, b) v =
    handle_requests-IsValid (handle m e) es b (handle-IsValid m e a v)

pub new_pane_manager-IsValid : (columns rows : ℕ) → IsValid (new_pane_manager columns rows)
unfolding new_pane_manager get
new_pane_manager-IsValid columns rows = ((tt, refl, tt, λ id. refl), refl)
