-- ===== src/Tui/PaneManager/Focus.antt =====
-- packages/tui/src/components/pane-manager.ts: which panes there are, and which has the focus.
use tbridge.Base.{
  ◌++◌, ◌≡◌, refl, ap, subst⁻¹, ◌∙◌, inl, inr, String, Bool, true, false, ◌||◌, not, Option, none,
  some, List, [], ◌∷◌, if◌then◌else◌, get, ◌==◌, nat_eq, string_eq, arith, is_some, Bool-cases,
}
use tbridge.Tui.PaneManager.{
  Rect, TerminalPane, PaneManager, set_focused, resize_pane, place, relayout, truthy, unfocus,
  is_id, focus_pane,
}

abbrev pub mem : String → List String → Bool
mem id [] = false
mem id (i ∷ ids) = if i == id then true else mem id ids

abbrev pub Distinct : List String → Type 0
Distinct [] = Unit
Distinct (i ∷ ids) = (mem i ids ≡ false) × Distinct ids

-- Whether the pane has the focus, if there is one.
abbrev pub focus_of : Option TerminalPane → Option Bool
focus_of none = none
focus_of (some p) = some p.focused

abbrev pub FocusIn : Option String → List String → Type 0
FocusIn none ids = Unit
FocusIn (some id) ids = mem id ids ≡ true

abbrev pub Listed : List String → Option String → List (String × TerminalPane) → Type 0
Listed ids f ps =
    (id : String) → focus_of (get id ps) ≡ (if mem id ids then some (is_id f id) else none)

-- The order has each pane once and no others, none is called by the empty string, and the pane of
-- the focused id has the focus, and no other.
abbrev pub Sound : PaneManager → Type 0
Sound m =
    Distinct m.pane_order
    × (mem "" m.pane_order ≡ false)
    × FocusIn m.focused_id m.pane_order
    × Listed m.pane_order m.focused_id m.panes

abbrev pub is_empty : List String → Bool
is_empty [] = true
is_empty (i ∷ ids) = false

-- And some pane has the focus, where there is one.
abbrev pub IsValid : PaneManager → Type 0
IsValid m = Sound m × (is_some m.focused_id ≡ not (is_empty m.pane_order))

pub focus_of-set_focused :
    (ps : List (String × TerminalPane)) (id : String) (v : Bool) (j : String)
    → focus_of (get j (set_focused ps id v))
      ≡ (if id == j then (if is_some (get j ps) then some v else none) else focus_of (get j ps))
unfolding set_focused get
focus_of-set_focused [] id v j = ground arith
focus_of-set_focused ((i, p) ∷ ps) id v j = ground (
  arith,
  focus_of-set_focused ps id v j,
  string_eq.same_iff i id,
  string_eq.same_iff i j,
  string_eq.same_iff id j,
)

focus_of-resize_pane :
    (ps : List (String × TerminalPane)) (id : String) (r : Rect) (j : String)
    → focus_of (get j (resize_pane ps id r)) ≡ focus_of (get j ps)
unfolding resize_pane get
focus_of-resize_pane [] id r j = refl
focus_of-resize_pane ((i, p) ∷ ps) id r j = ground (arith, focus_of-resize_pane ps id r j)

focus_of-place :
    (ps : List (String × TerminalPane)) (ids : List String) (rs : List Rect) (j : String)
    → focus_of (get j (place ps ids rs)) ≡ focus_of (get j ps)
unfolding place
focus_of-place ps [] rs j = refl
focus_of-place ps (id ∷ ids) [] j = refl
focus_of-place ps (id ∷ ids) (r ∷ rs) j =
    focus_of-place (resize_pane ps id r) ids rs j ∙ focus_of-resize_pane ps id r j

relayout-Sound : (m : PaneManager) → Sound m → Sound (relayout m)
unfolding relayout
relayout-Sound m (d, e, f, l) = (d, e, f, λ id. focus_of-place m.panes m.pane_order _ id ∙ l id)

pub relayout-IsValid : (m : PaneManager) → IsValid m → IsValid (relayout m)
unfolding relayout
relayout-IsValid m (s, h) = (relayout-Sound m s, h)

pub mem-append :
    (id i : String) (ids : List String) → mem id (ids ++ i ∷ []) ≡ (mem id ids || (i == id))
mem-append id i [] = ground arith
mem-append id i (j ∷ ids) = ground (arith, mem-append id i ids)

pub Distinct-append :
    (i : String) (ids : List String) → mem i ids ≡ false → Distinct ids → Distinct (ids ++ i ∷ [])
Distinct-append i [] h d = (refl, tt)
Distinct-append i (j ∷ ids) h d = ground (
  arith,
  mem-append j i ids,
  Distinct-append i ids,
  string_eq.same_iff i j,
  string_eq.same_iff j i,
)

pub focus_of-cases :
    (o : Option TerminalPane) (b v : Bool)
    → focus_of o ≡ (if b then some v else none)
    → is_some o ≡ b
focus_of-cases o b v h = ground arith

pub truthy-listed :
    (ids : List String) (i : String)
    → mem "" ids ≡ false
    → mem i ids ≡ true
    → truthy (some i) ≡ some i
truthy-listed ids i e h = elim (Bool-cases (i == "")) [
  | inl y ↦ absurd (ground (arith, ap (λ k. mem k ids) ((string_eq.same_iff i "").0 y)))
  | inr n ↦ ground (arith, n)
]

-- The panes where the focus goes from one id to another.
focused-Listed :
    (ids : List String) (f : Option String) (id : String) (ps : List (String × TerminalPane))
    → mem "" ids ≡ false
    → FocusIn f ids
    → Listed ids f ps
    → mem id ids ≡ true
    → Listed ids (some id) (set_focused (unfocus ps (truthy f)) id true)
focused-Listed ids none id ps e f l h = λ j. ground (
  arith,
  l j,
  focus_of-set_focused ps id true j,
  focus_of-cases (get j ps) (mem j ids) false (l j),
  string_eq.same_iff id j,
)
focused-Listed ids (some i) id ps e f l h = rw (truthy-listed ids i e f) (λ j. ground (
  arith,
  l j,
  focus_of-set_focused (set_focused ps i false) id true j,
  focus_of-set_focused ps i false j,
  focus_of-cases (get j ps) (mem j ids) (i == j) (l j),
  focus_of-cases (get j (set_focused ps i false)) (mem j ids) (if i == j then false else false),
  string_eq.same_iff i j,
  string_eq.same_iff id j,
))

pub is_id-eq : (o : Option String) (id : String) → is_id o id ≡ true → o ≡ some id
is_id-eq none id h = ground arith
is_id-eq (some i) id h = ap some ((string_eq.same_iff i id).0 h)

pub focus_pane-Sound :
    (m : PaneManager) (id : String)
    → Sound m
    → mem id m.pane_order ≡ true
    → Sound (focus_pane m id)
      × ((focus_pane m id).focused_id ≡ some id)
      × ((focus_pane m id).pane_order ≡ m.pane_order)
unfolding focus_pane
focus_pane-Sound m id (d, e, f, l) h = elim (Bool-cases (is_id m.focused_id id)) [
  | inl y ↦
      let same : focus_pane m id ≡ m = ground (arith, y) in
      subst⁻¹ (λ x. Sound x × (x.focused_id ≡ some id) × (x.pane_order ≡ m.pane_order)) same
        ((d, e, f, l), is_id-eq m.focused_id id y, refl)
  | inr n ↦
      let moved : focus_pane m id ≡ record m {
        focused_id = some id;
        panes = set_focused (unfocus m.panes (truthy m.focused_id)) id true;
      } =
        ground (arith, n) in
      subst⁻¹ (λ x. Sound x × (x.focused_id ≡ some id) × (x.pane_order ≡ m.pane_order)) moved
        ((d, e, h, focused-Listed m.pane_order m.focused_id id m.panes e f l h), refl, refl)
]
