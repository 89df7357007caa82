-- ===== src/Tui/CommandPalette.antt =====
-- packages/tui/src/components/command-palette.ts: the searchable list of actions.
--
-- Texts are their UTF-16 units. `toLowerCase`, what an action runs (`H`) and the callback of a
-- close (`C`) are parameters. What is drawn is left out.
pub mod Scoring
pub mod Filtering
pub mod Selection
pub mod Running
mod Tests
use tbridge.Base.{
  ℕ, zero, suc, ◌+◌, ◌-◌, String, Bool, true, false, ◌&&◌, ◌||◌, not, Option, none, some, List, [],
  ◌∷◌, ◌++◌, length, take, drop, keep, map, leb, ltb, if◌then◌else◌, ◌==◌, string_eq, nat_eq,
  get_elem?,
}
use tbridge.Base.Integers.{ℤ, pos, negsuc, ◌+ℤ◌, ◌-ℤ◌, min_ℤ, max_ℤ}
use tbridge.Tui.Keys.{KeyEvent, units}

pub record PaletteAction (H : Type 0) : Type 0 where
  pub id : String
  pub label : List ℕ
  pub description : Option (List ℕ)
  pub shortcut : Option String
  pub category : Option (List ℕ)
  pub handler : H

pub record CommandPalette (H : Type 0) (C : Type 0) : Type 0 where
  pub visible : Bool
  pub query : List ℕ
  pub cursor_pos : ℕ
  pub selected_index : ℤ
  pub actions : List (PaletteAction H)
  pub filtered : List (PaletteAction H)
  pub on_close : Option C

-- What a key makes the palette call: the callback of a close, the handler of an action.
pub data Call (H : Type 0) (C : Type 0) : Type 0 where
  closes : C → Call H C
  runs : H → Call H C

-- The cases of the `switch` over a key's name.
pub data PaletteKey : Type 0 where
  key_escape : PaletteKey
  key_return : PaletteKey
  key_up : PaletteKey
  key_down : PaletteKey
  key_backspace : PaletteKey
  key_left : PaletteKey
  key_right : PaletteKey
  key_start : PaletteKey
  key_end : PaletteKey
  key_clear : PaletteKey
  key_default : PaletteKey

unfoldable pub palette_key : String → PaletteKey
palette_key name =
    if name == "escape"
    then key_escape
    else if name == "return"
    then key_return
    else if name == "up"
    then key_up
    else if name == "ctrl-p"
    then key_up
    else if name == "down"
    then key_down
    else if name == "ctrl-n"
    then key_down
    else if name == "backspace"
    then key_backspace
    else if name == "left"
    then key_left
    else if name == "right"
    then key_right
    else if name == "ctrl-a"
    then key_start
    else if name == "ctrl-e"
    then key_end
    else if name == "ctrl-u"
    then key_clear
    else key_default

-- `startsWith` and `includes`.
abbrev pub is_prefix : List ℕ → List ℕ → Bool
is_prefix [] us = true
is_prefix (q ∷ qs) [] = false
is_prefix (q ∷ qs) (u ∷ us) = (q == u) && is_prefix qs us

unfoldable pub includes : List ℕ → List ℕ → Bool
includes [] qs = is_prefix qs []
includes (u ∷ us) qs = is_prefix qs (u ∷ us) || includes us qs

-- `label[i - 1] === query[qi - 1]`, where `i > 0`; `none` is what lies before the first character.
abbrev pub follows : Option ℕ → Option ℕ → Bool
follows none q = false
follows (some u) none = false
follows (some u) (some q) = u == q

-- `i === 0`, or a space or a colon before it.
abbrev pub begins_word : Option ℕ → Bool
begins_word none = true
begins_word (some u) = (u == 32) || (u == 58)

-- The points of a character that matches, from what lies before it in the label and in the query.
abbrev pub points : Option ℕ → Option ℕ → ℕ
points u q = 10 + (if follows u q then 5 else 0) + (if begins_word u then 3 else 0)

-- The loop: what is left of the label and of the query, and the score so far.
unfoldable pub fuzzy : Option ℕ → List ℕ → Option ℕ → List ℕ → ℕ → ℕ
fuzzy u [] p [] score = score
fuzzy u [] p (q ∷ qs) score = 0
fuzzy u (l ∷ ls) p [] score = score
fuzzy u (l ∷ ls) p (q ∷ qs) score =
    let hit = l == q in
    fuzzy (some l) ls (if hit then some q else p) (if hit then qs else q ∷ qs)
      (if hit then score + points u p else score)

abbrev pub or_empty : Option (List ℕ) → List ℕ
or_empty none = []
or_empty (some us) = us

-- `sort` by decreasing score, which keeps the order of equal ones.
unfoldable pub insert_by {ℓ} : {A : Type ℓ} → (A → ℕ) → A → List A → List A
insert_by score x [] = x ∷ []
insert_by score x (y ∷ ys) =
    if ltb (score x) (score y) then y ∷ insert_by score x ys else x ∷ y ∷ ys

unfoldable pub sort_by {ℓ} : {A : Type ℓ} → (A → ℕ) → List A → List A
unfolding insert_by
sort_by score [] = []
sort_by score (x ∷ xs) = insert_by score x (sort_by score xs)

-- `key.ch && key.ch.length === 1 && key.ch >= " " && !key.ctrl && !key.meta`, with its one unit.
unfoldable pub typed : KeyEvent → Option ℕ
typed key = elim (units key.ch) [
  | [] ↦ none
  | u ∷ us ↦ elim us [
    | [] ↦ if leb 32 u && not key.ctrl && not key.meta then some u else none
    | v ∷ vs ↦ none
  ]
]

-- `_filtered[_selectedIndex]`: `undefined` at -1.
abbrev pub at : {H : Type 0} → List (PaletteAction H) → ℤ → Option (PaletteAction H)
at actions (pos n) = get_elem? actions n
at actions (negsuc n) = none

module _ {H : Type 0} (to_lower_case : List ℕ → List ℕ) where
  unfoldable pub fuzzy_score : PaletteAction H → List ℕ → ℕ
  unfolding includes fuzzy
  fuzzy_score action query =
      let label = to_lower_case action.label in
      if includes label query
      then 100
      else if includes (to_lower_case (or_empty action.description)) query
      then 50
      else if includes (to_lower_case (or_empty action.category)) query
      then 30
      else fuzzy none label none query 0

  -- The actions that a query leaves, in the order they are shown.
  unfoldable pub results : List (PaletteAction H) → List ℕ → List (PaletteAction H)
  unfolding fuzzy_score sort_by
  results actions [] = actions
  results actions (c ∷ cs) =
      let q = to_lower_case (c ∷ cs) in
      sort_by (λ a. fuzzy_score a q) (keep (λ a. ltb 0 (fuzzy_score a q)) actions)

module _ {H C : Type 0} where
  unfoldable pub new_palette : CommandPalette H C
  new_palette = record {
    visible = false;
    query = [];
    cursor_pos = 0;
    selected_index = pos 0;
    actions = [];
    filtered = [];
    on_close = none;
  }

  unfoldable pub register_actions : CommandPalette H C → List (PaletteAction H) → CommandPalette H C
  register_actions p actions = record p { actions = actions }

  unfoldable pub add_action : CommandPalette H C → PaletteAction H → CommandPalette H C
  add_action p action = record p { actions = p.actions ++ action ∷ [] }

  abbrev pub close_calls : Option C → List (Call H C)
  close_calls none = []
  close_calls (some c) = closes c ∷ []

  unfoldable pub close_palette : CommandPalette H C → CommandPalette H C × List (Call H C)
  close_palette p =
      (record p { visible = false; query = []; on_close = none }, close_calls p.on_close)

  -- `if (action)`.
  abbrev pub run_action :
      CommandPalette H C → Option (PaletteAction H) → CommandPalette H C × List (Call H C)
  run_action p none = (p, [])
  run_action p (some action) =
      let (p', calls) = close_palette p in (p', calls ++ runs action.handler ∷ [])

  unfoldable pub execute : CommandPalette H C → CommandPalette H C × List (Call H C)
  unfolding close_palette
  execute p = run_action p (at p.filtered p.selected_index)

  abbrev pub insert_text : CommandPalette H C → ℕ → CommandPalette H C
  insert_text p u = record p {
    query = take p.cursor_pos p.query ++ u ∷ drop p.cursor_pos p.query;
    cursor_pos = suc p.cursor_pos;
  }

  abbrev pub erase_text : CommandPalette H C → CommandPalette H C
  erase_text p = record p {
    query = take (p.cursor_pos - 1) p.query ++ drop p.cursor_pos p.query;
    cursor_pos = p.cursor_pos - 1;
  }

module _ {H C : Type 0} (to_lower_case : List ℕ → List ℕ) where
  unfoldable pub filter : CommandPalette H C → CommandPalette H C
  unfolding results
  filter p =
      let filtered = results to_lower_case p.actions p.query in
      record p {
        filtered = filtered;
        selected_index = min_ℤ p.selected_index (max_ℤ (pos 0) (pos (length filtered) -ℤ pos 1));
      }

  unfoldable pub open_palette : CommandPalette H C → Option C → CommandPalette H C
  unfolding filter
  open_palette p on_close = filter (record p {
    visible = true;
    query = [];
    cursor_pos = 0;
    selected_index = pos 0;
    on_close = on_close;
  })

  abbrev pub insert_typed : CommandPalette H C → Option ℕ → CommandPalette H C
  insert_typed p none = p
  insert_typed p (some u) = filter (insert_text p u)

  -- The keys that move the selection or edit the query.
  unfoldable pub edit_key : CommandPalette H C → PaletteKey → KeyEvent → CommandPalette H C
  unfolding filter typed
  edit_key p key_up key = record p { selected_index = max_ℤ (pos 0) (p.selected_index -ℤ pos 1) }
  edit_key p key_down key = record p {
    selected_index = min_ℤ (pos (length p.filtered) -ℤ pos 1) (p.selected_index +ℤ pos 1);
  }
  edit_key p key_backspace key = if ltb 0 p.cursor_pos then filter (erase_text p) else p
  edit_key p key_left key =
      if ltb 0 p.cursor_pos then record p { cursor_pos = p.cursor_pos - 1 } else p
  edit_key p key_right key =
      if ltb p.cursor_pos (length p.query) then record p { cursor_pos = suc p.cursor_pos } else p
  edit_key p key_start key = record p { cursor_pos = 0 }
  edit_key p key_end key = record p { cursor_pos = length p.query }
  edit_key p key_clear key = filter (record p { query = []; cursor_pos = 0 })
  edit_key p _ key = insert_typed p (typed key)

  unfoldable pub switch_key :
      CommandPalette H C → PaletteKey → KeyEvent → CommandPalette H C × List (Call H C)
  unfolding edit_key execute close_palette
  switch_key p key_escape key = close_palette p
  switch_key p key_return key = execute p
  switch_key p name key = (edit_key p name key, [])

  -- Whether the key is taken, the palette after it, and its calls.
  unfoldable pub handle_key :
      CommandPalette H C → KeyEvent → Bool × CommandPalette H C × List (Call H C)
  unfolding switch_key palette_key
  handle_key p key =
      let (p', calls) = switch_key p (palette_key key.name) key in
      if p.visible then (true, p', calls) else (false, p, [])
