-- ===== src/Tui/CommandPalette/Tests.antt =====
-- packages/tui/src/components/command-palette.ts: three actions, which are numbered.
use tbridge.Base.{
  ℕ, ◌+◌, ◌<◌, ◌≡◌, ◌↔◌, refl, String, false, none, some, List, [], ◌∷◌, map, All, length, ◌==◌,
  nat_eq, if◌then◌else◌, leb, ◌&&◌, arith,
}
use tbridge.Base.Integers.{negsuc}
use tbridge.Tui.Keys.{KeyEvent, units, special, parse_key, parse_rest, control_byte, alt_byte}
use tbridge.Tui.Keys.Ascii.{char_of, ascii, object_names}
use tbridge.Tui.CommandPalette.{
  PaletteAction, CommandPalette, fuzzy_score, results, new_palette, register_actions, open_palette,
  handle_key,
}
use tbridge.Tui.CommandPalette.Scoring.{Found, fuzzy_score-finds}
use tbridge.Tui.CommandPalette.Filtering.{Falling, scoring, score_of, results-exact}
use tbridge.Tui.CommandPalette.Selection.{Use, opens, presses, IsValid, use_all, use_all-IsValid}
use tbridge.Tui.CommandPalette.Running.{RunsOffered, runs_offered}

abbrev lower : List ℕ → List ℕ
lower [] = []
lower (u ∷ us) = (if leb 65 u && leb u 90 then u + 32 else u) ∷ lower us

abbrev action : String → String → ℕ → PaletteAction ℕ
action id label n = record {
  id = id;
  label = units label;
  description = none;
  shortcut = none;
  category = some (units "Session");
  handler = n;
}

abbrev actions : List (PaletteAction ℕ)
actions =
    action "new-pane" "New Terminal Pane" 0
    ∷ action "next-pane" "Focus Next Pane" 1
    ∷ action "quit" "Quit TBridge" 2
    ∷ []

abbrev key : String → String → KeyEvent
key name ch = record { raw = []; name = name; ctrl = false; shift = false; meta = false; ch = ch }

abbrev start : CommandPalette ℕ ℕ
start = register_actions new_palette actions

abbrev typing : List (Use ℕ)
typing = opens (some 7) ∷ presses (110 ∷ []) ∷ presses (120 ∷ []) ∷ presses (32 ∷ []) ∷ []

abbrev used : List (Use ℕ) → CommandPalette ℕ ℕ
used = use_all ascii char_of object_names lower start

abbrev typed_nx : CommandPalette ℕ ℕ
typed_nx = used typing

-- "n" and "t" stand in the labels of the first two.
nt_found :
    map (λ (a : PaletteAction ℕ). a.handler) (results lower actions (units "nt")) ≡ 0 ∷ 1 ∷ []
unfolding results
nt_found = refl

-- An exact match scores 100, and one that is not exact can score more.
fuzzy_above_exact :
    fuzzy_score lower (action "a" "newtermin" 0) (units "newtermin")
    < fuzzy_score lower (action "b" "New Terminal Pane" 1) (units "newtermin")
unfolding fuzzy_score
fuzzy_above_exact = omega arith

start-IsValid : IsValid lower start
unfolding register_actions new_palette
start-IsValid = (tt, omega arith, λ e. absurd (ground arith))

-- Down, while no action is left, selects none, and none is selected when there are actions again.
unselected : CommandPalette ℕ ℕ
unselected = used (
    opens none
    ∷ presses (120 ∷ [])
    ∷ presses (113 ∷ [])
    ∷ presses (122 ∷ [])
    ∷ presses (27 ∷ 91 ∷ 66 ∷ [])
    ∷ presses (21 ∷ [])
    ∷ [])

down_unselects : (length unselected.filtered ≡ 3) × (unselected.selected_index ≡ negsuc 0)
unfolding unselected use_all register_actions new_palette open_palette handle_key parse_key special
    parse_rest control_byte alt_byte
down_unselects = (refl, refl)

fuzzy_score-finds_example :
    (0 < fuzzy_score lower (action "quit" "Quit TBridge" 2) (113 ∷ 116 ∷ []))
    ↔ Found lower (action "quit" "Quit TBridge" 2) 113 (116 ∷ [])
fuzzy_score-finds_example = fuzzy_score-finds lower (action "quit" "Quit TBridge" 2) 113 (116 ∷ [])

results-exact_example :
    Falling (score_of lower actions 110 (116 ∷ [])) (results lower actions (110 ∷ 116 ∷ []))
    × ((v : ℕ)
        → scoring (score_of lower actions 110 (116 ∷ [])) v (results lower actions (110 ∷ 116 ∷ []))
          ≡ (if v == 0 then [] else scoring (score_of lower actions 110 (116 ∷ [])) v actions))
results-exact_example = results-exact lower actions 110 (116 ∷ [])

use_all-IsValid_example : IsValid lower (used typing)
use_all-IsValid_example =
    use_all-IsValid ascii char_of object_names lower start typing start-IsValid

runs_offered_example :
    All (RunsOffered lower (used typing)) ((handle_key lower (used typing) (key "return" "")).2)
runs_offered_example =
    runs_offered lower (used typing) (key "return" "")
      (use_all-IsValid ascii char_of object_names lower start typing start-IsValid)
