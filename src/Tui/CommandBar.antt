-- ===== src/Tui/CommandBar.antt =====
-- packages/tui/src/components/command-bar.ts: the line in which a command is typed.
--
-- Texts are their UTF-16 units. What a submitted line does (`S`) is a parameter, and the callback
-- of a cancelled line, which the application leaves empty, is not kept. What is drawn is left out.
pub mod Editing
use tbridge.Base.{
  ℕ, zero, suc, ◌+◌, ◌-◌, String, Bool, true, false, ◌&&◌, ◌||◌, Option, none, some, List, [], ◌∷◌,
  ◌++◌, length, take, drop, leb, ltb, if◌then◌else◌, ◌==◌, string_eq, nat_eq,
}
use tbridge.Tui.Keys.{KeyEvent, units}

pub data Mode : Type 0 where
  hints : Mode
  input : Mode

pub record CommandBar (S : Type 0) : Type 0 where
  pub mode : Mode
  pub input_buffer : List ℕ
  pub cursor_pos : ℕ
  pub on_submit : Option S

-- The white space of ECMAScript, which `trim` and `\s` share.
unfoldable pub is_space : ℕ → Bool
is_space u =
    (leb 9 u && leb u 13)
    || (u == 32)
    || (u == 160)
    || (u == 5760)
    || (leb 8192 u && leb u 8202)
    || (u == 8232)
    || (u == 8233)
    || (u == 8239)
    || (u == 8287)
    || (u == 12288)
    || (u == 65279)

unfoldable pub trim_start : List ℕ → List ℕ
unfolding is_space
trim_start [] = []
trim_start (u ∷ us) = let rest = trim_start us in if is_space u then rest else u ∷ us

unfoldable pub trim_end : List ℕ → List ℕ
unfolding is_space
trim_end [] = []
trim_end (u ∷ us) = elim (trim_end us) [
  | [] ↦ if is_space u then [] else u ∷ []
  | v ∷ vs ↦ u ∷ v ∷ vs
]

unfoldable pub trim : List ℕ → List ℕ
unfolding trim_start trim_end
trim us = trim_end (trim_start us)

-- The cases of the `switch` over a key's name.
pub data BarKey : Type 0 where
  bar_return : BarKey
  bar_cancel : BarKey
  bar_backspace : BarKey
  bar_left : BarKey
  bar_right : BarKey
  bar_default : BarKey

unfoldable pub bar_key : String → BarKey
bar_key name =
    if name == "return"
    then bar_return
    else if name == "escape"
    then bar_cancel
    else if name == "ctrl-c"
    then bar_cancel
    else if name == "backspace"
    then bar_backspace
    else if name == "left"
    then bar_left
    else if name == "right"
    then bar_right
    else bar_default

-- `ch && ch.length === 1 && ch >= " "`, with its one unit.
unfoldable pub typed : String → Option ℕ
typed ch = elim (units ch) [
  | [] ↦ none
  | u ∷ us ↦ elim us [ [] ↦ (if leb 32 u then some u else none) | v ∷ vs ↦ none ]
]

abbrev pub is_input : Mode → Bool
is_input hints = false
is_input input = true

module _ {S : Type 0} where
  unfoldable pub new_bar : CommandBar S
  new_bar = record { mode = hints; input_buffer = []; cursor_pos = 0; on_submit = none }

  unfoldable pub enter_input : S → CommandBar S
  enter_input s = record { mode = input; input_buffer = []; cursor_pos = 0; on_submit = some s }

  unfoldable pub exit_input : CommandBar S
  exit_input = record { mode = hints; input_buffer = []; cursor_pos = 0; on_submit = none }

  abbrev pub insert_text : CommandBar S → ℕ → CommandBar S
  insert_text b u = record b {
    input_buffer = take b.cursor_pos b.input_buffer ++ u ∷ drop b.cursor_pos b.input_buffer;
    cursor_pos = suc b.cursor_pos;
  }

  abbrev pub erase_text : CommandBar S → CommandBar S
  erase_text b = record b {
    input_buffer = take (b.cursor_pos - 1) b.input_buffer ++ drop b.cursor_pos b.input_buffer;
    cursor_pos = b.cursor_pos - 1;
  }

  -- `if (this._onSubmit && this._inputBuffer.trim())`: the callback, with what it is given.
  abbrev pub submission : Option S → List ℕ → Option (S × List ℕ)
  submission none us = none
  submission (some s) [] = none
  submission (some s) (u ∷ us) = some (s, u ∷ us)

  abbrev pub insert_typed : CommandBar S → Option ℕ → Bool × CommandBar S
  insert_typed b none = (false, b)
  insert_typed b (some u) = (true, insert_text b u)

  unfoldable pub switch_key :
      CommandBar S → BarKey → String → Bool × CommandBar S × Option (S × List ℕ)
  unfolding exit_input typed trim
  switch_key b bar_return ch = (true, exit_input, submission b.on_submit (trim b.input_buffer))
  switch_key b bar_cancel ch = (true, exit_input, none)
  switch_key b bar_backspace ch = (true, (if ltb 0 b.cursor_pos then erase_text b else b), none)
  switch_key b bar_left ch =
      (true, (if ltb 0 b.cursor_pos then record b { cursor_pos = b.cursor_pos - 1 } else b), none)
  switch_key b bar_right ch = (
    true,
    if ltb b.cursor_pos (length b.input_buffer)
        then record b { cursor_pos = suc b.cursor_pos }
        else b,
    none,
  )
  switch_key b bar_default ch = let (handled, b') = insert_typed b (typed ch) in (handled, b', none)

  -- Whether the key is taken, the bar after it, and the callback that it calls before.
  unfoldable pub handle_key :
      CommandBar S → String → String → Bool × CommandBar S × Option (S × List ℕ)
  unfolding switch_key bar_key
  handle_key b name ch =
      if is_input b.mode then switch_key b (bar_key name) ch else (false, b, none)
