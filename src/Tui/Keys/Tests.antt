-- ===== src/Tui/Keys/Tests.antt =====
-- packages/tui/src/screen.ts: chunks of input that are ASCII.
use tbridge.Base.{ℕ, ◌≡◌, refl, true, false, none, some, List, [], ◌∷◌}
use tbridge.Tui.Keys.{special, parse_key, parse_rest, control_byte}
use tbridge.Tui.Keys.Ascii.{char_of, ascii, object_names}

abbrev to_string : List ℕ
to_string = 116 ∷ 111 ∷ 83 ∷ 116 ∷ 114 ∷ 105 ∷ 110 ∷ 103 ∷ []

ctrl_b :
    parse_key ascii char_of object_names (2 ∷ [])
    ≡ some (record {
      raw = 2 ∷ [];
      name = "ctrl-b";
      ctrl = true;
      shift = false;
      meta = false;
      ch = "b";
    })
unfolding parse_key special parse_rest control_byte
ctrl_b = refl

pasted_name : parse_key ascii char_of object_names to_string ≡ none
unfolding parse_key special parse_rest control_byte
pasted_name = refl
