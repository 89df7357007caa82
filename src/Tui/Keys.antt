-- ===== src/Tui/Keys.antt =====
-- packages/tui/src/screen.ts: the keys that a chunk of input stands for.
--
-- A chunk is its bytes. The decoding of UTF-8, `String.fromCharCode`, and the property names that
-- every object inherits are parameters.
pub mod Parsing
pub mod Ascii
mod Tests
use text.Mathlib.Text.{starts_with}
use Prim.Native.Char.{code}
use Prim.Native.String.{◌++◌ as append}
use tbridge.Base.{
  ℕ, ◌+◌, ◌-◌, ◌/◌, ◌%◌, String, Bool, true, false, ◌&&◌, Option, none, some, List, [], ◌∷◌, leb,
  if◌then◌else◌, ◌==◌, string_eq, nat_eq,
}

pub record KeyEvent : Type 0 where
  pub raw : List ℕ
  pub name : String
  pub ctrl : Bool
  pub shift : Bool
  pub meta : Bool
  pub ch : String

-- A character as UTF-16 has it: one unit, or a surrogate pair.
abbrev pub units_of : ℕ → List ℕ → List ℕ
units_of n us =
    if leb 65536 n then (55296 + (n - 65536) / 1024) ∷ (56320 + (n - 65536) % 1024) ∷ us else n ∷ us

abbrev pub units : String → List ℕ
units String.[] = []
units (String.◌∷◌ c s) = units_of (code c) (units s)

abbrev pub special_keys : List (String × String)
special_keys =
    ("\u{1b}[A", "up")
    ∷ ("\u{1b}[B", "down")
    ∷ ("\u{1b}[C", "right")
    ∷ ("\u{1b}[D", "left")
    ∷ ("\u{1b}[H", "home")
    ∷ ("\u{1b}[F", "end")
    ∷ ("\u{1b}[3~", "delete")
    ∷ ("\u{1b}[5~", "pageup")
    ∷ ("\u{1b}[6~", "pagedown")
    ∷ ("\u{1b}[Z", "shift-tab")
    ∷ ("\u{1b}[1;5A", "ctrl-up")
    ∷ ("\u{1b}[1;5B", "ctrl-down")
    ∷ ("\u{1b}[1;5C", "ctrl-right")
    ∷ ("\u{1b}[1;5D", "ctrl-left")
    ∷ ("\u{1b}[1;2A", "shift-up")
    ∷ ("\u{1b}[1;2B", "shift-down")
    ∷ ("\u{1b}[1;2C", "shift-right")
    ∷ ("\u{1b}[1;2D", "shift-left")
    ∷ ("\u{1b}OP", "f1")
    ∷ ("\u{1b}OQ", "f2")
    ∷ ("\u{1b}OR", "f3")
    ∷ ("\u{1b}OS", "f4")
    ∷ ("\u{1b}[15~", "f5")
    ∷ ("\u{1b}[17~", "f6")
    ∷ ("\u{1b}[18~", "f7")
    ∷ ("\u{1b}[19~", "f8")
    ∷ ("\u{1b}[20~", "f9")
    ∷ ("\u{1b}[21~", "f10")
    ∷ ("\u{1b}[23~", "f11")
    ∷ ("\u{1b}[24~", "f12")
    ∷ ("\r", "return")
    ∷ ("\n", "return")
    ∷ ("\t", "tab")
    ∷ ("\u{7f}", "backspace")
    ∷ ("\u{1b}", "escape")
    ∷ (" ", "space")
    ∷ []

-- An object as a table: what it does not name, `undefined`, is `none`.
abbrev pub look_up : String → List (String × String) → Option String
look_up s [] = none
look_up s ((k, name) ∷ ks) = if k == s then some name else look_up s ks

-- `SPECIAL_KEYS[str]`, of the properties that the table itself has.
unfoldable pub special : String → Option String
special s = look_up s special_keys

-- `data.length === 1 && data[0] >= 1 && data[0] <= 26`, with the byte.
unfoldable pub control_byte : List ℕ → Option ℕ
control_byte (b ∷ []) = if leb 1 b && leb b 26 then some b else none
control_byte bs = none

-- `data.length === 2 && data[0] === 0x1b`, with the second byte.
unfoldable pub alt_byte : List ℕ → Option ℕ
alt_byte (a ∷ b ∷ []) = if a == 27 then some b else none
alt_byte bs = none

module _ (decode : List ℕ → String) (from_char_code : ℕ → String) (inherited : String → Bool) where
  abbrev pub special_key : List ℕ → String → KeyEvent
  special_key raw name = record {
    raw = raw;
    name = name;
    ctrl = starts_with name "ctrl-";
    shift = starts_with name "shift-";
    meta = false;
    ch = "";
  }

  abbrev pub control_key : List ℕ → ℕ → KeyEvent
  control_key raw b =
      let letter = from_char_code (b + 96) in
      record {
        raw = raw;
        name = append "ctrl-" letter;
        ctrl = true;
        shift = false;
        meta = false;
        ch = letter;
      }

  abbrev pub alt_key : List ℕ → ℕ → KeyEvent
  alt_key raw b =
      let ch = from_char_code b in
      record {
        raw = raw;
        name = append "alt-" ch;
        ctrl = false;
        shift = false;
        meta = true;
        ch = ch;
      }

  abbrev pub plain_key : List ℕ → KeyEvent
  plain_key raw = record {
    raw = raw;
    name = decode raw;
    ctrl = false;
    shift = false;
    meta = false;
    ch = decode raw;
  }

  -- The keys that are not in the table. A property that every object inherits is found there, is no
  -- text, and `startsWith` throws.
  unfoldable pub parse_rest : List ℕ → Option KeyEvent
  parse_rest raw = if inherited (decode raw) then none else elim (control_byte raw) [
    | some b ↦ some (control_key raw b)
    | none ↦ elim (alt_byte raw) [ some b ↦ some (alt_key raw b) | none ↦ some (plain_key raw) ]
  ]

  unfoldable pub parse_key : List ℕ → Option KeyEvent
  parse_key raw = elim (special (decode raw)) [
    | some name ↦ some (special_key raw name)
    | none ↦ parse_rest raw
  ]
