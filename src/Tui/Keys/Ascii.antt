-- ===== src/Tui/Keys/Ascii.antt =====
-- The parameters of the keys on ASCII: what UTF-8 and `String.fromCharCode` give for bytes below
-- 128.
use Prim.Native.String.{◌++◌ as append}
use tbridge.Base.{ℕ, zero, suc, String, Bool, ◌||◌, List, [], ◌∷◌, ◌==◌, string_eq}

abbrev pub nth_char : ℕ → String → String
nth_char n String.[] = ""
nth_char zero (String.◌∷◌ c s) = String.◌∷◌ c ""
nth_char (suc n) (String.◌∷◌ c s) = nth_char n s

abbrev pub controls : String
controls =
    "\0\u{1}\u{2}\u{3}\u{4}\u{5}\u{6}\u{7}\u{8}\t\n\u{b}\u{c}\r\u{e}\u{f}\u{10}\u{11}\u{12}\u{13}\u{14}\u{15}\u{16}\u{17}\u{18}\u{19}\u{1a}\u{1b}\u{1c}\u{1d}\u{1e}\u{1f}"

abbrev pub printables : String
printables =
    " !\"#$%&'()*+,-./0123456789:;<=>?@ABCDEFGHIJKLMNOPQRSTUVWXYZ[\\]^_`abcdefghijklmnopqrstuvwxyz{|}~\u{7f}"

abbrev pub char_of : ℕ → String
char_of n = nth_char n (append controls printables)

abbrev pub ascii : List ℕ → String
ascii [] = ""
ascii (b ∷ bs) = append (char_of b) (ascii bs)

-- Some of the names that every object inherits.
abbrev pub object_names : String → Bool
object_names s = (s == "constructor") || (s == "toString") || (s == "valueOf")
