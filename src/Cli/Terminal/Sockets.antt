-- ===== src/Cli/Terminal/Sockets.antt =====
-- apps/cli/src/terminal: what the two commands share: sockets, the backpressure marks, reconnecting.
use tbridge.Base.{ℕ, String, Option, none, some, List, [], ◌∷◌, get_elem?}
use tbridge.Crypto.{Primitives}

-- A text to encrypt is a JavaScript string, which the messages carry as `String`.
pub record Encoding (N : Primitives) : Type 0 where
  pub to_text : String → N.Text
  pub of_text : N.Text → String

abbrev pub backpressure_high : ℕ
backpressure_high = 65536

abbrev pub backpressure_low : ℕ
backpressure_low = 16384

abbrev pub max_reconnect_attempts : ℕ
max_reconnect_attempts = 3

abbrev pub reconnect_delays : List ℕ
reconnect_delays = 1000 ∷ 2000 ∷ 4000 ∷ []

abbrev pub or_4000 : Option ℕ → ℕ
or_4000 none = 4000
or_4000 (some d) = d

-- `RECONNECT_DELAYS[attempt] ?? 4000`.
abbrev pub delay_of : ℕ → ℕ
delay_of attempt = or_4000 (get_elem? reconnect_delays attempt)

-- A wait before a reconnect: which attempt it is for, and how long it lasts.
pub record Wait : Type 0 where
  pub attempt : ℕ
  pub delay : ℕ
