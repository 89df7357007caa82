-- ===== src/Base/Equality.antt =====
-- `===` on numbers and texts, the keys of the program's maps.
use Prim.Native.Nat.{ℕ}
use Prim.Native.String.{String}
use mathlib.Core.Path.{◌≡◌, refl}
use mathlib.Core.Logic.{◌↔◌}
use mathlib.Core.Bool.{Bool, true}
use text.Mathlib.Text.{◌==◌ as same_text}
use text.Mathlib.TextEquality.{eq_iff as same_text_iff}
use tbridge.Base.Tests.{nat_beq, nat_beq_iff}

-- A type with a test that decides whether two of its values are the same.
pub record Keyed {κ} (K : Type κ) : Type κ where
  pub same : K → K → Bool
  pub same_iff : (j k : K) → (same j k ≡ true) ↔ (j ≡ k)

instance abbrev pub string_eq : Keyed String
string_eq = record { same_iff = same_text_iff; same = same_text }

instance abbrev pub nat_eq : Keyed ℕ
nat_eq = record { same_iff = nat_beq_iff; same = nat_beq }

module _ {κ} {K : Type κ} ⦃keyed : Keyed K⦄ where
  infix 50 ◌==◌
  abbrev pub ◌==◌ : K → K → Bool
  j == k = keyed.same j k

  pub ==_refl : (k : K) → (k == k) ≡ true
  ==_refl k = (keyed.same_iff k k).1 refl
