-- ===== src/Tui/Keys/Parsing.antt =====
-- packages/tui/src/screen.ts: what the keys of a chunk can be.
use Prim.Native.Char.{code}
use text.Mathlib.TextEquality.{Char-path}
use tbridge.Base.{
  ℕ, ◌≡◌, ◌≢◌, refl, ap, ◌∙◌, sym, String, Bool, false, Option, none, some, List, [], ◌∷◌, arith,
  string_eq, if_both, subst⁻¹, Option-cases, inl, inr,
}
use tbridge.Tui.Keys.{
  KeyEvent, units, units_of, special, special_key, control_key, alt_key, parse_key, plain_key,
  parse_rest, control_byte, alt_byte,
}

space_char : (n : ℕ) (us : List ℕ) → units_of n us ≡ 32 ∷ [] → (n ≡ 32) × (us ≡ [])
space_char n us h = ground arith

no_units : (s : String) → units s ≡ [] → s ≡ ""
no_units String.[] h = refl
no_units (String.◌∷◌ c s) h = absurd (ground arith)

pub units-space : (s : String) → units s ≡ 32 ∷ [] → s ≡ " "
units-space String.[] h = absurd (ground arith)
units-space (String.◌∷◌ c s) h =
    let p = space_char (code c) (units s) h in
    λ i. String.◌∷◌ (Char-path c " " p.0 i) (no_units s p.1 i)

pub special-space : special " " ≡ some "space"
unfolding special
special-space = refl

-- A key that is neither with control nor with alt does not insert a space.
abbrev pub Spaceless : KeyEvent → Type 0
Spaceless k = k.ctrl ≡ false → k.meta ≡ false → units k.ch ≢ 32 ∷ []

abbrev pub KeySpaceless : Option KeyEvent → Type 0
KeySpaceless none = Unit
KeySpaceless (some k) = Spaceless k

module _ (decode : List ℕ → String) (from_char_code : ℕ → String) (inherited : String → Bool) where
  plain_key-Spaceless :
      (raw : List ℕ)
      → special (decode raw) ≡ none
      → Spaceless (plain_key decode from_char_code inherited raw)
  plain_key-Spaceless raw h c m e =
      absurd (ground (arith, sym h ∙ ap special (units-space (decode raw) e) ∙ special-space))

  rest-Spaceless :
      (raw : List ℕ)
      → special (decode raw) ≡ none
      → KeySpaceless (parse_rest decode from_char_code inherited raw)
  unfolding parse_rest
  rest-Spaceless raw h =
      if_both KeySpaceless (inherited (decode raw)) tt
        (elim (control_byte raw)
          as (λ o. KeySpaceless (elim o [
            | some b ↦ some (control_key decode from_char_code inherited raw b)
            | none ↦ elim (alt_byte raw) [
              | some b ↦ some (alt_key decode from_char_code inherited raw b)
              | none ↦ some (plain_key decode from_char_code inherited raw)
            ]
          ])) [
            | some b ↦ λ c m e. absurd (ground (arith, c))
            | none ↦
                elim (alt_byte raw)
                  as (λ o. KeySpaceless (elim o [
                    | some b ↦ some (alt_key decode from_char_code inherited raw b)
                    | none ↦ some (plain_key decode from_char_code inherited raw)
                  ])) [
                    | some b ↦ λ c m e. absurd (ground (arith, m))
                    | none ↦ plain_key-Spaceless raw h
                  ]
          ])

  -- No chunk of input is the key of a space: the space bar has no character.
  pub parse_key-Spaceless :
      (raw : List ℕ) → KeySpaceless (parse_key decode from_char_code inherited raw)
  unfolding parse_key
  parse_key-Spaceless raw = elim (Option-cases (special (decode raw))) [
    | inl h ↦
        subst⁻¹
          (λ o. KeySpaceless (elim o [
            | some name ↦ some (special_key decode from_char_code inherited raw name)
            | none ↦ parse_rest decode from_char_code inherited raw
          ]))
          h (rest-Spaceless raw h)
    | inr (name, h) ↦
        subst⁻¹
          (λ o. KeySpaceless (elim o [
            | some name ↦ some (special_key decode from_char_code inherited raw name)
            | none ↦ parse_rest decode from_char_code inherited raw
          ]))
          h (λ c m e. absurd (ground (arith, e)))
  ]
