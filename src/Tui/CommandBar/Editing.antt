-- ===== src/Tui/CommandBar/Editing.antt =====
-- packages/tui/src/components/command-bar.ts: what is typed is what is submitted.
use tbridge.Base.{
  ℕ, suc, ◌≡◌, refl, ap, ◌∙◌, subst⁻¹, String, true, Option, some, List, [], ◌∷◌, ◌++◌, length,
  take, drop, nat_eq, string_eq, arith, length-append,
}
use tbridge.Tui.CommandBar.{
  CommandBar, input, BarKey, bar_default, bar_key, typed, trim, enter_input, exit_input,
  insert_text, insert_typed, submission, switch_key, handle_key,
}

-- A key that inserts the unit.
pub record Inserts (u : ℕ) : Type 0 where
  pub name : String
  pub ch : String
  pub plain : bar_key name ≡ bar_default
  pub types : typed ch ≡ some u

pub data Keys : List ℕ → Type 0 where
  no_more : Keys []
  then_key : {u : ℕ} {us : List ℕ} → Inserts u → Keys us → Keys (u ∷ us)

take-length : (us : List ℕ) → take (length us) us ≡ us
take-length [] = refl
take-length (u ∷ us) = ap (u ∷◌) (take-length us)

drop-length : (us : List ℕ) → drop (length us) us ≡ []
drop-length [] = refl
drop-length (u ∷ us) = drop-length us

append-one : (us : List ℕ) (u : ℕ) (vs : List ℕ) → (us ++ u ∷ []) ++ vs ≡ us ++ u ∷ vs
append-one [] u vs = refl
append-one (v ∷ us) u vs = ap (v ∷◌) (append-one us u vs)

append-none : (us : List ℕ) → us ≡ us ++ []
append-none [] = refl
append-none (u ∷ us) = ap (u ∷◌) (append-none us)

length-end : (us : List ℕ) (u : ℕ) → suc (length us) ≡ length (us ++ u ∷ [])
length-end us u = omega (arith, length-append us (u ∷ []))

module _ {S : Type 0} where
  pub type_all : {us : List ℕ} → CommandBar S → Keys us → CommandBar S
  type_all b no_more = b
  type_all b (then_key k ks) = type_all ((handle_key b k.name k.ch).1) ks

  -- The line is being typed at its end, for the callback.
  abbrev line : S → List ℕ → CommandBar S
  line s us = record { mode = input; input_buffer = us; cursor_pos = length us; on_submit = some s }

  insert-end : (s : S) (us : List ℕ) (u : ℕ) → insert_text (line s us) u ≡ line s (us ++ u ∷ [])
  insert-end s us u = λ i. record {
    mode = input;
    input_buffer = take-length us i ++ u ∷ drop-length us i;
    cursor_pos = length-end us u i;
    on_submit = some s;
  }

  handle-Inserts :
      (s : S) (us : List ℕ) {u : ℕ} (k : Inserts u)
      → (handle_key (line s us) k.name k.ch).1 ≡ line s (us ++ u ∷ [])
  unfolding handle_key switch_key
  handle-Inserts s us {u} k =
      subst⁻¹ (λ (n : BarKey). (switch_key (line s us) n k.ch).1 ≡ line s (us ++ u ∷ [])) k.plain
        (subst⁻¹ (λ (o : Option ℕ). (insert_typed (line s us) o).1 ≡ line s (us ++ u ∷ [])) k.types
          (insert-end s us u))

  type_all-line :
      (s : S) (us : List ℕ) {vs : List ℕ} (ks : Keys vs)
      → type_all (line s us) ks ≡ line s (us ++ vs)
  unfolding type_all
  type_all-line s us no_more = ap (line s) (append-none us)
  type_all-line s us (then_key {u} {us = vs} k ks) =
      ap (λ b. type_all b ks) (handle-Inserts s us k)
      ∙ type_all-line s (us ++ u ∷ []) ks
      ∙ ap (line s) (append-one us u vs)

  -- The characters that are typed in a command bar, and then Return, submit the line without the
  -- space around it, if it has any other character, and the bar is left.
  pub typed_submits :
      (s : S) {us : List ℕ} (ks : Keys us) (ch : String)
      → handle_key (type_all (enter_input s) ks) "return" ch
        ≡ (true, exit_input, submission (some s) (trim us))
  unfolding handle_key switch_key bar_key enter_input
  typed_submits s ks ch = ap (λ b. handle_key b "return" ch) (type_all-line s [] ks)
