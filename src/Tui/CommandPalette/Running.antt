-- ===== src/Tui/CommandPalette/Running.antt =====
-- packages/tui/src/components/command-palette.ts: what a key makes the palette run.
use tbridge.Base.{
  ℕ, zero, suc, ◌<◌, ◌≡◌, refl, Bool, true, Option, none, some, List, [], ◌∷◌, arith, ltb, keep,
  All, All-imp, All-append, if_split, get_elem?, subst⁻¹,
}
use tbridge.Base.Integers.{ℤ, pos, negsuc}
use tbridge.Tui.Keys.{KeyEvent}
use tbridge.Tui.CommandPalette.{
  PaletteAction, CommandPalette, Call, closes, runs, fuzzy_score, sort_by, results, close_palette,
  close_calls, execute, run_action, at, PaletteKey, key_escape, key_return, palette_key, switch_key,
  handle_key,
}
use tbridge.Tui.CommandPalette.Filtering.{All-insert_by}
use tbridge.Tui.CommandPalette.Selection.{IsValid}

module _ {ℓ κ} {A : Type ℓ} (P : A → Type κ) where
  All-indices : (xs : List A) → ((n : ℕ) (a : A) → get_elem? xs n ≡ some a → P a) → All P xs
  All-indices [] f = tt
  All-indices (x ∷ xs) f = (f 0 x refl, All-indices xs (λ n. f (suc n)))

  All-at : (xs : List A) (n : ℕ) (a : A) → All P xs → get_elem? xs n ≡ some a → P a
  All-at [] n a h e = absurd (ground arith)
  All-at (x ∷ xs) zero a h e = subst⁻¹ P (ground arith) h.0
  All-at (x ∷ xs) (suc n) a h e = All-at xs n a h.1 e

  All-kept : (p : A → Bool) (xs : List A) → All P xs → All (λ a. P a × (p a ≡ true)) (keep p xs)
  All-kept p [] h = tt
  All-kept p (x ∷ xs) h =
      if_split (All (λ a. P a × (p a ≡ true))) (p x) (λ e. ((h.0, e), All-kept p xs h.1))
        (λ e. All-kept p xs h.1)

  All-sort_by : (score : A → ℕ) (xs : List A) → All P xs → All P (sort_by score xs)
  unfolding sort_by
  All-sort_by score [] h = tt
  All-sort_by score (x ∷ xs) h =
      All-insert_by score P x (sort_by score xs) h.0 (All-sort_by score xs h.1)

module _ {H : Type 0} (to_lower_case : List ℕ → List ℕ) where
  abbrev pub Answers : List ℕ → PaletteAction H → Type 0
  Answers [] a = Unit
  Answers (c ∷ cs) a = 0 < fuzzy_score to_lower_case a (to_lower_case (c ∷ cs))

  -- The action is registered, and the query finds it.
  abbrev pub Offered : List (PaletteAction H) → List ℕ → PaletteAction H → Type 0
  Offered actions query a = ((n : ℕ) × (get_elem? actions n ≡ some a)) × Answers query a

  results-Offered :
      (actions : List (PaletteAction H)) (query : List ℕ)
      → All (Offered actions query) (results to_lower_case actions query)
  unfolding results
  results-Offered actions [] = All-indices _ actions (λ n a e. ((n, e), tt))
  results-Offered actions (c ∷ cs) =
      let score = λ (a : PaletteAction H). fuzzy_score to_lower_case a (to_lower_case (c ∷ cs)) in
      let Known = λ (a : PaletteAction H). (n : ℕ) × (get_elem? actions n ≡ some a) in
      All-imp _ _ _ (λ a h. (h.0, ground (arith, h.1)))
        (All-sort_by (λ a. Known a × (ltb 0 (score a) ≡ true)) score
          (keep (λ a. ltb 0 (score a)) actions)
          (All-kept Known (λ a. ltb 0 (score a)) actions
            (All-indices Known actions (λ n a e. (n, e)))))

module _ {H C : Type 0} (to_lower_case : List ℕ → List ℕ) where
  abbrev pub RunsOffered : CommandPalette H C → Call H C → Type 0
  RunsOffered p (closes c) = Unit
  RunsOffered p (runs h) =
      (a : PaletteAction H) × Offered to_lower_case p.actions p.query a × (a.handler ≡ h)

  close_calls-RunsOffered :
      (p : CommandPalette H C) (o : Option C) → All (RunsOffered p) (close_calls o)
  close_calls-RunsOffered p none = tt
  close_calls-RunsOffered p (some c) = (tt, tt)

  at-Offered :
      (p : CommandPalette H C) (i : ℤ) (a : PaletteAction H)
      → p.filtered ≡ results to_lower_case p.actions p.query
      → at p.filtered i ≡ some a
      → Offered to_lower_case p.actions p.query a
  at-Offered p (pos n) a e h =
      All-at (Offered to_lower_case p.actions p.query) p.filtered n a
        (subst⁻¹ (All (Offered to_lower_case p.actions p.query)) e
          (results-Offered to_lower_case p.actions p.query))
        h
  at-Offered p (negsuc n) a e h = absurd (ground arith)

  run_action-RunsOffered :
      (p : CommandPalette H C) (o : Option (PaletteAction H))
      → ((a : PaletteAction H) → o ≡ some a → Offered to_lower_case p.actions p.query a)
      → All (RunsOffered p) ((run_action p o).1)
  unfolding close_palette
  run_action-RunsOffered p none h = tt
  run_action-RunsOffered p (some a) h =
      All-append (RunsOffered p) (close_calls p.on_close) _ (close_calls-RunsOffered p p.on_close)
        ((a, h a refl, refl), tt)

  switch_key-RunsOffered :
      (p : CommandPalette H C) (name : PaletteKey) (key : KeyEvent)
      → p.filtered ≡ results to_lower_case p.actions p.query
      → All (RunsOffered p) ((switch_key to_lower_case p name key).1)
  unfolding switch_key execute close_palette
  switch_key-RunsOffered p key_escape key e = close_calls-RunsOffered p p.on_close
  switch_key-RunsOffered p key_return key e =
      run_action-RunsOffered p (at p.filtered p.selected_index)
        (λ a. at-Offered p p.selected_index a e)
  switch_key-RunsOffered p name key e = tt

  -- In a palette that is valid, the handlers that a key runs are those of registered actions that
  -- the query finds.
  pub runs_offered :
      (p : CommandPalette H C) (key : KeyEvent)
      → IsValid to_lower_case p
      → All (RunsOffered p) ((handle_key to_lower_case p key).2)
  unfolding handle_key
  runs_offered p key h =
      if_split (λ (r : Bool × CommandPalette H C × List (Call H C)). All (RunsOffered p) (r.2))
        p.visible (λ e. switch_key-RunsOffered p (palette_key key.name) key (h.2 e).1) (λ e. tt)
