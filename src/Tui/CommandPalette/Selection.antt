-- ===== src/Tui/CommandPalette/Selection.antt =====
-- packages/tui/src/components/command-palette.ts: the query, the selection and what Return runs.
use native.Mathlib.Numerals.{unary_clauses}
use tbridge.Base.{
  ℕ, zero, suc, ◌-◌, ◌<◌, ◌≤◌, max, ◌≡◌, refl, String, Bool, true, Option, none, some, List, [],
  ◌∷◌, ◌++◌, nat_eq, string_eq, arith, ap, ltb, All, All-append, if_both, if_split, length, take,
  drop,
}
use tbridge.Base.Integers.{ℤ, pos, negsuc, min_ℤ, max_ℤ, ◌+ℤ◌, ◌-ℤ◌}
use tbridge.Tui.Keys.{KeyEvent, parse_key}
use tbridge.Tui.Keys.Parsing.{Spaceless, KeySpaceless, parse_key-Spaceless}
use tbridge.Tui.CommandPalette.{
  PaletteAction, CommandPalette, Call, results, filter, open_palette, close_palette, execute, typed,
  insert_text, erase_text, edit_key, handle_key, at, run_action, insert_typed, switch_key,
  palette_key, PaletteKey, key_escape, key_return, key_up, key_down, key_backspace, key_left,
  key_right, key_start, key_end, key_clear,
}

-- What the application does with the palette: each chunk of the keyboard's input is decoded, and
-- its key goes to the palette.
pub data Use (C : Type 0) : Type 0 where
  opens : Option C → Use C
  shuts : Use C
  presses : List ℕ → Use C

-- The index is that of a result, or 0, or -1.
abbrev pub Selected : ℤ → ℕ → Type 0
Selected (pos i) n = i < max 1 n
Selected (negsuc i) n = i ≡ 0

abbrev pub Visible : ℕ → Type 0
Visible u = 32 < u

Selected-filter :
    (i : ℤ) (m n : ℕ) → Selected i m → Selected (min_ℤ i (max_ℤ (pos 0) (pos n -ℤ pos 1))) n
Selected-filter (pos i) m n h = ground arith
Selected-filter (negsuc i) m n h = ground arith

Selected-up : (i : ℤ) (n : ℕ) → Selected i n → Selected (max_ℤ (pos 0) (i -ℤ pos 1)) n
Selected-up (pos i) n h = ground arith
Selected-up (negsuc i) n h = ground arith

Selected-down : (i : ℤ) (n : ℕ) → Selected i n → Selected (min_ℤ (pos n -ℤ pos 1) (i +ℤ pos 1)) n
Selected-down (pos i) n h = ground arith
Selected-down (negsuc i) n h = ground arith

module _ {κ} {A : Type 0} (P : A → Type κ) where
  All-take : (n : ℕ) (xs : List A) → All P xs → All P (take n xs)
  All-take zero xs h = tt
  All-take (suc n) [] h = tt
  All-take (suc n) (x ∷ xs) h = (h.0, All-take n xs h.1)

  All-drop : (n : ℕ) (xs : List A) → All P xs → All P (drop n xs)
  All-drop zero xs h = h
  All-drop (suc n) [] h = tt
  All-drop (suc n) (x ∷ xs) h = All-drop n xs h.1

length-insert :
    (n u : ℕ) (us : List ℕ) → n ≤ length us → length (take n us ++ u ∷ drop n us) ≡ suc (length us)
length-insert zero u us h = refl
length-insert (suc n) u [] h = absurd (omega arith)
length-insert (suc n) u (v ∷ us) h = ap suc (length-insert n u us (omega arith))

length-erase :
    (n : ℕ) (us : List ℕ)
    → suc n ≤ length us
    → suc (length (take n us ++ drop (suc n) us)) ≡ length us
length-erase n [] h = absurd (omega arith)
length-erase zero (v ∷ us) h = refl
length-erase (suc n) (v ∷ us) h = ap suc (length-erase n us (omega arith))

typed-Visible : (key : KeyEvent) (u : ℕ) → Spaceless key → typed key ≡ some u → Visible u
unfolding typed
typed-Visible key u h e = ground arith

cursor-erase :
    (c : ℕ) (us : List ℕ) → 0 < c → c ≤ length us → c - 1 ≤ length (take (c - 1) us ++ drop c us)
cursor-erase zero us h k = omega arith
cursor-erase (suc c) us h k =
    let fits : c ≤ length (take c us ++ drop (suc c) us) = omega (arith, length-erase c us k) in
    simp unary_clauses fits

module _ {H C : Type 0} (to_lower_case : List ℕ → List ℕ) where
  -- The query has no character up to the space; the selection is in the results, or 0, or -1. While
  -- the palette is open the cursor is in the query, and the results are those of the query.
  abbrev pub IsValid : CommandPalette H C → Type 0
  IsValid p =
      All Visible p.query
      × Selected p.selected_index (length p.filtered)
      × (p.visible ≡ true
          → (p.cursor_pos ≤ length p.query)
            × (p.filtered ≡ results to_lower_case p.actions p.query))

  filter-IsValid :
      (p : CommandPalette H C)
      → p.cursor_pos ≤ length p.query
      → All Visible p.query
      → (m : ℕ) → Selected p.selected_index m
      → IsValid (filter to_lower_case p)
  unfolding filter
  filter-IsValid p c v m s = (
    v,
    Selected-filter p.selected_index m (length (results to_lower_case p.actions p.query)) s,
    λ e. (c, refl),
  )

  close-IsValid : (p : CommandPalette H C) → IsValid p → IsValid ((close_palette p).0)
  unfolding close_palette
  close-IsValid p (v, s, r) = (tt, s, λ e. absurd (ground arith))

  insert-IsValid :
      (p : CommandPalette H C) (u : ℕ)
      → p.visible ≡ true
      → IsValid p
      → Visible u
      → IsValid (filter to_lower_case (insert_text p u))
  insert-IsValid p u e (v, s, r) h =
      filter-IsValid (insert_text p u)
        (omega (arith, length-insert p.cursor_pos u p.query (r e).0, (r e).0))
        (All-append Visible _ _ (All-take Visible p.cursor_pos p.query v)
          (h, All-drop Visible p.cursor_pos p.query v))
        (length p.filtered) s

  erase-IsValid :
      (p : CommandPalette H C)
      → p.visible ≡ true
      → IsValid p
      → 0 < p.cursor_pos
      → IsValid (filter to_lower_case (erase_text p))
  erase-IsValid p e (v, s, r) h =
      filter-IsValid (erase_text p) (cursor-erase p.cursor_pos p.query h (r e).0)
        (All-append Visible _ _ (All-take Visible (p.cursor_pos - 1) p.query v)
          (All-drop Visible p.cursor_pos p.query v))
        (length p.filtered) s

  move-IsValid :
      (p : CommandPalette H C) (c : ℕ)
      → IsValid p
      → (p.visible ≡ true → c ≤ length p.query)
      → IsValid (record p { cursor_pos = c })
  move-IsValid p c (v, s, r) h = (v, s, λ e. (h e, (r e).1))

  insert_typed-IsValid :
      (p : CommandPalette H C) (o : Option ℕ)
      → p.visible ≡ true
      → IsValid p
      → ((u : ℕ) → o ≡ some u → Visible u)
      → IsValid (insert_typed to_lower_case p o)
  insert_typed-IsValid p none e h k = h
  insert_typed-IsValid p (some u) e h k = insert-IsValid p u e h (k u refl)

  edit_key-IsValid :
      (p : CommandPalette H C) (name : PaletteKey) (key : KeyEvent)
      → p.visible ≡ true
      → IsValid p
      → Spaceless key
      → IsValid (edit_key to_lower_case p name key)
  unfolding edit_key
  edit_key-IsValid p key_up key e (v, s, r) k =
      (v, Selected-up p.selected_index (length p.filtered) s, r)
  edit_key-IsValid p key_down key e (v, s, r) k =
      (v, Selected-down p.selected_index (length p.filtered) s, r)
  edit_key-IsValid p key_backspace key e h k =
      if_split IsValid (ltb 0 p.cursor_pos) (λ q. erase-IsValid p e h (ground arith)) (λ q. h)
  edit_key-IsValid p key_left key e h k =
      if_both IsValid (ltb 0 p.cursor_pos)
        (move-IsValid p (p.cursor_pos - 1) h (λ _. omega (arith, (h.2 e).0))) h
  edit_key-IsValid p key_right key e h k =
      if_split IsValid (ltb p.cursor_pos (length p.query))
        (λ q. move-IsValid p (suc p.cursor_pos) h (λ _. ground arith)) (λ q. h)
  edit_key-IsValid p key_start key e h k = move-IsValid p 0 h (λ _. omega arith)
  edit_key-IsValid p key_end key e h k = move-IsValid p (length p.query) h (λ _. omega arith)
  edit_key-IsValid p key_clear key e (v, s, r) k =
      filter-IsValid (record p { query = []; cursor_pos = 0 }) (omega arith) tt (length p.filtered)
        s
  edit_key-IsValid p _ key e h k =
      insert_typed-IsValid p (typed key) e h (λ u. typed-Visible key u k)

  run_action-IsValid :
      (p : CommandPalette H C) (o : Option (PaletteAction H))
      → IsValid p
      → IsValid ((run_action p o).0)
  run_action-IsValid p none h = h
  run_action-IsValid p (some action) h = close-IsValid p h

  switch_key-IsValid :
      (p : CommandPalette H C) (name : PaletteKey) (key : KeyEvent)
      → p.visible ≡ true
      → IsValid p
      → Spaceless key
      → IsValid ((switch_key to_lower_case p name key).0)
  unfolding switch_key execute
  switch_key-IsValid p key_escape key e h k = close-IsValid p h
  switch_key-IsValid p key_return key e h k =
      run_action-IsValid p (at p.filtered p.selected_index) h
  switch_key-IsValid p name key e h k = edit_key-IsValid p name key e h k

  handle_key-IsValid :
      (p : CommandPalette H C) (key : KeyEvent)
      → IsValid p
      → Spaceless key
      → IsValid ((handle_key to_lower_case p key).1)
  unfolding handle_key
  handle_key-IsValid p key h k =
      if_split (λ (r : Bool × CommandPalette H C × List (Call H C)). IsValid (r.1)) p.visible
        (λ e. switch_key-IsValid p (palette_key key.name) key e h k) (λ e. h)

  open-IsValid : (p : CommandPalette H C) (c : Option C) → IsValid (open_palette to_lower_case p c)
  unfolding open_palette
  open-IsValid p c =
      filter-IsValid
        (record p {
          visible = true;
          query = [];
          cursor_pos = 0;
          selected_index = pos 0;
          on_close = c;
        })
        (omega arith) tt 0 (omega arith)

-- What the keys are decoded with, and how the query is folded.
module _ {H C : Type 0} (decode : List ℕ → String) (from_char_code : ℕ → String)
    (inherited : String → Bool) (to_lower_case : List ℕ → List ℕ) where
  -- A chunk of which `parseKey` throws leaves the palette as it is.
  abbrev pub pressed : CommandPalette H C → Option KeyEvent → CommandPalette H C
  pressed p none = p
  pressed p (some key) = (handle_key to_lower_case p key).1

  unfoldable pub step : CommandPalette H C → Use C → CommandPalette H C
  unfolding open_palette close_palette handle_key parse_key
  step p (opens c) = open_palette to_lower_case p c
  step p shuts = (close_palette p).0
  step p (presses raw) = pressed p (parse_key decode from_char_code inherited raw)

  unfoldable pub use_all : CommandPalette H C → List (Use C) → CommandPalette H C
  unfolding step
  use_all p [] = p
  use_all p (u ∷ us) = use_all (step p u) us

  pressed-IsValid :
      (p : CommandPalette H C) (o : Option KeyEvent)
      → IsValid to_lower_case p
      → KeySpaceless o
      → IsValid to_lower_case (pressed p o)
  pressed-IsValid p none h k = h
  pressed-IsValid p (some key) h k = handle_key-IsValid to_lower_case p key h k

  step-IsValid :
      (p : CommandPalette H C) (u : Use C)
      → IsValid to_lower_case p
      → IsValid to_lower_case (step p u)
  unfolding step
  step-IsValid p (opens c) h = open-IsValid to_lower_case p c
  step-IsValid p shuts h = close-IsValid to_lower_case p h
  step-IsValid p (presses raw) h =
      pressed-IsValid p (parse_key decode from_char_code inherited raw) h
        (parse_key-Spaceless decode from_char_code inherited raw)

  -- Whatever chunks the keyboard sends, and however the palette is opened and closed between, a valid
  -- palette stays valid: its query has no character up to the space, its selected index is that of a
  -- result, or 0, or -1, and while it is open its cursor is in the query and its results are those of
  -- the query.
  pub use_all-IsValid :
      (p : CommandPalette H C) (us : List (Use C))
      → IsValid to_lower_case p
      → IsValid to_lower_case (use_all p us)
  unfolding use_all
  use_all-IsValid p [] h = h
  use_all-IsValid p (u ∷ us) h = use_all-IsValid (step p u) us (step-IsValid p u h)
