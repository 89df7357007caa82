-- ===== src/Tui/CommandPalette/Filtering.antt =====
-- packages/tui/src/components/command-palette.ts: the order of what a query leaves.
use tbridge.Base.{
  ℕ, ◌≤◌, ◌≡◌, ◌∙◌, refl, List, [], ◌∷◌, if◌then◌else◌, ◌==◌, nat_eq, arith, ltb, keep, All,
  All-imp, if_both, if_split,
}
use tbridge.Tui.CommandPalette.{PaletteAction, fuzzy_score, insert_by, sort_by, results}

module _ {ℓ} {A : Type ℓ} (score : A → ℕ) where
  -- None is followed by one of a higher score.
  abbrev pub Falling : List A → Type ℓ
  Falling [] = Unit
  Falling (x ∷ xs) = All (λ y. score y ≤ score x) xs × Falling xs

  pub All-insert_by {κ} :
      (P : A → Type κ) (x : A) (ys : List A) → P x → All P ys → All P (insert_by score x ys)
  unfolding insert_by
  All-insert_by P x [] p h = (p, tt)
  All-insert_by P x (y ∷ ys) p h =
      if_both (All P) (ltb (score x) (score y)) (h.0, All-insert_by P x ys p h.1) (p, h)

  insert_by-Falling : (x : A) (ys : List A) → Falling ys → Falling (insert_by score x ys)
  unfolding insert_by
  insert_by-Falling x [] h = (tt, tt)
  insert_by-Falling x (y ∷ ys) h =
      if_split Falling (ltb (score x) (score y))
        (λ e. (All-insert_by _ x ys (ground arith) h.0, insert_by-Falling x ys h.1))
        (λ e. ((ground arith, All-imp _ _ ys (λ z k. ground arith) h.0), h))

  sort_by-Falling : (xs : List A) → Falling (sort_by score xs)
  unfolding sort_by
  sort_by-Falling [] = tt
  sort_by-Falling (x ∷ xs) = insert_by-Falling x (sort_by score xs) (sort_by-Falling xs)

  -- The members of one score.
  abbrev pub scoring : ℕ → List A → List A
  scoring v xs = keep (λ a. score a == v) xs

  scoring-insert_by :
      (v : ℕ) (x : A) (ys : List A) → scoring v (insert_by score x ys) ≡ scoring v (x ∷ ys)
  unfolding insert_by
  scoring-insert_by v x [] = refl
  scoring-insert_by v x (y ∷ ys) = ground (arith, scoring-insert_by v x ys)

  scoring-sort_by : (v : ℕ) (xs : List A) → scoring v (sort_by score xs) ≡ scoring v xs
  unfolding sort_by
  scoring-sort_by v [] = refl
  scoring-sort_by v (x ∷ xs) =
      scoring-insert_by v x (sort_by score xs) ∙ ground (arith, scoring-sort_by v xs)

  scoring-keep :
      (v : ℕ) (xs : List A)
      → scoring v (keep (λ a. ltb 0 (score a)) xs) ≡ (if v == 0 then [] else scoring v xs)
  scoring-keep v [] = ground arith
  scoring-keep v (x ∷ xs) = ground (arith, scoring-keep v xs)

module _ {H : Type 0} (to_lower_case : List ℕ → List ℕ) (actions : List (PaletteAction H)) (c : ℕ)
    (cs : List ℕ) where
  abbrev pub score_of : PaletteAction H → ℕ
  score_of a = fuzzy_score to_lower_case a (to_lower_case (c ∷ cs))

  -- The results of a query that is not empty fall in their scores, and those of each score are the
  -- actions of that score, in their order, except that none scores 0.
  pub results-exact :
      Falling score_of (results to_lower_case actions (c ∷ cs))
      × ((v : ℕ)
          → scoring score_of v (results to_lower_case actions (c ∷ cs))
            ≡ (if v == 0 then [] else scoring score_of v actions))
  unfolding results
  results-exact =
      let kept = keep (λ a. ltb 0 (score_of a)) actions in
      (
        sort_by-Falling score_of kept,
        λ v. scoring-sort_by score_of v kept ∙ scoring-keep score_of v actions,
      )
