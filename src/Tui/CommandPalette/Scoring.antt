-- ===== src/Tui/CommandPalette/Scoring.antt =====
-- packages/tui/src/components/command-palette.ts: which actions a query finds.
use tbridge.Base.{
  ℕ, ◌+◌, ◌<◌, ◌≡◌, ◌↔◌, ◌⊎◌, inl, inr, Bool, true, false, ◌||◌, Option, none, some, List, [], ◌∷◌,
  if◌then◌else◌, ◌==◌, nat_eq, arith, Bool-cases, ==_refl, subst, if_split,
}
use tbridge.Tui.CommandPalette.{
  PaletteAction, is_prefix, includes, points, fuzzy, fuzzy_score, or_empty,
}

-- The units of the one stand in the other, in their order, with others between them.
pub data Subsequence : List ℕ → List ℕ → Type 0 where
  ends : {us : List ℕ} → Subsequence [] us
  takes : {u : ℕ} {qs us : List ℕ} → Subsequence qs us → Subsequence (u ∷ qs) (u ∷ us)
  skips : {u : ℕ} {qs us : List ℕ} → Subsequence qs us → Subsequence qs (u ∷ us)

Subsequence-tail : {q : ℕ} {qs us : List ℕ} → Subsequence (q ∷ qs) us → Subsequence qs us
Subsequence-tail (takes h) = skips h
Subsequence-tail (skips h) = skips (Subsequence-tail h)

Subsequence-tails : {q u : ℕ} {qs us : List ℕ} → Subsequence (q ∷ qs) (u ∷ us) → Subsequence qs us
Subsequence-tails (takes h) = h
Subsequence-tails (skips h) = Subsequence-tail h

Subsequence-nil : {q : ℕ} {qs : List ℕ} → Subsequence (q ∷ qs) [] → ⊥
Subsequence-nil h = elim h [ ]

Subsequence-match :
    {q u : ℕ} {qs us : List ℕ} → (u == q) ≡ true → Subsequence qs us → Subsequence (q ∷ qs) (u ∷ us)
Subsequence-match {q} {u} {qs} {us} e h =
    subst (λ v. Subsequence (v ∷ qs) (u ∷ us)) ((nat_eq.same_iff u q).0 e) (takes h)

Subsequence-skips :
    {q u : ℕ} {qs us : List ℕ}
    → (u == q) ≡ false
    → Subsequence (q ∷ qs) (u ∷ us)
    → Subsequence (q ∷ qs) us
Subsequence-skips {u} e (takes h) = absurd (ground (arith, ==_refl u))
Subsequence-skips e (skips h) = h

-- Something of the query is left, or something was found.
abbrev Started : ℕ → List ℕ → Type 0
Started score [] = 0 < score
Started score (q ∷ qs) = Unit

Started-step :
    (b : Bool) (score more q : ℕ) (qs : List ℕ)
    → 0 < more
    → Started (if b then score + more else score) (if b then qs else q ∷ qs)
Started-step true score more q [] h = omega arith
Started-step true score more q (r ∷ qs) h = tt
Started-step false score more q qs h = tt

fuzzy-finds :
    (u : Option ℕ) (ls : List ℕ) (p : Option ℕ) (qs : List ℕ) (score : ℕ)
    → Started score qs
    → Subsequence qs ls
    → 0 < fuzzy u ls p qs score
unfolding fuzzy
fuzzy-finds u [] p [] score t h = t
fuzzy-finds u (l ∷ ls) p [] score t h = t
fuzzy-finds u [] p (q ∷ qs) score t h = absurd (Subsequence-nil h)
fuzzy-finds u (l ∷ ls) p (q ∷ qs) score t h =
    fuzzy-finds (some l) ls _ (if l == q then qs else q ∷ qs) _
      (Started-step (l == q) score (points u p) q qs (omega arith))
      (if_split (λ r. Subsequence r ls) (l == q) (λ e. Subsequence-tails h)
        (λ e. Subsequence-skips e h))

fuzzy-Subsequence :
    (u : Option ℕ) (ls : List ℕ) (p : Option ℕ) (qs : List ℕ) (score : ℕ)
    → 0 < fuzzy u ls p qs score
    → Subsequence qs ls
unfolding fuzzy
fuzzy-Subsequence u [] p [] score h = ends
fuzzy-Subsequence u (l ∷ ls) p [] score h = ends
fuzzy-Subsequence u [] p (q ∷ qs) score h = absurd (omega arith)
fuzzy-Subsequence u (l ∷ ls) p (q ∷ qs) score h =
    let k = fuzzy-Subsequence (some l) ls _ (if l == q then qs else q ∷ qs) _ h in
    elim (Bool-cases (l == q)) [
      | inl e ↦ Subsequence-match e (subst (λ b. Subsequence (if b then qs else q ∷ qs) ls) e k)
      | inr e ↦ skips (subst (λ b. Subsequence (if b then qs else q ∷ qs) ls) e k)
    ]

is_prefix-Subsequence : (qs us : List ℕ) → is_prefix qs us ≡ true → Subsequence qs us
is_prefix-Subsequence [] us h = ends
is_prefix-Subsequence (q ∷ qs) [] h = absurd (ground arith)
is_prefix-Subsequence (q ∷ qs) (u ∷ us) h =
    Subsequence-match (ground (arith, h)) (is_prefix-Subsequence qs us (ground (arith, h)))

includes-Subsequence : (us qs : List ℕ) → includes us qs ≡ true → Subsequence qs us
unfolding includes
includes-Subsequence [] qs h = is_prefix-Subsequence qs [] h
includes-Subsequence (u ∷ us) qs h = elim (Bool-cases (is_prefix qs (u ∷ us))) [
  | inl e ↦ is_prefix-Subsequence qs (u ∷ us) e
  | inr e ↦ skips (includes-Subsequence us qs (ground arith))
]

module _ {H : Type 0} (to_lower_case : List ℕ → List ℕ) (action : PaletteAction H) (q : ℕ)
    (qs : List ℕ) where
  abbrev pub Found : Type 0
  Found =
      Subsequence (q ∷ qs) (to_lower_case action.label)
      ⊎ ((includes (to_lower_case (or_empty action.description)) (q ∷ qs)
            || includes (to_lower_case (or_empty action.category)) (q ∷ qs))
          ≡ true)

  -- A query that is not empty scores above 0 exactly where its characters stand in order in the
  -- label, or where it is a part of the description or of the category.
  pub fuzzy_score-finds : (0 < fuzzy_score to_lower_case action (q ∷ qs)) ↔ Found
  unfolding fuzzy_score
  fuzzy_score-finds = (finds, λ h. found h)
    where
      label : List ℕ
      label = to_lower_case action.label

      finds : 0 < fuzzy_score to_lower_case action (q ∷ qs) → Found
      finds h = elim (Bool-cases (includes label (q ∷ qs))) [
        | inl e ↦ inl (includes-Subsequence label (q ∷ qs) e)
        | inr e ↦
            elim (Bool-cases (
              includes (to_lower_case (or_empty action.description)) (q ∷ qs)
              || includes (to_lower_case (or_empty action.category)) (q ∷ qs))) [
                | inl d ↦ inr d
                | inr d ↦ inl (fuzzy-Subsequence none label none (q ∷ qs) 0 (ground arith))
              ]
      ]

      found : Found → 0 < fuzzy_score to_lower_case action (q ∷ qs)
      found (inl h) = ground (arith, fuzzy-finds none label none (q ∷ qs) 0 tt h)
      found (inr h) = ground (arith, h)
