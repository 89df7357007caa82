-- ===== src/Base/Map.antt =====
-- A JavaScript `Map`: entries in the order of insertion. `set` on a key that is there keeps its
-- place, `delete` on one that is not changes nothing.
use mathlib.Core.Path.{◌≡◌, refl}
use mathlib.Core.Bool.{Bool, true, false}
use mathlib.Core.Option.{Option, none, some}
use mathlib.Core.List.{List, [], ◌∷◌}
use native.Mathlib.Omega.{arith}
use tbridge.Base.Equality.{Keyed, ◌==◌}
use tbridge.Base.Lists.{All, All-imp}
use tbridge.Base.Tests.{if◌then◌else◌}

abbrev pub is_some {ℓ} : {A : Type ℓ} → Option A → Bool
is_some none = false
is_some (some a) = true

module _ {ℓ κ} {K : Type ℓ} {V : Type κ} ⦃e : Keyed K⦄ where
  unfoldable pub get : K → List (K × V) → Option V
  get k [] = none
  get k ((j, v) ∷ m) = if j == k then some v else get k m

  unfoldable pub set : K → V → List (K × V) → List (K × V)
  set k v [] = (k, v) ∷ []
  set k v ((j, w) ∷ m) = if j == k then (j, v) ∷ m else (j, w) ∷ set k v m

  unfoldable pub delete : K → List (K × V) → List (K × V)
  delete k [] = []
  delete k ((j, w) ∷ m) = if j == k then delete k m else (j, w) ∷ delete k m

  unfoldable pub has : K → List (K × V) → Bool
  has k m = is_some (get k m)

  pub get-set :
      (k j : K) (v : V) (m : List (K × V))
      → get j (set k v m) ≡ (if k == j then some v else get j m)
  unfolding get set
  get-set k j v [] = refl
  get-set k j v ((i, w) ∷ m) =
      ground (arith, e.same_iff k j, e.same_iff i k, e.same_iff i j, get-set k j v m)

  pub get-delete :
      (k j : K) (m : List (K × V)) → get j (delete k m) ≡ (if k == j then none else get j m)
  unfolding get delete
  get-delete k j [] = ground arith
  get-delete k j ((i, w) ∷ m) =
      ground (arith, e.same_iff k j, e.same_iff i k, e.same_iff i j, get-delete k j m)

  -- No key stands twice, as in every `Map`.
  abbrev pub Unique : List (K × V) → Type κ
  Unique [] = Unit
  Unique ((k, v) ∷ m) = (get k m ≡ none) × Unique m

  pub set-Unique : (k : K) (v : V) (m : List (K × V)) → Unique m → Unique (set k v m)
  unfolding set get
  set-Unique k v [] u = (refl, tt)
  set-Unique k v ((j, w) ∷ m) u =
      ground (arith, get-set k j v m, e.same_iff k j, e.same_iff j k, set-Unique k v m u.1)

  pub delete-Unique : (k : K) (m : List (K × V)) → Unique m → Unique (delete k m)
  unfolding delete
  delete-Unique k [] u = tt
  delete-Unique k ((j, w) ∷ m) u = ground (arith, get-delete k j m, delete-Unique k m u.1)

  -- Every listed entry is the one that a lookup finds.
  pub Unique-listed : (m : List (K × V)) → Unique m → All (λ i. get i.0 m ≡ some i.1) m
  unfolding get
  Unique-listed [] u = tt
  Unique-listed ((k, v) ∷ m) u = (
    ground (arith, e.same_iff k k),
    All-imp (λ i. get i.0 m ≡ some i.1) (λ i. get i.0 ((k, v) ∷ m) ≡ some i.1) m
        (λ (i : K × V) (h : get i.0 m ≡ some i.1). later k v m u.0 i.0 i.1 h) (Unique-listed m u.1),
  )
    where
      later :
          (k : K) (v : V) (m : List (K × V))
          → get k m ≡ none
          → (j : K) (w : V) → get j m ≡ some w
          → get j ((k, v) ∷ m) ≡ some w
      later k v m n j w h = ground (arith, e.same_iff k j)
