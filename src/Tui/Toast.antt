-- ===== src/Tui/Toast.antt =====
-- packages/tui/src/components/toast.ts: the notices that are shown for a while.
--
-- A message is of any type `M`; the clock is an argument. What is drawn is left out.
pub mod Expiry
use tbridge.Base.{
  ℕ, suc, ◌+◌, Bool, true, false, not, ◌&&◌, List, [], ◌∷◌, ◌++◌, length, keep, ltb, drop,
  if◌then◌else◌, ◌==◌, nat_eq,
}

pub data ToastLevel : Type 0 where
  info : ToastLevel
  success : ToastLevel
  warning : ToastLevel
  error : ToastLevel

pub record ToastItem (M : Type 0) : Type 0 where
  pub id : ℕ
  pub message : M
  pub level : ToastLevel
  pub expiry : ℕ

-- `timer` is whether the interval runs.
pub record Toast (M : Type 0) : Type 0 where
  pub items : List (ToastItem M)
  pub next_id : ℕ
  pub timer : Bool

module _ {M : Type 0} where
  unfoldable pub new_toast : Toast M
  new_toast = record { items = []; next_id = 0; timer = false }

  abbrev pub alive : ℕ → List (ToastItem M) → List (ToastItem M)
  alive now items = keep (λ (t : ToastItem M). ltb now t.expiry) items

  -- What `render` does to the items.
  unfoldable pub render : Toast M → ℕ → Toast M
  render t now = record t { items = alive now t.items }

  abbrev pub at_most_5 : List (ToastItem M) → List (ToastItem M)
  at_most_5 items = if ltb 5 (length items) then drop 1 items else items

  unfoldable pub start_timer : Toast M → Toast M
  start_timer t = record t { timer = true }

  unfoldable pub show : Toast M → M → ToastLevel → ℕ → ℕ → Toast M
  unfolding render start_timer
  show t message level duration now =
      let item : ToastItem M = record {
        id = t.next_id;
        message = message;
        level = level;
        expiry = now + duration;
      } in
      start_timer (
        render (record t { items = at_most_5 (t.items ++ item ∷ []); next_id = suc t.next_id }) now)

  -- The callback of the interval: whether it asks for a redraw.
  unfoldable pub on_timer : Toast M → ℕ → Bool × Toast M
  on_timer t now =
      let items = alive now t.items in
      (
        not (length items == length t.items),
        record t { items = items; timer = t.timer && not (length items == 0) },
      )
