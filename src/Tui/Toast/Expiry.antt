-- ===== src/Tui/Toast/Expiry.antt =====
-- packages/tui/src/components/toast.ts: which notices there are, and until when.
use tbridge.Base.{
  ℕ, ◌+◌, ◌≤◌, ◌<◌, ◌≡◌, refl, true, List, [], ◌∷◌, ◌++◌, length, ltb, nat_eq, arith, All,
  length-append, length-keep-le, if_split,
}
use tbridge.Tui.Toast.{
  Toast, ToastItem, ToastLevel, alive, at_most_5, show, render, start_timer, on_timer,
}

pub data Event (M : Type 0) : Type 0 where
  shows : M → ToastLevel → ℕ → Event M
  ticks : Event M

module _ {M : Type 0} where
  -- A step at a time.
  pub step_toast : Toast M → ℕ → Event M → Toast M
  step_toast t now (shows m level duration) = show t m level duration now
  step_toast t now ticks = (on_timer t now).1

  -- Five notices at most, none past its time, and the interval runs where there is one.
  abbrev pub IsValid : ℕ → Toast M → Type 0
  IsValid now t =
      (length t.items ≤ 5)
      × All (λ (i : ToastItem M). now < i.expiry) t.items
      × (0 < length t.items → t.timer ≡ true)

  alive-All :
      (now : ℕ) (items : List (ToastItem M))
      → All (λ (i : ToastItem M). now < i.expiry) (alive now items)
  alive-All now [] = tt
  alive-All now (i ∷ items) =
      if_split (All (λ (i : ToastItem M). now < i.expiry)) (ltb now i.expiry)
        (λ e. (ground arith, alive-All now items)) (λ e. alive-All now items)

  at_most_5-length : (items : List (ToastItem M)) → length items ≤ 6 → length (at_most_5 items) ≤ 5
  at_most_5-length [] h = omega arith
  at_most_5-length (i ∷ items) h = ground arith

  -- After a notice is shown, or the interval fires, there are five at most, none has come to its
  -- end, and the interval runs while there is one.
  pub step_toast-IsValid :
      (t : Toast M) (before now : ℕ) (e : Event M)
      → IsValid before t
      → IsValid now (step_toast t now e)
  unfolding step_toast show render start_timer on_timer
  step_toast-IsValid t before now (shows m level duration) (n, a, s) =
      let item : ToastItem M = record {
        id = t.next_id;
        message = m;
        level = level;
        expiry = now + duration;
      } in
      let items = at_most_5 (t.items ++ item ∷ []) in
      (
        omega (
          arith,
          length-keep-le (λ (i : ToastItem M). ltb now i.expiry) items,
          at_most_5-length (t.items ++ item ∷ [])
              (omega (arith, length-append t.items (item ∷ []), n)),
        ),
        alive-All now items,
        λ _. refl,
      )
  step_toast-IsValid t before now ticks (n, a, s) = (
    omega (arith, length-keep-le (λ (i : ToastItem M). ltb now i.expiry) t.items, n),
    alive-All now t.items,
    λ h. ground (
      arith,
      s (omega (arith, h, length-keep-le (λ (i : ToastItem M). ltb now i.expiry) t.items)),
      h,
    ),
  )
