-- ===== src/Tui/Sidebar/Selecting.antt =====
-- packages/tui/src/components/sidebar.ts: the selected entry.
use native.Mathlib.Nat.{mod-lt}
use tbridge.Base.{
  ℕ, zero, suc, ◌+◌, ◌-◌, ◌<◌, ◌≡◌, refl, ◌∙◌, max, String, false, Option, none, some, List, [],
  ◌∷◌, length, get_elem?, ◌==◌, ltb, nat_eq, string_eq, arith, if_split, length-append, is_some,
  Option-cases, inl, inr,
}
use tbridge.Tui.Sidebar.{
  Sidebar, SidebarEntry, selected_id, set_entries, add_entry, remove_entry, select_next,
  select_prev, find_index, select_at, select_by_id, clamp,
}

-- What the application does with the side bar.
pub data Event : Type 0 where
  sets : List SidebarEntry → Event
  adds : SidebarEntry → Event
  drops : String → Event
  next prev : Event
  picks : String → Event

step_sidebar : Sidebar → Event → Sidebar
step_sidebar s (sets es) = set_entries s es
step_sidebar s (adds e) = add_entry s e
step_sidebar s (drops id) = remove_entry s id
step_sidebar s next = select_next s
step_sidebar s prev = select_prev s
step_sidebar s (picks id) = select_by_id s id

pub step_all : Sidebar → List Event → Sidebar
step_all s [] = s
step_all s (e ∷ es) = step_all (step_sidebar s e) es

-- An entry is selected, where there is one.
abbrev pub IsSelecting : Sidebar → Type 0
IsSelecting s = s.selected_index < max 1 (length s.entries)

index-lt-length :
    (es : List SidebarEntry) (id : String) (n : ℕ) → find_index es id ≡ some n → n < length es
unfolding find_index
index-lt-length [] id n h = absurd (ground arith)
index-lt-length (e ∷ es) id n h = elim (Option-cases (find_index es id)) [
  | inl k ↦ ground (arith, k)
  | inr (m, k) ↦ ground (arith, k, index-lt-length es id m k)
]

clamp-lt : (i n : ℕ) → clamp i n < max 1 n
clamp-lt i n = ground arith

select_at-IsSelecting :
    (s : Sidebar) (o : Option ℕ)
    → ((n : ℕ) → o ≡ some n → n < length s.entries)
    → IsSelecting s
    → IsSelecting (select_at s o)
select_at-IsSelecting s none f h = h
select_at-IsSelecting s (some n) f h = omega (arith, f n refl)

positive : (n : ℕ) → (n == 0) ≡ false → 0 < n
positive n h = ground arith

step_sidebar-IsSelecting :
    (s : Sidebar) (e : Event) → IsSelecting s → IsSelecting (step_sidebar s e)
unfolding step_sidebar set_entries add_entry remove_entry select_next select_prev select_by_id
step_sidebar-IsSelecting s (sets es) h = clamp-lt s.selected_index (length es)
step_sidebar-IsSelecting s (adds e) h = omega (arith, length-append s.entries (e ∷ []), h)
step_sidebar-IsSelecting s (drops id) h = clamp-lt s.selected_index _
step_sidebar-IsSelecting s next h =
    if_split IsSelecting (length s.entries == 0) (λ e. h)
      (λ e. ground (arith, e, mod-lt (s.selected_index + 1) (positive (length s.entries) e)))
step_sidebar-IsSelecting s prev h =
    if_split IsSelecting (length s.entries == 0) (λ e. h)
      (λ e. ground (
        arith,
        e,
        mod-lt (s.selected_index + length s.entries - 1) (positive (length s.entries) e),
      ))
step_sidebar-IsSelecting s (picks id) h =
    select_at-IsSelecting s (find_index s.entries id) (λ n. index-lt-length s.entries id n) h

is_some-get_elem? :
    (es : List SidebarEntry) (i : ℕ)
    → i < max 1 (length es)
    → is_some (get_elem? es i) ≡ ltb 0 (length es)
is_some-get_elem? [] i h = refl
is_some-get_elem? (e ∷ es) zero h = ground arith
is_some-get_elem? (e ∷ []) (suc i) h = absurd (omega arith)
is_some-get_elem? (e ∷ f ∷ es) (suc i) h = is_some-get_elem? (f ∷ es) i (omega arith) ∙ ground arith

-- Through any requests of a side bar of which the selection is good, an entry is selected exactly
-- where there is one.
pub step_all-selects :
    (s : Sidebar) (es : List Event)
    → IsSelecting s
    → is_some (selected_id (step_all s es)) ≡ ltb 0 (length (step_all s es).entries)
unfolding step_all selected_id
step_all-selects s [] h = ground (arith, is_some-get_elem? s.entries s.selected_index h)
step_all-selects s (e ∷ es) h =
    step_all-selects (step_sidebar s e) es (step_sidebar-IsSelecting s e h)
