-- ===== src/Tui/Sidebar.antt =====
-- packages/tui/src/components/sidebar.ts: the list of sessions and peers. What is drawn is left
-- out.
pub mod Selecting
use tbridge.Base.{
  ℕ, suc, ◌+◌, ◌-◌, ◌%◌, String, Bool, true, false, not, Option, none, some, List, [], ◌∷◌, ◌++◌,
  length, keep, get_elem?, leb, if◌then◌else◌, ◌==◌, string_eq, nat_eq, max,
}

pub data EntryType : Type 0 where
  session_entry : EntryType
  peer_entry : EntryType

pub data EntryStatus : Type 0 where
  active : EntryStatus
  idle : EntryStatus
  exited : EntryStatus
  online : EntryStatus
  offline : EntryStatus
  connecting : EntryStatus

pub record SidebarEntry : Type 0 where
  pub id : String
  pub type_of : EntryType
  pub label : String
  pub sublabel : String
  pub status : EntryStatus
  pub is_local : Bool

pub record Sidebar : Type 0 where
  pub entries : List SidebarEntry
  pub selected_index : ℕ
  pub full_width : ℕ
  pub visible : Bool

unfoldable pub new_sidebar : Option ℕ → Sidebar
new_sidebar w = record {
  entries = [];
  selected_index = 0;
  full_width = elim w [ none ↦ 18 | some n ↦ n ];
  visible = true;
}

unfoldable pub width : Sidebar → ℕ
width s = if s.visible then s.full_width else 0

unfoldable pub selected_id : Sidebar → Option String
selected_id s = elim (get_elem? s.entries s.selected_index) [ none ↦ none | some e ↦ some e.id ]

-- The index where it is that of an entry, or that of the last one, or 0.
abbrev pub clamp : ℕ → ℕ → ℕ
clamp i n = if leb n i then n - 1 else i

unfoldable pub set_entries : Sidebar → List SidebarEntry → Sidebar
set_entries s es = record s { entries = es; selected_index = clamp s.selected_index (length es) }

unfoldable pub add_entry : Sidebar → SidebarEntry → Sidebar
add_entry s e = record s { entries = s.entries ++ e ∷ [] }

unfoldable pub remove_entry : Sidebar → String → Sidebar
remove_entry s id =
    let es = keep (λ (e : SidebarEntry). not (e.id == id)) s.entries in
    record s { entries = es; selected_index = clamp s.selected_index (length es) }

unfoldable pub select_next : Sidebar → Sidebar
select_next s =
    if length s.entries == 0
    then s
    else record s { selected_index = (s.selected_index + 1) % length s.entries }

unfoldable pub select_prev : Sidebar → Sidebar
select_prev s =
    if length s.entries == 0
    then s
    else record s { selected_index = (s.selected_index + length s.entries - 1) % length s.entries }

-- `findIndex`: `none` for -1.
unfoldable pub find_index : List SidebarEntry → String → Option ℕ
find_index [] id = none
find_index (e ∷ es) id =
    if e.id == id then some 0 else elim (find_index es id) [ none ↦ none | some n ↦ some (suc n) ]

abbrev pub select_at : Sidebar → Option ℕ → Sidebar
select_at s none = s
select_at s (some i) = record s { selected_index = i }

unfoldable pub select_by_id : Sidebar → String → Sidebar
unfolding find_index
select_by_id s id = select_at s (find_index s.entries id)
