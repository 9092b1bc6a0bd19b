-- ===== src/SearchBox/Menu.antt =====
-- docs/search/search.js, `SearchBox`: the entries of the filter menu and the chosen index.
use tiny_swarm.Prelude.{
  ℕ, zero, suc, ◌+◌, ◌<◌, ◌≡◌, refl, sym, ap, ◌∙◌, Bool, true, false, List, [], ◌∷◌, some, arith,
  ◌==◌, get_elem?, map, if◌then◌else◌, ltb, leb, ◌&&◌, length, lt→ltb, get_elem?-past, if_true,
}
use tiny_swarm.Text.{◌==s◌, strip_spaces}
use tiny_swarm.SearchBox.State.{Child, select_item, other, Config, SearchBox, done, thrown}
use tiny_swarm.SearchBox.Handlers.{count_items, select_item_count, mark_items, select_item_set}
use tiny_swarm.SearchBox.Search.{search_}
use tiny_swarm.SearchBox.Query.{search-throws}
use tiny_swarm.SearchBox.Events.{KeyEvent, on_select_item, on_search_select_key}

-- The bullets of the entries, in order.
abbrev pub marks : List Child → List Bool
marks [] = []
marks (select_item mark ∷ rest) = mark ∷ marks rest
marks (other ∷ rest) = marks rest

pub count_items-marks :
    (n : ℕ) (children : List Child) → count_items n children ≡ n + length (marks children)
unfolding count_items
count_items-marks n [] = omega arith
count_items-marks n (select_item mark ∷ rest) = omega (arith, count_items-marks (n + 1) rest)
count_items-marks n (other ∷ rest) = count_items-marks n rest

marks-mark_items :
    (id j k : ℕ) (children : List Child)
    → k < length (marks children)
    → get_elem? (marks (mark_items id j children)) k ≡ some (j + k == id)
unfolding mark_items
marks-mark_items id j k [] h = absurd (omega arith)
marks-mark_items id j zero (select_item mark ∷ rest) h = ground arith
marks-mark_items id j (suc k) (select_item mark ∷ rest) h =
    marks-mark_items id (j + 1) k rest (omega arith) ∙ ap (λ n. some (n == id)) (omega arith)
marks-mark_items id j k (other ∷ rest) h = marks-mark_items id j k rest h

length-mark_items :
    (id j : ℕ) (children : List Child)
    → length (marks (mark_items id j children)) ≡ length (marks children)
unfolding mark_items
length-mark_items id j [] = refl
length-mark_items id j (select_item mark ∷ rest) = ap suc (length-mark_items id (j + 1) rest)
length-mark_items id j (other ∷ rest) = length-mark_items id j rest

-- A child without its bullet.
abbrev pub unmarked : Child → Child
unmarked (select_item mark) = select_item false
unmarked other = other

unmarked-mark_items :
    (id j : ℕ) (children : List Child)
    → map unmarked (mark_items id j children) ≡ map unmarked children
unfolding mark_items
unmarked-mark_items id j [] = refl
unmarked-mark_items id j (select_item mark ∷ rest) =
    ap (λ cs. select_item false ∷ cs) (unmarked-mark_items id (j + 1) rest)
unmarked-mark_items id j (other ∷ rest) = ap (λ cs. other ∷ cs) (unmarked-mark_items id j rest)

-- How many bullets there are.
unfoldable pub count_marked : List Bool → ℕ
count_marked [] = 0
count_marked (true ∷ ms) = suc (count_marked ms)
count_marked (false ∷ ms) = count_marked ms

count_marked-mark_items :
    (id j : ℕ) (children : List Child)
    → count_marked (marks (mark_items id j children))
      ≡ (if leb j id && ltb id (j + length (marks children)) then 1 else 0)
unfolding mark_items count_marked
count_marked-mark_items id j [] = ground arith
count_marked-mark_items id j (select_item mark ∷ rest) =
    ground (arith, count_marked-mark_items id (j + 1) rest)
count_marked-mark_items id j (other ∷ rest) = count_marked-mark_items id j rest

pub count-select_item_set :
    (id : ℕ) (s : SearchBox) → select_item_count (select_item_set id s) ≡ select_item_count s
unfolding select_item_set select_item_count
count-select_item_set id s = omega (
  arith,
  length-mark_items id 0 s.children,
  count_items-marks 0 s.children,
  count_items-marks 0 (mark_items id 0 s.children),
)

-- `SelectItemSet(id)` changes nothing of the children but bullets; then an entry has its bullet exactly
-- if it is the one with index `id`, so one entry has one if `id` is the index of an entry, and none has
-- one else.
pub select_item_set-marks :
    (id k : ℕ) (s : SearchBox)
    → k < select_item_count s
    → (select_item_count (select_item_set id s) ≡ select_item_count s)
      × (map unmarked (select_item_set id s).children ≡ map unmarked s.children)
      × (get_elem? (marks (select_item_set id s).children) k ≡ some (k == id))
      × (count_marked (marks (select_item_set id s).children)
          ≡ (if ltb id (select_item_count s) then 1 else 0))
unfolding select_item_set select_item_count
select_item_set-marks id k s h = (
  count-select_item_set id s,
  unmarked-mark_items id 0 s.children,
  marks-mark_items id 0 k s.children (omega (arith, h, count_items-marks 0 s.children))
      ∙ ap (λ n. some (n == id)) (omega arith),
  ground (arith, count_marked-mark_items id 0 s.children, count_items-marks 0 s.children),
)

-- The arrow down.
abbrev pub down : KeyEvent
down = record { key_code = 40; shift_key = false }

abbrev pub up : KeyEvent
up = record { key_code = 38; shift_key = false }

-- The bound that the code tests admits one index too many: at the last entry the arrow down chooses
-- the index behind it. If the tables have one section for each entry, the panel is active and the
-- field is not blank, the look-up of that section throws.
pub down_past_end :
    (cfg : Config) (s : SearchBox)
    → s.search_index + 1 ≡ select_item_count s
    → length cfg.sections_with_content ≡ select_item_count s
    → s.search_active ≡ true
    → (strip_spaces s.field_value ==s []) ≡ false
    → (s' : SearchBox) × (on_search_select_key cfg down s ≡ thrown s')
      × (s'.search_index ≡ select_item_count s')
unfolding on_search_select_key on_select_item select_item_set select_item_count
down_past_end cfg s last tables active filled =
    let chosen = record s { search_index = s.search_index + 1 } in
    let marked = select_item_set (s.search_index + 1) chosen in
    let no_section = get_elem?-past cfg.sections_with_content (s.search_index + 1) (omega arith) in
    (
      record marked { key_timeout = 0 },
      if_true _ _ (lt→ltb s.search_index (count_items 0 s.children) (omega arith))
          ∙ if_true (search_ cfg marked) (done marked) (ground (arith, filled, active))
          ∙ search-throws cfg marked no_section,
      last ∙ sym (count-select_item_set (s.search_index + 1) chosen),
    )

-- The moves inside the menu: from an entry with one behind it the arrow down chooses that one, and
-- from an entry with one in front of it the arrow up chooses that one, as a click on it would.
pub arrow_keys :
    (cfg : Config) (s : SearchBox)
    → (s.search_index + 1 < select_item_count s
        → on_search_select_key cfg down s ≡ on_select_item cfg (s.search_index + 1) s)
      × ((i : ℕ) → s.search_index ≡ i + 1 → on_search_select_key cfg up s ≡ on_select_item cfg i s)
unfolding on_search_select_key
arrow_keys cfg s = (
  λ h. if_true _ _ (lt→ltb s.search_index (select_item_count s) (omega arith)),
  λ i e.
      if_true _ _ (lt→ltb 0 s.search_index (omega arith))
      ∙ ap (λ n. on_select_item cfg n s) (omega arith),
)
