-- ===== src/SearchBox/Init.antt =====
-- docs/search/search.js, `init_search`: the filter menu is filled and its first entry is chosen.
use tiny_swarm.Prelude.{
  ℕ, suc, ◌+◌, ◌<◌, ◌≡◌, refl, ap, ◌∙◌, false, List, [], ◌∷◌, ◌++◌, some, arith, ◌==◌, get_elem?,
  length, map, length-append, if◌then◌else◌, if_false,
}
use tiny_swarm.Text.{Str, codes, ◌==s◌}
use tiny_swarm.Text.Digits.{to_string}
use tiny_swarm.SearchBox.State.{Child, select_item, other, Config, SearchBox, Outcome, done}
use tiny_swarm.SearchBox.Handlers.{select_item_set, select_item_count}
use tiny_swarm.SearchBox.Search.{search_}
use tiny_swarm.SearchBox.Events.{on_select_item}
use tiny_swarm.SearchBox.Menu.{marks, count_items-marks, select_item_set-marks}

-- A link that the function creates: its class, handler and address, and what it shows.
pub record MenuLink : Type 0 where
  pub class_name : Str
  pub onclick : Str
  pub href : Str
  pub inner_html : Str

unfoldable pub menu_link : ℕ → Str → MenuLink
unfolding to_string
menu_link key label = record {
  class_name = codes "SelectItem";
  onclick = codes "searchBox.OnSelectItem(" ++ (to_string 10 key ++ codes ")");
  href = codes "javascript:void(0)";
  inner_html = codes "<span class=\"SelectionMark\">&#160;</span>" ++ label;
}

-- The loop over `indexSectionLabels`, whose keys are 0, 1, 2, ….
unfoldable pub menu_links : ℕ → List Str → List MenuLink
unfolding menu_link
menu_links key [] = []
menu_links key (label ∷ labels) = menu_link key label ∷ menu_links (key + 1) labels

-- What the panel reads of a link in its menu: whether it is an entry, which has no bullet yet.
unfoldable pub child_of : MenuLink → Child
unfolding ◌==s◌
child_of link = if link.class_name ==s codes "SelectItem" then select_item false else other

unfoldable pub init_search : Config → List Str → SearchBox → Outcome
unfolding menu_links child_of on_select_item
init_search cfg labels s =
    on_select_item cfg 0 (record s { children = s.children ++ map child_of (menu_links 0 labels) })

marks-append : (xs ys : List Child) → marks (xs ++ ys) ≡ marks xs ++ marks ys
marks-append [] ys = refl
marks-append (select_item mark ∷ xs) ys = ap (λ ms. mark ∷ ms) (marks-append xs ys)
marks-append (other ∷ xs) ys = marks-append xs ys

length-links :
    (key : ℕ) (labels : List Str)
    → length (marks (map child_of (menu_links key labels))) ≡ length labels
unfolding menu_links menu_link child_of ◌==s◌
length-links key [] = refl
length-links key (label ∷ labels) = ap suc (length-links (key + 1) labels)

abbrev with_links : List Str → SearchBox → SearchBox
with_links labels s = record s { children = s.children ++ map child_of (menu_links 0 labels) }

count-with_links :
    (labels : List Str) (s : SearchBox)
    → select_item_count (with_links labels s) ≡ select_item_count s + length labels
unfolding select_item_count
count-with_links labels s =
    let links = map child_of (menu_links 0 labels) in
    omega (
      arith,
      count_items-marks 0 (s.children ++ links),
      count_items-marks 0 s.children,
      ap length (marks-append s.children links),
      length-append (marks s.children) (marks links),
      length-links 0 labels,
    )

-- If the panel is not active, `init_search` ends without an error and without a search: the menu
-- then has one new entry for each label, the chosen index is 0, and an entry has its bullet exactly
-- if it is the first.
pub init_search_lem :
    (cfg : Config) (labels : List Str) (s : SearchBox) (k : ℕ)
    → s.search_active ≡ false
    → k < select_item_count s + length labels
    → (s' : SearchBox) × (init_search cfg labels s ≡ done s')
      × (s'.search_index ≡ 0)
      × (s'.location ≡ s.location)
      × (select_item_count s' ≡ select_item_count s + length labels)
      × (get_elem? (marks s'.children) k ≡ some (k == 0))
unfolding init_search on_select_item select_item_set select_item_count
init_search_lem cfg labels s k inactive h =
    let filled = record (with_links labels s) { search_index = 0 } in
    let counted : select_item_count filled ≡ select_item_count s + length labels =
      count-with_links labels s in
    let (kept, kinds, marked, bullets) =
      select_item_set-marks 0 k filled (omega (arith, h, counted)) in
    (
      select_item_set 0 filled,
      if_false (search_ cfg (select_item_set 0 filled)) (done (select_item_set 0 filled))
          (ground (arith, inactive)),
      refl,
      refl,
      kept ∙ counted,
      marked,
    )
