-- ===== src/Results/Created.antt =====
-- docs/search/search.js, `createResults`: what the other functions find in the rows that it builds.
use mathlib.Core.Option
use mathlib.Core.List.{append_cancel_left}
use tiny_swarm.Prelude.{
  ℕ, zero, suc, ◌+◌, ◌≡◌, refl, sym, ap, ◌∙◌, List, [], ◌∷◌, none, some, ◌==◌, if◌then◌else◌,
  length, get_elem?, arith,
}
use tiny_swarm.Text.{Str, codes, ◌==s◌, lower_unit}
use tiny_swarm.Text.Digits.{to_string, value_from, value-to_string}
use tiny_swarm.Results.Tree.{Nodes, is_div, is_children, find_child_element}
use tiny_swarm.Results.Walk.{first_children_of, find_child_element_lem}
use tiny_swarm.Results.Create.{
  Link, Entry, Elem, set_attribute, get_attribute, item_id, create_row, create_results, number,
  elems_of, number_all,
}

-- The nodes inside a row that stands as node 0.
abbrev pub row_nodes : Elem → Nodes
row_nodes row = number_all 1 (elems_of row)

created-first :
    (e : ℕ) (id name : Str) (links : List Link)
    → first_children_of (row_nodes (create_row e (record { id = id; name = name; links = links })))
      ≡ (if length links == 1 then none else some 3)
unfolding first_children_of create_row number get_attribute set_attribute is_children is_div ◌==s◌
    lower_unit
created-first e id name [] = refl
created-first e id name (link ∷ []) = refl
created-first e id name (link ∷ next ∷ links) = ground arith

-- `FindChildElement` at a row that `createResults` has built finds the element behind the row's link
-- (node 3: the row is node 0, its `SREntry` 1 and its link 2) if the entry has several results or
-- none, and finds nothing if it has one.
pub created-find_child_element :
    (e : ℕ) (entry : Entry)
    → find_child_element (row_nodes (create_row e entry))
      ≡ (if length entry.links == 1 then none else some 3)
created-find_child_element e entry =
    find_child_element_lem (row_nodes (create_row e entry))
    ∙ created-first e entry.id entry.name entry.links

-- Two rows have different link names.
pub item_id_injective : (e e' : ℕ) → item_id e ≡ item_id e' → e ≡ e'
unfolding item_id
item_id_injective e e' h =
    let digits : to_string 10 e ≡ to_string 10 e' = append_cancel_left (codes "Item") _ _ h in
    sym (value-to_string 10 e (omega arith))
    ∙ ap (value_from 10 0) digits
    ∙ value-to_string 10 e' (omega arith)

create_results-from :
    (e k : ℕ) (entries : List Entry)
    → get_elem? (create_results e entries) k ≡ Option.map (create_row (e + k)) (get_elem? entries k)
unfolding create_results
create_results-from e k [] = refl
create_results-from e zero (entry ∷ entries) =
    let same : e ≡ e + 0 = omega arith in ap (λ n. some (create_row n entry)) same
create_results-from e (suc k) (entry ∷ entries) =
    let same : e + 1 + k ≡ e + suc k = omega arith in
    create_results-from (e + 1) k entries
    ∙ ap (λ n. Option.map (create_row n) (get_elem? entries k)) same

-- `createResults` builds one row for each entry, in order, and gives the row at index `k` the names and
-- handlers with that index.
pub create_results-rows :
    (entries : List Entry) (k : ℕ)
    → get_elem? (create_results 0 entries) k ≡ Option.map (create_row k) (get_elem? entries k)
create_results-rows entries k =
    let same : 0 + k ≡ k = omega arith in
    create_results-from 0 k entries ∙ ap (λ n. Option.map (create_row n) (get_elem? entries k)) same
