-- ===== src/Results/Tree.antt =====
-- docs/search/search.js, `FindChildElement` and `Toggle`: the walk through the nodes of a result row
-- by `firstChild`, `nextSibling` and `parentNode`.
use tiny_swarm.Prelude.{
  ℕ, zero, suc, ◌+◌, Bool, true, false, ◌&&◌, List, [], ◌∷◌, Option, none, some, ◌==◌,
  if◌then◌else◌,
}
use tiny_swarm.Text.{Str, codes, ◌==s◌, to_lower}
use tiny_swarm.Page.{Display, hidden, block, is_block}

-- A node of the page: which one it is, and what the scripts read of it.
pub record Tag : Type 0 where
  pub key : ℕ
  pub node_name : Str
  pub class_name : Str

mutual
  pub data Node : Type 0 where
    node : Tag → Nodes → Node

  pub data Nodes : Type 0 where
    nil : Nodes
    cons : Node → Nodes → Nodes

-- `element.nodeName.toLowerCase() == 'div'`. The names of HTML elements are ASCII.
unfoldable pub is_div : Tag → Bool
unfolding ◌==s◌
is_div t = to_lower (λ c. c) t.node_name ==s codes "div"

-- `… == 'div' && element.className == 'SRChildren'`
unfoldable pub is_children : Tag → Bool
unfolding is_div ◌==s◌
is_children t = is_div t && t.class_name ==s codes "SRChildren"

abbrev pub has_child_nodes : Nodes → Bool
has_child_nodes nil = false
has_child_nodes (cons n ns) = true

-- Where the walk stands below the row: the element, its later siblings, and the later siblings of
-- each of its ancestors below the row, the nearest first.
pub record Position : Type 0 where
  pub element : Node
  pub siblings : Nodes
  pub outer : List Nodes

-- The next sibling, or that of the nearest ancestor which has one; none when the climb ends at the
-- row itself.
unfoldable pub next_position : Nodes → List Nodes → Option Position
next_position (cons n ns) outer = some (record { element = n; siblings = ns; outer = outer })
next_position nil [] = none
next_position nil (ns ∷ outer) = next_position ns outer

-- `element = element.firstChild`, where there is one.
unfoldable pub first_child : Nodes → Nodes → List Nodes → Option Position
first_child nil siblings outer = none
first_child (cons n ns) siblings outer =
    some (record { element = n; siblings = ns; outer = siblings ∷ outer })

-- The branches of the loop's body behind the test for the element that is sought.
unfoldable pub advance : Tag → Nodes → Nodes → List Nodes → Option Position
unfolding next_position first_child
advance t kids siblings outer =
    if is_div t && has_child_nodes kids
    then first_child kids siblings outer
    else next_position siblings outer

-- One round of the loop, with the rest of the loop as an argument.
abbrev round : (Option Position → Option ℕ) → Node → Nodes → List Nodes → Option ℕ
round rest (node t kids) siblings outer =
    let later = rest (advance t kids siblings outer) in if is_children t then some t.key else later

-- The loop, for as many rounds as the fuel allows.
unfoldable pub find_from : ℕ → Option Position → Option ℕ
find_from zero p = none
find_from (suc f) none = none
find_from (suc f) (some p) = round (find_from f) p.element p.siblings p.outer

unfoldable mutual
  -- The number of nodes.
  pub size : Node → ℕ
  size (node t kids) = suc (size_nodes kids)

  pub size_nodes : Nodes → ℕ
  size_nodes nil = 0
  size_nodes (cons n ns) = size n + size_nodes ns

-- `FindChildElement` at a row with these child nodes; the fuel is more than there are nodes.
unfoldable pub find_child_element : Nodes → Option ℕ
unfolding find_from next_position size size_nodes
find_child_element kids = find_from (suc (size_nodes kids)) (next_position kids [])

-- The style of each node, by its key.
abbrev pub Styles : Type 0
Styles = ℕ → Display

unfoldable pub set_display : ℕ → Display → Styles → Styles
set_display key d styles k = if k == key then d else styles k

abbrev pub toggled : Display → Display
toggled d = if is_block d then hidden else block

abbrev toggle_found : Option ℕ → Styles → Styles
toggle_found none styles = styles
toggle_found (some key) styles = set_display key (toggled (styles key)) styles

unfoldable pub toggle : Nodes → Styles → Styles
unfolding set_display
toggle kids styles = toggle_found (find_child_element kids) styles
