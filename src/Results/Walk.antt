-- ===== src/Results/Walk.antt =====
-- docs/search/search.js, `FindChildElement`: the walk is the search in document order.
use tiny_swarm.Prelude.{
  ℕ, zero, suc, ◌+◌, ◌<◌, ◌≡◌, refl, ◌∙◌, List, [], ◌∷◌, Option, none, some, if◌then◌else◌, arith,
}
use tiny_swarm.Results.Tree.{
  Node, Nodes, node, nil, cons, is_div, is_children, next_position, advance, find_from, size_nodes,
  find_child_element,
}

abbrev pub or_else {ℓ} : {A : Type ℓ} → Option A → Option A → Option A
or_else none o = o
or_else (some a) o = some a

-- The first `SRChildren` div in document order, where only divs are entered.
unfoldable mutual
  pub first_children : Node → Option ℕ
  first_children (node t kids) =
      if is_children t then some t.key else (if is_div t then first_children_of kids else none)

  pub first_children_of : Nodes → Option ℕ
  first_children_of nil = none
  first_children_of (cons n ns) = or_else (first_children n) (first_children_of ns)

-- The same for what lies behind a position.
first_outer : List Nodes → Option ℕ
first_outer [] = none
first_outer (ns ∷ outer) = or_else (first_children_of ns) (first_outer outer)

size_outer : List Nodes → ℕ
size_outer [] = 0
size_outer (ns ∷ outer) = size_nodes ns + size_outer outer

or_else_assoc {ℓ} :
    {A : Type ℓ} (a b c : Option A) → or_else (or_else a b) c ≡ or_else a (or_else b c)
or_else_assoc none b c = refl
or_else_assoc (some x) b c = refl

find_from-next :
    (f : ℕ) (ns : Nodes) (outer : List Nodes)
    → size_nodes ns + size_outer outer < f
    → find_from f (next_position ns outer) ≡ or_else (first_children_of ns) (first_outer outer)
unfolding find_from next_position advance size_nodes size_outer first_children_of first_outer
find_from-next zero ns outer h = elim h [ ]
find_from-next (suc f) nil [] h = refl
find_from-next (suc f) nil (ns ∷ outer) h = find_from-next (suc f) ns outer (omega arith)
find_from-next (suc f) (cons (node t nil) ns) outer h =
    let later = find_from-next f ns outer (omega arith) in ground (arith, later)
find_from-next (suc f) (cons (node t (cons k ks)) ns) outer h =
    let later = find_from-next f ns outer (omega arith) in
    let below = find_from-next f (cons k ks) (ns ∷ outer) (omega arith) in
    ground (
      arith,
      later,
      below,
      or_else_assoc (first_children_of (cons k ks)) (first_children_of ns) (first_outer outer),
    )

or_else-none {ℓ} : {A : Type ℓ} (o : Option A) → or_else o none ≡ o
or_else-none none = refl
or_else-none (some a) = refl

-- The walk by first child, next sibling and parent ends within its fuel, at the first `SRChildren`
-- div of the row in document order, where only divs are entered; it finds none if there is none.
pub find_child_element_lem : (kids : Nodes) → find_child_element kids ≡ first_children_of kids
unfolding find_child_element first_outer size_outer
find_child_element_lem kids =
    find_from-next (suc (size_nodes kids)) kids [] (omega arith)
    ∙ or_else-none (first_children_of kids)
