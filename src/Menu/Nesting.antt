-- ===== src/Menu/Nesting.antt =====
-- docs/menu.js, `makeTree`: the tags of the menu, as a stack of open elements.
use tiny_swarm.Prelude.{
  ◌≡◌, ◌≢◌, refl, ap, ◌∙◌, Bool, ◌||◌, List, [], ◌∷◌, ◌++◌, Option, none, some, ◌==◌, if◌then◌else◌,
  All, map,
}
use tiny_swarm.Text.{Str, codes, ◌==s◌}
use tiny_swarm.Menu.Tree.{Item, Submenu, Items, item, no_children, children, nil, cons, make_tree}
use tiny_swarm.Menu.Markup.{
  Token, tag, value, unit, in_text, read, tree_tokens, item_list_tokens, item_tokens, IsPlainTree,
  read-make_tree,
}

-- An end tag closes the last open element, whose name it must have.
unfoldable pub leave : Str → List Str → Option (List Str)
leave name [] = none
leave name (top ∷ open_elements) = if top ==s name then some open_elements else none

-- The elements that have no end tag.
unfoldable pub is_void : Str → Bool
is_void name = name ==s codes "img" || name ==s codes "input"

unfoldable pub enter : Str → List Str → Option (List Str)
unfolding leave is_void
enter [] open_elements = some ([] ∷ open_elements)
enter (c ∷ name) open_elements =
    if c == b'/'
    then leave name open_elements
    else if is_void (c ∷ name)
    then some open_elements
    else some ((c ∷ name) ∷ open_elements)

unfoldable pub apply : Token → List Str → Option (List Str)
unfolding enter
apply (tag name) open_elements = enter name open_elements
apply (value v) open_elements = some open_elements
apply (unit c) open_elements = some open_elements

-- The elements that are open behind the tokens; none if an end tag does not match.
unfoldable pub nest : Option (List Str) → List Token → Option (List Str)
unfolding apply
nest none ts = none
nest (some open_elements) [] = some open_elements
nest (some open_elements) (t ∷ ts) = nest (apply t open_elements) ts

nest-append : (o : Option (List Str)) (xs ys : List Token) → nest o (xs ++ ys) ≡ nest (nest o xs) ys
unfolding nest
nest-append none xs ys = refl
nest-append (some open_elements) [] ys = refl
nest-append (some open_elements) (t ∷ xs) ys = nest-append (apply t open_elements) xs ys

nest-unit :
    (open_elements : List Str) (text : Str)
    → nest (some open_elements) (map unit text) ≡ some open_elements
unfolding nest
nest-unit open_elements [] = refl
nest-unit open_elements (c ∷ text) = nest-unit open_elements text

-- The open elements are kept.
mutual
  unfolding nest leave is_void ◌==s◌ tree_tokens item_list_tokens item_tokens

  nest-tree :
      (rel_path : Str) (menu : Submenu) (open_elements : List Str)
      → nest (some open_elements) (tree_tokens rel_path menu) ≡ some open_elements
  nest-tree rel_path no_children open_elements = refl
  nest-tree rel_path (children items) open_elements =
      let inner = codes "ul" ∷ open_elements in
      nest-append (some inner) (item_list_tokens rel_path items) (tag (codes "/ul") ∷ [])
      ∙ ap (λ o. nest o (tag (codes "/ul") ∷ [])) (nest-items rel_path items inner)

  nest-items :
      (rel_path : Str) (items : Items) (open_elements : List Str)
      → nest (some open_elements) (item_list_tokens rel_path items) ≡ some open_elements
  nest-items rel_path nil open_elements = refl
  nest-items rel_path (cons i items) open_elements =
      nest-append (some open_elements) (item_tokens rel_path i) (item_list_tokens rel_path items)
      ∙ ap (λ o. nest o (item_list_tokens rel_path items)) (nest-item rel_path i open_elements)
      ∙ nest-items rel_path items open_elements

  nest-item :
      (rel_path : Str) (i : Item) (open_elements : List Str)
      → nest (some open_elements) (item_tokens rel_path i) ≡ some open_elements
  nest-item rel_path (item text link menu) open_elements =
      let in_item = codes "li" ∷ open_elements in
      let kids = tree_tokens rel_path menu ++ (tag (codes "/li") ∷ []) in
      nest-append (some (codes "a" ∷ in_item)) (map unit text) (tag (codes "/a") ∷ kids)
      ∙ ap (λ o. nest o (tag (codes "/a") ∷ kids)) (nest-unit (codes "a" ∷ in_item) text)
      ∙ nest-append (some in_item) (tree_tokens rel_path menu) (tag (codes "/li") ∷ [])
      ∙ ap (λ o. nest o (tag (codes "/li") ∷ [])) (nest-tree rel_path menu in_item)

-- If no text of the menu has a `<` and neither a link nor `relPath` has a quotation mark, then every
-- end tag of the menu that `makeTree` writes closes the last element that is open, and none stays
-- open.
pub make_tree_nested :
    (rel_path : Str) (menu : Submenu)
    → All (λ c. c ≢ b'"') rel_path
    → IsPlainTree menu
    → nest (some []) (read in_text (make_tree rel_path menu)) ≡ some []
make_tree_nested rel_path menu hr h =
    ap (nest (some [])) (read-make_tree rel_path menu hr h) ∙ nest-tree rel_path menu []
