-- ===== src/Menu/Tests.antt =====
-- Runs of the menu's functions, and their theorems at concrete menus.
use tiny_swarm.Prelude.{◌≡◌, refl, [], ◌∷◌, some, arith}
use tiny_swarm.Text.{codes}
use tiny_swarm.Menu.Tree.{Submenu, item, no_children, children, nil, cons, resolve_url, make_tree}
use tiny_swarm.Menu.Markup.{in_text, read, tree_tokens, IsPlainTree, read-make_tree}
use tiny_swarm.Menu.Nesting.{nest}
use tiny_swarm.Menu.Layout.{server_box, client_box, new_layout, resize}
use tiny_swarm.Menu.SearchMarkup.{search_box_open}
use tiny_swarm.Menu.Resizing.{IsPlaced, resize_lem}

-- A page, and a link to another site with a page below it.
abbrev two_items : Submenu
two_items = children (
    cons (item (codes "Main") (codes "index.html") no_children) (
      cons
        (item (codes "C") (codes "^http:")
          (children (cons (item (codes "D") (codes "d.html") no_children) nil)))
        nil))

two_items_markup :
    make_tree (codes "../") two_items
    ≡ codes
        "<ul><li><a href=\"../index.html\">Main</a></li><li><a href=\"http:\">C</a><ul><li><a href=\"../d.html\">D</a></li></ul></li></ul>"
unfolding make_tree resolve_url
two_items_markup = refl

read-make_tree_example :
    read in_text (make_tree (codes "../") two_items) ≡ tree_tokens (codes "../") two_items
unfolding IsPlainTree
read-make_tree_example = read-make_tree (codes "../") two_items (ground arith) (ground arith)

resize_lem_example :
    IsPlaced
      (codes "box")
      500
      (resize (some (codes "box")) (1024 ∷ 500 ∷ []) (new_layout (some (codes "box"))))
resize_lem_example = resize_lem b'b' (codes "ox") (1024 ∷ []) 500 (ground arith) (omega arith)

search_box_open_example :
    (nest (some []) (read in_text (server_box (codes "../") (codes "s.php") (codes "Search")))
      ≡ some [])
    × (nest (some []) (read in_text (client_box (codes "../") (codes "Search")))
        ≡ some (codes "span" ∷ codes "div" ∷ []))
search_box_open_example =
    search_box_open (codes "../") (codes "s.php") (codes "Search") (ground arith) (ground arith)
      (ground arith)
