-- ===== src/Menu/Tree.antt =====
-- docs/menu.js, `makeTree`: the markup of the menu.
use tiny_swarm.Prelude.{[], ◌∷◌, ◌++◌, ◌==◌, if◌then◌else◌}
use tiny_swarm.Text.{Str, codes}

-- An item of docs/menudata.js: its text, its `url`, and its `children`, if it has that field.
mutual
  pub data Item : Type 0 where
    item : Str → Str → Submenu → Item

  pub data Submenu : Type 0 where
    no_children : Submenu
    children : Items → Submenu

  pub data Items : Type 0 where
    nil : Items
    cons : Item → Items → Items

-- A link that begins with `^` is taken as it is, any other below `relPath`.
unfoldable pub resolve_url : Str → Str → Str
resolve_url rel_path [] = rel_path ++ []
resolve_url rel_path (c ∷ link) = if c == b'^' then link else rel_path ++ (c ∷ link)

unfoldable mutual
  unfolding resolve_url

  pub make_tree : Str → Submenu → Str
  make_tree rel_path no_children = []
  make_tree rel_path (children items) = codes "<ul>" ++ (make_items rel_path items ++ codes "</ul>")

  -- The loop over `data.children`.
  pub make_items : Str → Items → Str
  make_items rel_path nil = []
  make_items rel_path (cons i items) = make_item rel_path i ++ make_items rel_path items

  pub make_item : Str → Item → Str
  make_item rel_path (item text link menu) =
      codes "<li><a href=\""
      ++ (resolve_url rel_path link
          ++ (codes "\">"
              ++ (text ++ (codes "</a>" ++ (make_tree rel_path menu ++ codes "</li>")))))
