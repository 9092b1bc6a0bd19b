-- ===== src/Menu/Markup.antt =====
-- docs/menu.js, `makeTree`: what a reader of markup finds in the menu.
use tiny_swarm.Prelude.{
  ℕ, ◌≡◌, ◌≢◌, refl, sym, ap, ◌∙◌, List, [], ◌∷◌, ◌++◌, append_assoc, append-nil, if_holds,
  All-append, ◌==◌, if◌then◌else◌, arith, All, map,
}
use tiny_swarm.Text.{Str, codes}
use tiny_swarm.Menu.Tree.{
  Item, Submenu, Items, item, no_children, children, nil, cons, resolve_url, make_tree, make_items,
  make_item,
}

-- What a reader of markup finds: a tag with its name, a value in quotes, or a unit of text.
pub data Token : Type 0 where
  tag : Str → Token
  value : Str → Token
  unit : ℕ → Token

-- Where a reader stands: in text, in the name of a tag, behind the name, or in quotes; with the units
-- of the name or value that it has read, in order.
pub data Mode : Type 0 where
  in_text : Mode
  in_name : Str → Mode
  in_tag : Mode
  in_quotes : Str → Mode

-- The reader. A name ends at a blank or at `>`.
unfoldable pub read : Mode → Str → List Token
read in_text [] = []
read in_text (c ∷ s) = if c == b'<' then read (in_name []) s else unit c ∷ read in_text s
read (in_name name) [] = []
read (in_name name) (c ∷ s) =
    if c == b'>'
    then tag name ∷ read in_text s
    else if c == b' '
    then tag name ∷ read in_tag s
    else read (in_name (name ++ (c ∷ []))) s
read in_tag [] = []
read in_tag (c ∷ s) =
    if c == b'>' then read in_text s else if c == b'"' then read (in_quotes []) s else read in_tag s
read (in_quotes v) [] = []
read (in_quotes v) (c ∷ s) =
    if c == b'"' then value v ∷ read in_tag s else read (in_quotes (v ++ (c ∷ []))) s

-- The tokens that the menu means.
unfoldable mutual
  unfolding resolve_url

  pub tree_tokens : Str → Submenu → List Token
  tree_tokens rel_path no_children = []
  tree_tokens rel_path (children items) =
      tag (codes "ul") ∷ (item_list_tokens rel_path items ++ (tag (codes "/ul") ∷ []))

  pub item_list_tokens : Str → Items → List Token
  item_list_tokens rel_path nil = []
  item_list_tokens rel_path (cons i items) =
      item_tokens rel_path i ++ item_list_tokens rel_path items

  pub item_tokens : Str → Item → List Token
  item_tokens rel_path (item text link menu) =
      tag (codes "li")
      ∷ tag (codes "a")
      ∷ value (resolve_url rel_path link)
      ∷ (map unit text
          ++ (tag (codes "/a") ∷ (tree_tokens rel_path menu ++ (tag (codes "/li") ∷ []))))

-- No text of the menu has a `<`, and no link a quotation mark.
unfoldable mutual
  pub IsPlainTree : Submenu → Type 0
  IsPlainTree no_children = Unit
  IsPlainTree (children items) = ArePlain items

  pub ArePlain : Items → Type 0
  ArePlain nil = Unit
  ArePlain (cons i items) = IsPlainItem i × ArePlain items

  pub IsPlainItem : Item → Type 0
  IsPlainItem (item text link menu) =
      All (λ c. c ≢ b'<') text × All (λ c. c ≢ b'"') link × IsPlainTree menu

read-text :
    (text s : Str)
    → All (λ c. c ≢ b'<') text
    → read in_text (text ++ s) ≡ map unit text ++ read in_text s
unfolding read
read-text [] s h = refl
read-text (c ∷ text) s h = ground (arith, h.0, read-text text s h.1)

read-quotes :
    (link v s : Str)
    → All (λ c. c ≢ b'"') link
    → read (in_quotes v) (link ++ (b'"' ∷ s)) ≡ value (v ++ link) ∷ read in_tag s
unfolding read
read-quotes [] v s h = ap (λ w. value w ∷ read in_tag s) (sym (append-nil v))
read-quotes (c ∷ link) v s h =
    ground (arith, h.0, read-quotes link (v ++ (c ∷ [])) s h.1, append_assoc v (c ∷ []) link)

resolve_url-All :
    (rel_path link : Str)
    → All (λ c. c ≢ b'"') rel_path
    → All (λ c. c ≢ b'"') link
    → All (λ c. c ≢ b'"') (resolve_url rel_path link)
unfolding resolve_url
resolve_url-All rel_path [] hr hl = All-append _ rel_path [] hr hl
resolve_url-All rel_path (c ∷ link) hr hl =
    if_holds (All (λ c. c ≢ b'"')) (c == b'^') _ _ hl.1 (All-append _ rel_path (c ∷ link) hr hl)

-- The texts of an item and of a submenu, with what stands behind them.
make_item-append :
    (rel_path text link : Str) (menu : Submenu) (s : Str)
    → make_item rel_path (item text link menu) ++ s
      ≡ codes "<li><a href=\""
        ++ (resolve_url rel_path link
            ++ (codes "\">"
                ++ (text ++ (codes "</a>" ++ (make_tree rel_path menu ++ (codes "</li>" ++ s))))))
unfolding make_item
make_item-append rel_path text link menu s = simp (append_assoc)

-- The tokens of a link, with those behind it.
abbrev link_tokens : Str → Str → List Token → List Token
link_tokens url text behind =
    tag (codes "li") ∷ tag (codes "a") ∷ value url ∷ (map unit text ++ behind)

read-link :
    (url text s : Str)
    → All (λ c. c ≢ b'"') url
    → All (λ c. c ≢ b'<') text
    → read in_text (codes "<li><a href=\"" ++ (url ++ (codes "\">" ++ (text ++ s))))
      ≡ link_tokens url text (read in_text s)
unfolding read
read-link url text s hu ht =
    ap (λ r. tag (codes "li") ∷ tag (codes "a") ∷ r) (read-quotes url [] (b'>' ∷ (text ++ s)) hu)
    ∙ ap (λ r. tag (codes "li") ∷ tag (codes "a") ∷ value url ∷ r) (read-text text s ht)

mutual
  unfolding read make_tree make_items make_item tree_tokens item_list_tokens item_tokens IsPlainTree
      ArePlain IsPlainItem

  read-tree :
      (rel_path : Str) (menu : Submenu) (s : Str)
      → All (λ c. c ≢ b'"') rel_path
      → IsPlainTree menu
      → read in_text (make_tree rel_path menu ++ s) ≡ tree_tokens rel_path menu ++ read in_text s
  read-tree rel_path no_children s hr h = refl
  read-tree rel_path (children items) s hr h =
      ap (λ r. tag (codes "ul") ∷ r)
        (ap (read in_text) (append_assoc (make_items rel_path items) (codes "</ul>") s)
          ∙ read-items rel_path items (codes "</ul>" ++ s) hr h
          ∙ sym (
              append_assoc (item_list_tokens rel_path items) (tag (codes "/ul") ∷ [])
                (read in_text s)))

  read-items :
      (rel_path : Str) (items : Items) (s : Str)
      → All (λ c. c ≢ b'"') rel_path
      → ArePlain items
      → read in_text (make_items rel_path items ++ s)
        ≡ item_list_tokens rel_path items ++ read in_text s
  read-items rel_path nil s hr h = refl
  read-items rel_path (cons i items) s hr h =
      ap (read in_text) (append_assoc (make_item rel_path i) (make_items rel_path items) s)
      ∙ read-item rel_path i (make_items rel_path items ++ s) hr h.0
      ∙ ap (λ r. item_tokens rel_path i ++ r) (read-items rel_path items s hr h.1)
      ∙ sym
          (append_assoc (item_tokens rel_path i) (item_list_tokens rel_path items) (read in_text s))

  read-item :
      (rel_path : Str) (i : Item) (s : Str)
      → All (λ c. c ≢ b'"') rel_path
      → IsPlainItem i
      → read in_text (make_item rel_path i ++ s) ≡ item_tokens rel_path i ++ read in_text s
  read-item rel_path (item text link menu) s hr h =
      let behind = codes "</a>" ++ (make_tree rel_path menu ++ (codes "</li>" ++ s)) in
      let inside = tree_tokens rel_path menu ++ (tag (codes "/li") ∷ []) in
      ap (read in_text) (make_item-append rel_path text link menu s)
      ∙ read-link (resolve_url rel_path link) text behind (resolve_url-All rel_path link hr h.1) h.0
      ∙ ap (λ r. link_tokens (resolve_url rel_path link) text (tag (codes "/a") ∷ r))
          (read-tree rel_path menu (codes "</li>" ++ s) hr h.2
            ∙ sym (
                append_assoc (tree_tokens rel_path menu) (tag (codes "/li") ∷ []) (read in_text s)))
      ∙ ap (λ r. tag (codes "li") ∷ tag (codes "a") ∷ value (resolve_url rel_path link) ∷ r)
          (sym (append_assoc (map unit text) (tag (codes "/a") ∷ inside) (read in_text s)))

-- If no text of the menu has a `<` and neither a link nor `relPath` has a quotation mark, then a
-- reader of markup finds in the menu that `makeTree` writes just its items in order: each as a list
-- item with a link to its resolved address, its text, and the list of its own children.
pub read-make_tree :
    (rel_path : Str) (menu : Submenu)
    → All (λ c. c ≢ b'"') rel_path
    → IsPlainTree menu
    → read in_text (make_tree rel_path menu) ≡ tree_tokens rel_path menu
unfolding read
read-make_tree rel_path menu hr h =
    ap (read in_text) (sym (append-nil (make_tree rel_path menu)))
    ∙ read-tree rel_path menu [] hr h
    ∙ append-nil (tree_tokens rel_path menu)
