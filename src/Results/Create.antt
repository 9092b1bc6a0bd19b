-- ===== src/Results/Create.antt =====
-- docs/search/search.js, `setKeyActions`, `setClassAttr` and `createResults`: the rows that the results
-- page builds from its `searchData`.
use tiny_swarm.Prelude.{ℕ, suc, ◌+◌, Bool, List, [], ◌∷◌, ◌++◌, if◌then◌else◌}
use tiny_swarm.Text.{Str, codes, ◌==s◌}
use tiny_swarm.Text.Digits.{to_string}
use tiny_swarm.Results.Tree.{Node, Nodes, node}

-- `[url, inParent, scope]` of an entry of `searchData`.
pub record Link : Type 0 where
  pub url : Str
  pub in_parent : Bool
  pub scope : Str

-- `[id, [name, link, …]]`
pub record Entry : Type 0 where
  pub id : Str
  pub name : Str
  pub links : List Link

abbrev pub Attributes : Type 0
Attributes = List (Str × Str)

-- An element that the script creates: its name, attributes, `innerHTML` and appended elements.
mutual
  pub data Elem : Type 0 where
    elem : Str → Attributes → Str → Elems → Elem

  pub data Elems : Type 0 where
    nil : Elems
    cons : Elem → Elems → Elems

-- `setAttribute`
unfoldable pub set_attribute : Str → Str → Attributes → Attributes
set_attribute name value [] = (name, value) ∷ []
set_attribute name value ((n, v) ∷ rest) =
    if n ==s name then (n, value) ∷ rest else (n, v) ∷ set_attribute name value rest

unfoldable pub get_attribute : Str → Attributes → Str
get_attribute name [] = []
get_attribute name ((n, v) ∷ rest) = if n ==s name then v else get_attribute name rest

unfoldable pub set_key_actions : Str → Attributes → Attributes
unfolding set_attribute
set_key_actions action attributes = set_attribute (codes "onkeyup") action (
    set_attribute (codes "onkeypress") action (set_attribute (codes "onkeydown") action attributes))

unfoldable pub set_class_attr : Str → Attributes → Attributes
unfolding set_attribute
set_class_attr attr attributes =
    set_attribute (codes "className") attr (set_attribute (codes "class") attr attributes)

-- `'…' + e`
abbrev pub decimal : ℕ → Str
decimal e = to_string 10 e

unfoldable pub item_id : ℕ → Str
unfolding to_string
item_id e = codes "Item" ++ decimal e

unfoldable pub item_child_id : ℕ → ℕ → Str
unfolding item_id
item_child_id e c = item_id e ++ (codes "_c" ++ decimal c)

unfoldable pub target_of : Bool → Str
target_of in_parent = if in_parent then codes "_parent" else codes "_blank"

abbrev pub close_action : Str
close_action = codes "parent.searchBox.CloseResultsWindow()"

-- The link of one of several results.
unfoldable pub create_child : ℕ → ℕ → Link → Elem
unfolding item_child_id set_key_actions set_class_attr target_of
create_child e c link =
    elem (codes "a")
      (set_attribute (codes "target") (target_of link.in_parent) (
        set_attribute (codes "onclick") close_action (
          set_attribute (codes "href") link.url (
            set_class_attr (codes "SRScope") (
              set_key_actions
                (codes "return searchResults.NavChild(event,"
                  ++ (decimal e ++ (codes "," ++ (decimal c ++ codes ")"))))
                (set_attribute (codes "id") (item_child_id e c) []))))))
      link.scope nil

-- `for (var c=0; c<searchData[e][1].length-1; c++)`
unfoldable pub create_children : ℕ → ℕ → List Link → Elems
unfolding create_child
create_children e c [] = nil
create_children e c (link ∷ links) = cons (create_child e c link) (create_children e (c + 1) links)

-- The link of the row, up to the branch on the number of results.
unfoldable pub link_attributes : ℕ → Attributes
unfolding item_id set_key_actions set_class_attr
link_attributes e = set_class_attr (codes "SRSymbol") (
    set_key_actions (codes "return searchResults.Nav(event," ++ (decimal e ++ codes ")"))
      (set_attribute (codes "id") (item_id e) []))

-- The elements inside `SREntry`, by the results of the entry.
unfoldable pub create_entry : ℕ → Str → Str → List Link → Elems
unfolding link_attributes create_children set_class_attr target_of
create_entry e id name (link ∷ []) =
    cons
      (elem (codes "a")
        (set_attribute (codes "target") (target_of link.in_parent) (
          set_attribute (codes "onclick") close_action
            (set_attribute (codes "href") link.url (link_attributes e))))
        name nil)
      (cons (elem (codes "span") (set_class_attr (codes "SRScope") []) link.scope nil) nil)
create_entry e id name links =
    cons
      (elem (codes "a")
        (set_attribute (codes "href")
          (codes "javascript:searchResults.Toggle(\"SR_" ++ (id ++ codes "\")"))
          (link_attributes e))
        name nil)
      (cons
        (elem (codes "div") (set_class_attr (codes "SRChildren") []) [] (create_children e 0 links))
        nil)

unfoldable pub create_row : ℕ → Entry → Elem
unfolding create_entry set_class_attr
create_row e entry =
    elem (codes "div")
      (set_class_attr (codes "SRResult") (set_attribute (codes "id") (codes "SR_" ++ entry.id) []))
      []
      (cons
        (elem (codes "div") (set_class_attr (codes "SREntry") []) []
          (create_entry e entry.id entry.name entry.links))
        nil)

-- The loop over `searchData`.
unfoldable pub create_results : ℕ → List Entry → List Elem
unfolding create_row
create_results e [] = []
create_results e (entry ∷ entries) = create_row e entry ∷ create_results (e + 1) entries

-- The created elements as nodes of the page, numbered in document order from `k` on. The text in an
-- `innerHTML` is left out: it stands in no div.
unfoldable mutual
  pub count_elem : Elem → ℕ
  count_elem (elem name attributes html kids) = suc (count_elems kids)

  pub count_elems : Elems → ℕ
  count_elems nil = 0
  count_elems (cons x xs) = count_elem x + count_elems xs

unfoldable mutual
  unfolding count_elem get_attribute

  pub number : ℕ → Elem → Node
  number k (elem name attributes html kids) =
      node
        (record {
          key = k;
          node_name = name;
          class_name = get_attribute (codes "class") attributes;
        })
        (number_all (suc k) kids)

  pub number_all : ℕ → Elems → Nodes
  number_all k nil = Nodes.nil
  number_all k (cons x xs) = Nodes.cons (number k x) (number_all (k + count_elem x) xs)

abbrev pub elems_of : Elem → Elems
elems_of (elem name attributes html kids) = kids
