-- ===== src/Menu/SearchMarkup.antt =====
-- docs/menu.js, `initMenu`: the tags of the search box.
use tiny_swarm.Prelude.{◌≡◌, ◌≢◌, refl, ◌∙◌, List, [], ◌∷◌, ◌++◌, Option, none, some, arith, All}
use tiny_swarm.Text.{Str, codes, ◌==s◌}
use tiny_swarm.Menu.Markup.{in_text, in_quotes, read}
use tiny_swarm.Menu.Nesting.{nest, apply, leave, is_void}
use tiny_swarm.Menu.Layout.{
  server_box, client_box, server_icon, server_field, server_end, client_field, client_close,
  client_end,
}

abbrev pub IsQuotable : Str → Type 0
IsQuotable s = All (λ c. c ≢ b'"') s

-- What is read inside quotes has no effect on the elements that are open.
nest-in_quotes :
    (o : Option (List Str)) (v w s : Str)
    → nest o (read (in_quotes v) s) ≡ nest o (read (in_quotes w) s)
unfolding nest apply read
nest-in_quotes none v w s = refl
nest-in_quotes (some open_elements) v w [] = refl
nest-in_quotes (some open_elements) v w (c ∷ s) =
    ground (arith, nest-in_quotes (some open_elements) (v ++ (c ∷ [])) (w ++ (c ∷ [])) s)

skip_value :
    (o : Option (List Str)) (v t s : Str)
    → IsQuotable t
    → nest o (read (in_quotes v) (t ++ s)) ≡ nest o (read (in_quotes []) s)
unfolding read
skip_value o v [] s h = nest-in_quotes o v [] s
skip_value o v (c ∷ t) s h = ground (arith, h.0, skip_value o (v ++ (c ∷ [])) t s h.1)

-- If no argument has a quotation mark, every end tag of the server's search box closes the last element
-- that is open, and none stays open. In the page's own search box every end tag closes the last open
-- element too, but its second `span` and its `div` stay open.
pub search_box_open :
    (rel_path search_page search : Str)
    → IsQuotable rel_path
    → IsQuotable search_page
    → IsQuotable search
    → (nest (some []) (read in_text (server_box rel_path search_page search)) ≡ some [])
      × (nest (some []) (read in_text (client_box rel_path search))
          ≡ some (codes "span" ∷ codes "div" ∷ []))
unfolding server_box client_box nest leave is_void read ◌==s◌
search_box_open rel_path search_page search hr hp hs =
    let form = some (codes "form" ∷ codes "div" ∷ codes "div" ∷ []) in
    let left = some (codes "span" ∷ codes "div" ∷ []) in
    let link = some (codes "a" ∷ codes "span" ∷ codes "div" ∷ []) in
    let field = server_field ++ (search ++ server_end) in
    let icon = server_icon ++ (rel_path ++ field) in
    (
      skip_value form [] rel_path (search_page ++ icon) hr
          ∙ skip_value form [] search_page icon hp
          ∙ skip_value form [] rel_path field hr
          ∙ skip_value form [] search server_end hs,
      skip_value left [] rel_path
            (client_field ++ (search ++ (client_close ++ (rel_path ++ client_end)))) hr
          ∙ skip_value left [] search (client_close ++ (rel_path ++ client_end)) hs
          ∙ skip_value link [] rel_path client_end hr,
    )
