-- ===== src/SearchBox/Focusing.antt =====
-- docs/search/search.js, `SearchBox`: closing the panel, and what a search leaves behind.
use tiny_swarm.Prelude.{ℕ, ◌≡◌, ap, ◌∙◌, true, false, ◌||◌, [], ◌∷◌, some, arith, ◌==◌, get_elem?}
use tiny_swarm.Text.{Str, ◌==s◌, strip_spaces, strip_leading}
use tiny_swarm.Page.{Timer, hidden, search, is_block, clear_timeout}
use tiny_swarm.SearchBox.State.{search_field, Config, SearchBox, state_of, kill_key_timer}
use tiny_swarm.SearchBox.Handlers.{activate, blur_field, close_results_window}
use tiny_swarm.SearchBox.Search.{search_, show_results, open_results}
use tiny_swarm.SearchBox.Query.{search_lem}
use tiny_swarm.SearchBox.Events.{
  KeyEvent, value_changed, escape_field, on_search_field_change, step, fire,
}

-- The panel as it stands before its first use, but for the chosen section and the frame's URL.
pub record IsReset (cfg : Config) (s : SearchBox) : Type 0 where
  pub inactive : s.box_active ≡ false
  pub not_searching : s.search_active ≡ false
  pub label_shown : s.field_value ≡ cfg.search_label
  pub no_value : s.last_search_value ≡ []
  pub no_page : s.last_results_page ≡ []
  pub no_popup : s.results_window.display ≡ hidden
  pub no_button : s.close_display ≡ hidden

abbrev pub escape_key : KeyEvent
escape_key = record { key_code = 27; shift_key = false }

escape_field-IsReset : (cfg : Config) (s : SearchBox) → IsReset cfg (escape_field cfg s)
unfolding escape_field activate
escape_field-IsReset cfg s = ground arith

close-IsReset : (cfg : Config) (s : SearchBox) → IsReset cfg (close_results_window cfg s)
unfolding close_results_window activate
close-IsReset cfg s = ground arith

-- The close button and the escape key bring the panel back, whatever its state: it is inactive, shows
-- its label, remembers no search, and its popup and close button are hidden.
pub close_and_escape :
    (cfg : Config) (s : SearchBox)
    → IsReset cfg (close_results_window cfg s)
      × IsReset cfg (on_search_field_change cfg escape_key s)
unfolding on_search_field_change
close_and_escape cfg s = (close-IsReset cfg s, escape_field-IsReset cfg (kill_key_timer s))

-- What the focus leaves behind if no popup is open.
record IsLeft (cfg : Config) (s t : SearchBox) : Type 0 where
  same_timers : t.timers ≡ s.timers
  same_section : t.search_index ≡ s.search_index
  inactive : t.box_active ≡ false
  label_shown : t.field_value ≡ cfg.search_label

blur-IsLeft :
    (cfg : Config) (s : SearchBox)
    → s.focus ≡ search_field
    → is_block s.results_window.display ≡ false
    → IsLeft cfg s (blur_field cfg s)
unfolding blur_field activate
blur-IsLeft cfg s focused closed = ground arith

search-box_active :
    (cfg : Config) (s : SearchBox) → (state_of (search_ cfg s)).box_active ≡ s.box_active
unfolding search_ show_results open_results
search-box_active cfg s = ground arith

fire-search :
    (cfg : Config) (t : Timer) (s : SearchBox)
    → t.callback ≡ search
    → step cfg (fire t) s ≡ search_ cfg (record s { timers = clear_timeout t.id s.timers })
unfolding step
fire-search cfg t s e = rw e

-- A search that the user has not waited for is not given up when the field loses the focus. If no
-- popup is open, the panel turns inactive and the field takes its label back; the timer stays, and
-- when it fires the panel opens the results for its own label.
pub blur_searches_label :
    (cfg : Config) (s : SearchBox) (t : Timer) (c : ℕ) (label content : Str)
    → s.focus ≡ search_field
    → is_block s.results_window.display ≡ false
    → t.callback ≡ search
    → strip_leading cfg.search_label ≡ c ∷ label
    → get_elem? cfg.sections_with_content s.search_index ≡ some content
    → let left = blur_field cfg s in
      let fired = state_of (step cfg (fire t) left) in
      (left.timers ≡ s.timers)
      × (left.box_active ≡ false)
      × (fired.box_active ≡ false)
      × (fired.last_search_value ≡ c ∷ label)
      × (is_block fired.results_window.display ≡ true)
blur_searches_label cfg s t c label content focused closed searching text found =
    let left = blur_field cfg s in
    let gone = blur-IsLeft cfg s focused closed in
    let s₁ = record left { timers = clear_timeout t.id left.timers } in
    let r =
      search_lem cfg s₁ c label content (ap strip_leading gone.label_shown ∙ text)
        (ap (get_elem? cfg.sections_with_content) gone.same_section ∙ found) in
    let fired = fire-search cfg t left searching in
    let ends = ap state_of (fired ∙ r.1) in
    (
      gone.same_timers,
      gone.inactive,
      ap (λ o. (state_of o).box_active) fired ∙ search-box_active cfg s₁ ∙ gone.inactive,
      ap (λ (q : SearchBox). q.last_search_value) ends ∙ r.3,
      ap (λ (q : SearchBox). is_block q.results_window.display) ends ∙ r.5,
    )

-- Behind a search a key that changes nothing (neither down, enter nor escape) is taken for a change of
-- the text exactly if there is a space behind the first word: then, and only then, a second search
-- for the same text is started.
pub key_repeats_search :
    (cfg : Config) (e : KeyEvent) (s : SearchBox)
    → (e.key_code == 40 || e.key_code == 13) ≡ false
    → (e.key_code == 27) ≡ false
    → s.key_timeout ≡ 0
    → s.last_search_value ≡ strip_leading s.field_value
    → (strip_spaces s.field_value ==s []) ≡ false
    → ((on_search_field_change cfg e s).key_timeout == 0)
      ≡ (strip_spaces s.field_value ==s strip_leading s.field_value)
unfolding on_search_field_change kill_key_timer value_changed
key_repeats_search cfg e s k1 k2 quiet last filled = ground arith
