-- ===== src/SearchBox/Events.antt =====
-- docs/search/search.js, `SearchBox`: the handlers of the keys and of the filter menu.
use tiny_swarm.Prelude.{
  ℕ, ◌+◌, ◌-◌, Bool, false, ◌&&◌, ◌||◌, not, List, [], ◌∷◌, ltb, ◌==◌, if◌then◌else◌,
}
use tiny_swarm.Text.{Str, ◌==s◌, strip_spaces}
use tiny_swarm.Page.{hidden, search, close_selection_window, Timer, Callback, clear_timeout}
use tiny_swarm.SearchBox.State.{
  Config, SearchBox, Outcome, done, ◌>>=◌, state_of, set_timeout, kill_key_timer,
  key_timeout_length,
}
use tiny_swarm.SearchBox.Handlers.{
  activate, blur_field, focus_field, on_search_select_show, on_search_select_hide,
  close_results_window, close_selection_window_, select_item_count, select_item_set, first_item,
  focus_child,
}
use tiny_swarm.SearchBox.Search.{search_}

pub record KeyEvent : Type 0 where
  pub key_code : ℕ
  pub shift_key : Bool

-- The last part of `OnSearchFieldChange`: compare the value without its spaces to the last search.
unfoldable pub value_changed : SearchBox → SearchBox
unfolding set_timeout
value_changed s =
    let value = strip_spaces s.field_value in
    if value ==s s.last_search_value
    then s
    else if value ==s []
    then record s {
      results_window = record s.results_window { display = hidden };
      close_display = hidden;
      last_search_value = [];
    }
    else let (s', id) = set_timeout search key_timeout_length s in record s' { key_timeout = id }

-- The branch of the escape key.
unfoldable pub escape_field : Config → SearchBox → SearchBox
escape_field cfg s =
    let s' = blur_field cfg s in
    activate cfg false (record s' {
      results_window = record s'.results_window { display = hidden };
      close_display = hidden;
      last_search_value = [];
    })

unfoldable pub on_search_field_change : Config → KeyEvent → SearchBox → SearchBox
on_search_field_change cfg e s₀ =
    let s = kill_key_timer s₀ in
    if e.key_code == 40 || e.key_code == 13
    then (if e.shift_key
        then (let shown = on_search_select_show cfg s in
            focus_child cfg (first_item 0 shown.children) shown)
        else value_changed (record s { focus_messages = s.focus_messages + 1 }))
    else if e.key_code == 27
    then escape_field cfg s
    else value_changed s

unfoldable pub on_select_item : Config → ℕ → SearchBox → Outcome
on_select_item cfg id s =
    let s' = select_item_set id (record s { search_index = id }) in
    if not (strip_spaces s'.field_value ==s []) && s'.search_active then search_ cfg s' else done s'

unfoldable pub on_search_select_key : Config → KeyEvent → SearchBox → Outcome
on_search_select_key cfg e s =
    if e.key_code == 40 && ltb s.search_index (select_item_count s)
    then on_select_item cfg (s.search_index + 1) s
    else if e.key_code == 38 && ltb 0 s.search_index
    then on_select_item cfg (s.search_index - 1) s
    else if e.key_code == 13 || e.key_code == 27
    then (on_select_item cfg s.search_index s >>= λ s'.
        done (focus_field cfg (close_selection_window_ s')))
    else done s

-- What the user, the page and its timers do to the panel.
pub data Event : Type 0 where
  -- the user gives the field the focus, or takes it away
  focus_in focus_out : Event
  -- the user edits the text, and the key goes up
  edit : Str → KeyEvent → Event
  mouse_over mouse_out : Event
  select : ℕ → Event
  menu_key : KeyEvent → Event
  close : Event
  -- a timer fires
  fire : Timer → Event

unfoldable pub run_callback : Config → Callback → SearchBox → Outcome
run_callback cfg close_selection_window s = done (close_selection_window_ s)
run_callback cfg search s = search_ cfg s

unfoldable pub step : Config → Event → SearchBox → Outcome
unfolding run_callback
step cfg focus_in s = done (focus_field cfg s)
step cfg focus_out s = done (blur_field cfg s)
step cfg (edit value e) s = done (on_search_field_change cfg e (record s { field_value = value }))
step cfg mouse_over s = done (on_search_select_show cfg s)
step cfg mouse_out s = done (on_search_select_hide s)
step cfg (select id) s = on_select_item cfg id s
step cfg (menu_key e) s = on_search_select_key cfg e s
step cfg close s = done (close_results_window cfg s)
step cfg (fire t) s =
    run_callback cfg t.callback (record s { timers = clear_timeout t.id s.timers })

-- A throw ends the handler; the page goes on from the state that the handler left.
unfoldable pub run : Config → List Event → SearchBox → SearchBox
run cfg [] s = s
run cfg (e ∷ es) s = run cfg es (state_of (step cfg e s))
