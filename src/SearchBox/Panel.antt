-- ===== src/SearchBox/Panel.antt =====
-- docs/search/search.js, `SearchBox`: the results popup and its close button, over all events.
use tiny_swarm.Prelude.{
  ℕ, ◌+◌, ◌-◌, ◌≡◌, refl, Bool, true, false, List, [], ◌∷◌, Option, none, some, arith, ◌==◌,
  Bool-cases, inl, inr, not, ◌&&◌, if_holds,
}
use tiny_swarm.Text.{Str, ◌==s◌, strip_spaces}
use tiny_swarm.Page.{Display, is_block, inline_block, Callback, search, close_selection_window}
use tiny_swarm.SearchBox.State.{
  Child, Config, SearchBox, After, Outcome, done, thrown, ◌>>=◌, new_search_box, kill_key_timer,
}
use tiny_swarm.SearchBox.Placement.{IsPlaced, placed_popup-IsPlaced}
use tiny_swarm.SearchBox.Handlers.{
  activate, move_focus, blur_field, focus_field, on_search_select_show, on_search_select_hide,
  close_results_window, close_selection_window_, select_item_set, focus_child,
}
use tiny_swarm.SearchBox.Search.{placed_popup, open_results, show_results, search_}
use tiny_swarm.SearchBox.Events.{
  KeyEvent, value_changed, escape_field, on_search_field_change, on_select_item,
  on_search_select_key, run_callback, step, run, Event, focus_in, focus_out, edit, mouse_over,
  mouse_out, select, menu_key, close, fire,
}

abbrev pub is_inline_block : Display → Bool
is_inline_block inline_block = true
is_inline_block _ = false

-- The close button shows exactly while the results popup is open, and the popup lies in the page.
pub record IsCoherent (cfg : Config) (s : SearchBox) : Type 0 where
  pub close_matches : is_inline_block s.close_display ≡ is_block s.results_window.display
  pub placed : is_block s.results_window.display ≡ true → IsPlaced cfg s.results_window

new-IsCoherent :
    (cfg : Config) (children : List Child) → IsCoherent cfg (new_search_box cfg children)
unfolding new_search_box
new-IsCoherent cfg children = ground arith

module _ (cfg : Config) where
  activate-IsCoherent :
      (b : Bool) (s : SearchBox) → IsCoherent cfg s → IsCoherent cfg (activate cfg b s)
  unfolding activate
  activate-IsCoherent b s h = ground arith

  blur_field-IsCoherent : (s : SearchBox) → IsCoherent cfg s → IsCoherent cfg (blur_field cfg s)
  unfolding blur_field
  blur_field-IsCoherent s h = ground arith

  focus_field-IsCoherent : (s : SearchBox) → IsCoherent cfg s → IsCoherent cfg (focus_field cfg s)
  unfolding focus_field
  focus_field-IsCoherent s h = ground arith

  focus_child-IsCoherent :
      (o : Option ℕ) (s : SearchBox) → IsCoherent cfg s → IsCoherent cfg (focus_child cfg o s)
  unfolding move_focus
  focus_child-IsCoherent o s h = ground arith

  show-IsCoherent :
      (s : SearchBox) → IsCoherent cfg s → IsCoherent cfg (on_search_select_show cfg s)
  unfolding on_search_select_show
  show-IsCoherent s h = ground arith

  kill-IsCoherent : (s : SearchBox) → IsCoherent cfg s → IsCoherent cfg (kill_key_timer s)
  unfolding kill_key_timer
  kill-IsCoherent s h = ground arith

  value_changed-IsCoherent : (s : SearchBox) → IsCoherent cfg s → IsCoherent cfg (value_changed s)
  unfolding value_changed
  value_changed-IsCoherent s h = ground arith

  escape-IsCoherent : (s : SearchBox) → IsCoherent cfg (escape_field cfg s)
  unfolding escape_field
  escape-IsCoherent s =
      activate-IsCoherent false _ (record { close_matches = refl; placed = λ e. cc })

  open-IsCoherent : (s : SearchBox) → IsCoherent cfg s → IsCoherent cfg (open_results cfg s)
  unfolding open_results placed_popup
  open-IsCoherent s h = elim (Bool-cases (is_block s.results_window.display)) [
    | inl shown ↦ rw (shown, open_results) h
    | inr closed ↦
        rw (closed, open_results)
          (record { close_matches = refl; placed = λ _. placed_popup-IsPlaced cfg })
  ]

  show_results-IsCoherent :
      (value : Str) (content : Option Str) (s : SearchBox)
      → IsCoherent cfg s
      → After (IsCoherent cfg) (show_results cfg value content s)
  unfolding show_results
  show_results-IsCoherent value none s h = record { holds = h }
  show_results-IsCoherent value (some content) s h =
      let opened =
        open-IsCoherent (record s { location = _ })
          (record { close_matches = h.close_matches; placed = h.placed }) in
      record { holds = record { close_matches = opened.close_matches; placed = opened.placed } }

  search-IsCoherent : (s : SearchBox) → IsCoherent cfg s → After (IsCoherent cfg) (search_ cfg s)
  unfolding search_
  search-IsCoherent s h =
      show_results-IsCoherent _ _ (record s { key_timeout = 0 })
        (record { close_matches = h.close_matches; placed = h.placed })

  change-IsCoherent :
      (e : KeyEvent) (s : SearchBox)
      → IsCoherent cfg s
      → IsCoherent cfg (on_search_field_change cfg e s)
  unfolding on_search_field_change
  change-IsCoherent e s h =
      let killed = kill-IsCoherent s h in
      let posted =
        value_changed-IsCoherent
          (record (kill_key_timer s) { focus_messages = (kill_key_timer s).focus_messages + 1 })
          (record { close_matches = killed.close_matches; placed = killed.placed }) in
      let shown = show-IsCoherent (kill_key_timer s) killed in
      if_holds (IsCoherent cfg) _ _ _
        (if_holds (IsCoherent cfg) e.shift_key _ _
          (focus_child-IsCoherent _ (on_search_select_show cfg (kill_key_timer s)) shown) posted)
        (if_holds (IsCoherent cfg) (e.key_code == 27) _ _ (escape-IsCoherent (kill_key_timer s))
          (value_changed-IsCoherent (kill_key_timer s) killed))

  select_item_set-IsCoherent :
      (id : ℕ) (s : SearchBox) → IsCoherent cfg s → IsCoherent cfg (select_item_set id s)
  unfolding select_item_set
  select_item_set-IsCoherent id s h = record { close_matches = h.close_matches; placed = h.placed }

  leave-IsCoherent :
      (o : Outcome)
      → After (IsCoherent cfg) o
      → After (IsCoherent cfg) (o >>= λ s'. done (focus_field cfg (close_selection_window_ s')))
  unfolding close_selection_window_
  leave-IsCoherent (thrown s) h = record { holds = h.holds }
  leave-IsCoherent (done s) h = record {
    holds =
        focus_field-IsCoherent (close_selection_window_ s)
          (record { close_matches = h.holds.close_matches; placed = h.holds.placed });
  }

  select-IsCoherent :
      (id : ℕ) (s : SearchBox) → IsCoherent cfg s → After (IsCoherent cfg) (on_select_item cfg id s)
  unfolding on_select_item
  select-IsCoherent id s h =
      let marked =
        select_item_set-IsCoherent id (record s { search_index = id })
          (record { close_matches = h.close_matches; placed = h.placed }) in
      let s' = select_item_set id (record s { search_index = id }) in
      if_holds (After (IsCoherent cfg))
        (not (strip_spaces s'.field_value ==s []) && s'.search_active) _ (done s')
        (search-IsCoherent s' marked) (record { holds = marked })

  menu_key-IsCoherent :
      (e : KeyEvent) (s : SearchBox)
      → IsCoherent cfg s
      → After (IsCoherent cfg) (on_search_select_key cfg e s)
  unfolding on_search_select_key
  menu_key-IsCoherent e s h =
      if_holds (After (IsCoherent cfg)) _ _ _ (select-IsCoherent (s.search_index + 1) s h) (
        if_holds (After (IsCoherent cfg)) _ _ _ (select-IsCoherent (s.search_index - 1) s h) (
          if_holds (After (IsCoherent cfg)) _ _ _
            (leave-IsCoherent (on_select_item cfg s.search_index s)
              (select-IsCoherent s.search_index s h))
            (let kept : After (IsCoherent cfg) (done s) = record { holds = h } in kept)))

  hide-IsCoherent : (s : SearchBox) → IsCoherent cfg s → IsCoherent cfg (on_search_select_hide s)
  unfolding on_search_select_hide
  hide-IsCoherent s h = ground arith

  close-IsCoherent : (s : SearchBox) → IsCoherent cfg (close_results_window cfg s)
  unfolding close_results_window
  close-IsCoherent s = ground arith

  callback-IsCoherent :
      (c : Callback) (s : SearchBox)
      → IsCoherent cfg s
      → After (IsCoherent cfg) (run_callback cfg c s)
  unfolding run_callback close_selection_window_
  callback-IsCoherent search s h = search-IsCoherent s h
  callback-IsCoherent close_selection_window s h = record {
    holds = record { close_matches = h.close_matches; placed = h.placed };
  }

  -- Every event keeps the close button in step with the popup, and the popup inside the page.
  pub step-IsCoherent :
      (e : Event) (s : SearchBox) → IsCoherent cfg s → After (IsCoherent cfg) (step cfg e s)
  unfolding step
  step-IsCoherent focus_in s h = record { holds = focus_field-IsCoherent s h }
  step-IsCoherent focus_out s h = record { holds = blur_field-IsCoherent s h }
  step-IsCoherent (edit value e) s h = record {
    holds =
        change-IsCoherent e (record s { field_value = value })
          (record { close_matches = h.close_matches; placed = h.placed });
  }
  step-IsCoherent mouse_over s h = record { holds = show-IsCoherent s h }
  step-IsCoherent mouse_out s h = record { holds = hide-IsCoherent s h }
  step-IsCoherent (select id) s h = select-IsCoherent id s h
  step-IsCoherent (menu_key e) s h = menu_key-IsCoherent e s h
  step-IsCoherent close s h = record { holds = close-IsCoherent s }
  step-IsCoherent (fire t) s h =
      callback-IsCoherent t.callback (record s { timers = _ })
        (record { close_matches = h.close_matches; placed = h.placed })

run_from-IsCoherent :
    (cfg : Config) (es : List Event) (s : SearchBox)
    → IsCoherent cfg s
    → IsCoherent cfg (run cfg es s)
unfolding run
run_from-IsCoherent cfg [] s h = h
run_from-IsCoherent cfg (e ∷ es) s h =
    run_from-IsCoherent cfg es _ (step-IsCoherent cfg e s h).holds

-- From the page as it is loaded, after any events: the close button shows exactly while the results
-- popup is open, and an open popup starts at pixel 10 or later, is at most 400 wide, and leaves 8
-- pixels of the page at its right.
pub run-IsCoherent :
    (cfg : Config) (children : List Child) (es : List Event)
    → IsCoherent cfg (run cfg es (new_search_box cfg children))
run-IsCoherent cfg children es = run_from-IsCoherent cfg es _ (new-IsCoherent cfg children)
