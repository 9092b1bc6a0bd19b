-- ===== src/SearchBox/Timers.antt =====
-- docs/search/search.js, `SearchBox`: the timer of the next search.
use tiny_swarm.Prelude.{
  not, ◌&&◌, ◌||◌, ℕ, ◌+◌, ◌≡◌, refl, ap, Bool, true, false, List, [], ◌∷◌, Option, some, arith,
  ◌==◌, if◌then◌else◌, get_elem?, if_holds,
}
use tiny_swarm.Text.{Str, ◌==s◌, strip_spaces}
use tiny_swarm.Page.{Timer, Callback, search, close_selection_window, clear_timeout}
use tiny_swarm.SearchBox.State.{
  Config, SearchBox, state_of, kill_key_timer, kill_hide_timer, key_timeout_length, set_timeout,
}
use tiny_swarm.SearchBox.Handlers.{
  activate, move_focus, blur_field, focus_child, first_item, on_search_select_show, select_item_set,
}
use tiny_swarm.SearchBox.Search.{search_, show_results, open_results}
use tiny_swarm.SearchBox.Events.{
  KeyEvent, value_changed, escape_field, on_search_field_change, on_select_item,
}

abbrev is_search : Callback → Bool
is_search search = true
is_search close_selection_window = false

-- The timers that will search, newest first.
abbrev pub pending : List Timer → List Timer
pending [] = []
pending (t ∷ ts) = if is_search t.callback then t ∷ pending ts else pending ts

abbrev pub search_timer : ℕ → Timer
search_timer id = record { id = id; callback = search; delay = key_timeout_length }

-- The key timer is the one search that is pending, and there is none if it is 0.
pub record IsTimed (s : SearchBox) : Type 0 where
  pub one_search :
      pending s.timers ≡ (if s.key_timeout == 0 then [] else search_timer s.key_timeout ∷ [])

-- No search is pending, and none is named.
record IsQuiet (s : SearchBox) : Type 0 where
  none_pending : pending s.timers ≡ []
  none_named : s.key_timeout ≡ 0

IsQuiet-IsTimed : (s : SearchBox) → IsQuiet s → IsTimed s
IsQuiet-IsTimed s q = ground arith

pending-clear_timeout :
    (id : ℕ) (ts : List Timer) → pending (clear_timeout id ts) ≡ clear_timeout id (pending ts)
unfolding clear_timeout
pending-clear_timeout id [] = refl
pending-clear_timeout id (t ∷ ts) = ground (arith, pending-clear_timeout id ts)

kill-IsQuiet : (s : SearchBox) → IsTimed s → IsQuiet (kill_key_timer s)
unfolding kill_key_timer clear_timeout
kill-IsQuiet s h = ground (
  arith,
  pending-clear_timeout s.key_timeout s.timers,
  ap (clear_timeout s.key_timeout) h.one_search,
)

show-IsQuiet : (cfg : Config) (s : SearchBox) → IsQuiet s → IsQuiet (on_search_select_show cfg s)
unfolding on_search_select_show kill_hide_timer clear_timeout
show-IsQuiet cfg s q = ground (
  arith,
  pending-clear_timeout s.hide_timeout s.timers,
  ap (clear_timeout s.hide_timeout) q.none_pending,
)

focus_child-IsQuiet :
    (cfg : Config) (o : Option ℕ) (s : SearchBox) → IsQuiet s → IsQuiet (focus_child cfg o s)
unfolding move_focus
focus_child-IsQuiet cfg o s q = ground arith

escape-IsQuiet : (cfg : Config) (s : SearchBox) → IsQuiet s → IsQuiet (escape_field cfg s)
unfolding escape_field blur_field activate
escape-IsQuiet cfg s q = ground arith

value_changed-IsTimed : (s : SearchBox) → IsQuiet s → IsTimed (value_changed s)
unfolding value_changed
value_changed-IsTimed s q = ground arith

-- Whether a key in the field is to start the timer of a search: not the escape key, nor an arrow down or
-- return with shift, and the value without its spaces is neither empty nor that of the last search.
abbrev pub starts_timer : KeyEvent → SearchBox → Bool
starts_timer e s =
    not ((e.key_code == 40 || e.key_code == 13) && e.shift_key)
    && not (e.key_code == 27)
    && not (strip_spaces s.field_value ==s s.last_search_value)
    && not (strip_spaces s.field_value ==s [])

-- The timer that the next `setTimeout` makes, if one is made.
abbrev pub new_search : Bool → SearchBox → List Timer
new_search true s = search_timer (s.last_timer + 1) ∷ []
new_search false s = []

value_changed-pending :
    (s : SearchBox)
    → IsQuiet s
    → pending (value_changed s).timers
      ≡ new_search
          (not (strip_spaces s.field_value ==s s.last_search_value)
            && not (strip_spaces s.field_value ==s []))
          s
unfolding value_changed set_timeout
value_changed-pending s q = ground (arith, q.none_pending)

posted : SearchBox → SearchBox
posted k = record k { focus_messages = k.focus_messages + 1 }

posted-IsQuiet : (k : SearchBox) → IsQuiet k → IsQuiet (posted k)
unfolding posted
posted-IsQuiet k q = record { none_pending = q.none_pending; none_named = q.none_named }

change-IsTimed_only :
    (cfg : Config) (e : KeyEvent) (s : SearchBox)
    → IsTimed s
    → IsTimed (on_search_field_change cfg e s)
unfolding on_search_field_change posted
change-IsTimed_only cfg e s h =
    let k = kill_key_timer s in
    let quiet = kill-IsQuiet s h in
    if_holds IsTimed _ _ _
      (if_holds IsTimed e.shift_key _ _
        (IsQuiet-IsTimed _ (focus_child-IsQuiet cfg _ _ (show-IsQuiet cfg k quiet)))
        (value_changed-IsTimed _ (posted-IsQuiet k quiet)))
      (if_holds IsTimed (e.key_code == 27) _ _ (IsQuiet-IsTimed _ (escape-IsQuiet cfg k quiet))
        (value_changed-IsTimed k quiet))

kill-same :
    (s : SearchBox)
    → ((kill_key_timer s).last_timer ≡ s.last_timer)
      × ((kill_key_timer s).field_value ≡ s.field_value)
      × ((kill_key_timer s).last_search_value ≡ s.last_search_value)
unfolding kill_key_timer
kill-same s = ground arith

change-pending :
    (cfg : Config) (e : KeyEvent) (s : SearchBox)
    → IsTimed s
    → pending (on_search_field_change cfg e s).timers ≡ new_search (starts_timer e s) s
unfolding on_search_field_change posted
change-pending cfg e s h =
    let k = kill_key_timer s in
    let quiet = kill-IsQuiet s h in
    let shown = on_search_select_show cfg k in
    ground (
      arith,
      (focus_child-IsQuiet cfg (first_item 0 shown.children) shown
          (show-IsQuiet cfg k quiet)).none_pending,
      (escape-IsQuiet cfg k quiet).none_pending,
      value_changed-pending (posted k) (posted-IsQuiet k quiet),
      value_changed-pending k quiet,
      kill-same s,
    )

-- If the key timer is the one pending search, or none is pending, then so it is behind every key in the
-- search field; and the searches that are pending then are the new timer, whose number follows that of
-- the last timer, if the key is to start one, and else none: the timer that ran before is stopped.
pub change-IsTimed :
    (cfg : Config) (e : KeyEvent) (s : SearchBox)
    → IsTimed s
    → IsTimed (on_search_field_change cfg e s)
      × (pending (on_search_field_change cfg e s).timers ≡ new_search (starts_timer e s) s)
unfolding on_search_field_change
change-IsTimed cfg e s h = (change-IsTimed_only cfg e s h, change-pending cfg e s h)

-- A click on a menu entry while a search is pending searches at once, but leaves the timer running
-- and forgets it: if the panel is active, the field is not blank and its section has content, then
-- the pending search stays and no variable names it any more.
pub select_leaks_timer :
    (cfg : Config) (id : ℕ) (s : SearchBox) {content : Str}
    → s.search_active ≡ true
    → (strip_spaces s.field_value ==s []) ≡ false
    → get_elem? cfg.sections_with_content id ≡ some content
    → ((state_of (on_select_item cfg id s)).key_timeout ≡ 0)
      × (pending (state_of (on_select_item cfg id s)).timers ≡ pending s.timers)
unfolding on_select_item select_item_set search_ show_results open_results
select_leaks_timer cfg id s active filled found = ground arith
