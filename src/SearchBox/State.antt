-- ===== src/SearchBox/State.antt =====
-- docs/search/search.js, `SearchBox`: the instance variables, the elements, and their timers.
use tiny_swarm.Prelude.{ℕ, ◌+◌, Bool, false, List, [], ◌∷◌, ◌==◌, if◌then◌else◌}
use tiny_swarm.Prelude.Int.{pos}
use tiny_swarm.Text.{Str, codes, ◌==s◌}
use tiny_swarm.Page.{Display, unset, Popup, Element, Timer, Callback, clear_timeout}

-- A child node of the filter menu: an entry with or without its bullet, or another node.
pub data Child : Type 0 where
  select_item : Bool → Child
  other : Child

-- What has the keyboard focus: the search field, a child node of the filter menu, or neither.
pub data Focus : Type 0 where
  search_field nowhere : Focus
  menu_child : ℕ → Focus

-- The arguments of the constructor, and what the handlers read and never write: the tables of
-- searchdata.js, the layout, and the engine's `toLowerCase` past ASCII.
pub record Config : Type 0 where
  pub results_path : Str
  pub search_label : Str
  pub extension : Str
  pub sections_with_content : List Str
  pub section_names : List Str
  pub wide_lower : ℕ → ℕ
  pub search_select : Element
  pub search_box : Element
  pub popup_offset_width : ℕ
  pub body_client_width : ℕ

-- `if (!extension || extension == "") { extension = ".html"; }`
unfoldable pub default_extension : Str → Str
default_extension extension = if extension ==s [] then codes ".html" else extension

pub record SearchBox : Type 0 where
  pub key_timeout : ℕ
  pub hide_timeout : ℕ
  pub last_search_value : Str
  pub last_results_page : Str
  pub search_index : ℕ
  pub search_active : Bool
  pub field_value : Str
  pub focus : Focus
  -- whether the class of the panel is `MSearchBoxActive`
  pub box_active : Bool
  pub select_window : Popup
  pub children : List Child
  pub results_window : Popup
  pub close_display : Display
  -- the URL in the results frame, and how often it was told to take the focus
  pub location : Str
  pub focus_messages : ℕ
  -- the timers that have not fired; the ids of timers begin at 1
  pub timers : List Timer
  pub last_timer : ℕ

abbrev pub closed_popup : Popup
closed_popup = record { display = unset; left = pos 0; top = pos 0; width = pos 0 }

-- The state that the constructor leaves, over the page as it is loaded.
unfoldable pub new_search_box : Config → List Child → SearchBox
new_search_box cfg children = record {
  key_timeout = 0;
  hide_timeout = 0;
  last_search_value = [];
  last_results_page = [];
  search_index = 0;
  search_active = false;
  field_value = cfg.search_label;
  focus = Focus.nowhere;
  box_active = false;
  select_window = closed_popup;
  children = children;
  results_window = closed_popup;
  close_display = unset;
  location = [];
  focus_messages = 0;
  timers = [];
  last_timer = 0;
}

abbrev pub close_selection_timeout : ℕ
close_selection_timeout = 300

abbrev pub key_timeout_length : ℕ
key_timeout_length = 500

-- `setTimeout`: a new timer, whose id is returned.
unfoldable pub set_timeout : Callback → ℕ → SearchBox → SearchBox × ℕ
set_timeout callback delay s =
    let id = s.last_timer + 1 in
    (
      record s {
        timers = record { id = id; callback = callback; delay = delay } ∷ s.timers;
        last_timer = id;
      },
      id,
    )

-- `if (this.keyTimeout) { clearTimeout(this.keyTimeout); this.keyTimeout = 0; }`
unfoldable pub kill_key_timer : SearchBox → SearchBox
unfolding clear_timeout
kill_key_timer s =
    if s.key_timeout == 0
    then s
    else record s { timers = clear_timeout s.key_timeout s.timers; key_timeout = 0 }

unfoldable pub kill_hide_timer : SearchBox → SearchBox
unfolding clear_timeout
kill_hide_timer s =
    if s.hide_timeout == 0
    then s
    else record s { timers = clear_timeout s.hide_timeout s.timers; hide_timeout = 0 }

pub data Outcome : Type 0 where
  done : SearchBox → Outcome
  thrown : SearchBox → Outcome

infixl 5 ◌>>=◌
abbrev pub ◌>>=◌ : Outcome → (SearchBox → Outcome) → Outcome
done s >>= f = f s
thrown s >>= f = thrown s

-- The state of the page behind a handler.
abbrev pub state_of : Outcome → SearchBox
state_of (done s) = s
state_of (thrown s) = s

-- The predicate holds of the state of the page behind a handler.
pub record After {ℓ} (P : SearchBox → Type ℓ) (o : Outcome) : Type ℓ where
  pub holds : P (state_of o)
