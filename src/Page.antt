-- ===== src/Page.antt =====
-- What docs/search/search.js uses of the browser: an element's style, its offsets, and the timers.
-- Also `getXPos` and `getYPos` of that file.
use tiny_swarm.Prelude.{ℕ, Bool, true, false, List, [], ◌∷◌, ◌==◌, if◌then◌else◌}
use tiny_swarm.Prelude.Int.{ℤ, pos, ◌+ℤ◌}

-- `style.display`; `unset` is the empty string.
pub data Display : Type 0 where
  unset hidden block inline_block table_row : Display

abbrev pub is_block : Display → Bool
is_block block = true
is_block _ = false

-- A window of the page with its inline style, in pixels.
pub record Popup : Type 0 where
  pub display : Display
  pub left : ℤ
  pub top : ℤ
  pub width : ℤ

-- An element as its `offsetParent` chain shows it.
pub record Offset : Type 0 where
  pub is_body : Bool
  pub offset_left : ℤ
  pub offset_top : ℤ

-- An element, the ancestors that `offsetParent` leads to, and its own sizes.
pub record Element : Type 0 where
  pub offsets : List Offset
  pub offset_width : ℕ
  pub offset_height : ℕ

-- `while (item && item != document.body) { x += …; item = item.offsetParent; }`
unfoldable pub sum_offsets : (Offset → ℤ) → ℤ → List Offset → ℤ
sum_offsets field x [] = x
sum_offsets field x (item ∷ parents) =
    let rest = sum_offsets field (x +ℤ field item) parents in if item.is_body then x else rest

unfoldable pub get_x_pos : Element → ℤ
unfolding sum_offsets
get_x_pos item =
    if item.offset_width == 0 then pos 0 else sum_offsets (λ o. o.offset_left) (pos 0) item.offsets

unfoldable pub get_y_pos : Element → ℤ
unfolding sum_offsets
get_y_pos item =
    if item.offset_width == 0 then pos 0 else sum_offsets (λ o. o.offset_top) (pos 0) item.offsets

-- What a timer of the page calls.
pub data Callback : Type 0 where
  close_selection_window search : Callback

pub record Timer : Type 0 where
  pub id : ℕ
  pub callback : Callback
  pub delay : ℕ

-- `clearTimeout`
unfoldable pub clear_timeout : ℕ → List Timer → List Timer
clear_timeout id [] = []
clear_timeout id (t ∷ ts) = if t.id == id then clear_timeout id ts else t ∷ clear_timeout id ts
