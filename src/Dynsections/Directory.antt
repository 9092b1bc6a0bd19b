-- ===== src/Dynsections/Directory.antt =====
-- docs/dynsections.js, `updateStripes`, `toggleLevel` and `toggleFolder`: the table of directories.
-- The page has one such table, whose rows are siblings, and which is itself shown.
use tiny_swarm.Prelude.{
  ℕ, zero, suc, ◌+◌, ◌%◌, Bool, true, false, ◌&&◌, List, [], ◌∷◌, ◌++◌, Option, none, some, map,
  ltb, leb, ◌==◌, if◌then◌else◌, length, drop,
}
use tiny_swarm.Text.{Str, codes, ◌==s◌, is_prefix, to_lower}

-- A row: its id, and the style and class that the scripts set.
pub record TableRow : Type 0 where
  pub id : Str
  pub shown : Bool
  pub even : Bool

abbrev pub set_shown : Bool → TableRow → TableRow
set_shown b row = record row { shown = b }

-- A `span` in the table, in document order: the position of its row, its id, whether it has the
-- classes `iconfopen`, `iconfclosed` and `arrow`, and its text.
pub record Span : Type 0 where
  pub row : ℕ
  pub id : Str
  pub is_open : Bool
  pub is_closed : Bool
  pub is_arrow : Bool
  pub text : Str

pub record Directory : Type 0 where
  pub rows : List TableRow
  pub spans : List Span

-- `removeClass('even').filter(':visible:even').addClass('even')`, behind `n` visible rows.
unfoldable pub stripe_from : ℕ → List TableRow → List TableRow
stripe_from n [] = []
stripe_from n (row ∷ rows) =
    record row { even = row.shown && (n % 2 == 0) }
    ∷ stripe_from (if row.shown then n + 1 else n) rows

unfoldable pub update_stripes : Directory → Directory
unfolding stripe_from
update_stripes t = record t { rows = stripe_from 0 t.rows }

abbrev pub open_icon : Span → Span
open_icon s = record s { is_open = true; is_closed = false }

abbrev pub close_icon : Span → Span
close_icon s = record s { is_open = false; is_closed = true }

-- The texts `&#9660;` and `&#9658;`.
abbrev pub down_arrow : Str
down_arrow = 9660 ∷ []

abbrev pub right_arrow : Str
right_arrow = 9658 ∷ []

-- A change of `$('#id')`, the first element with this id.
unfoldable pub update_id : Str → (Span → Span) → List Span → List Span
update_id id f [] = []
update_id id f (s ∷ spans) =
    let rest = update_id id f spans in if s.id ==s id then f s ∷ spans else s ∷ rest

-- `this.id.split('_').length-1`
unfoldable pub level_of : Str → ℕ
level_of [] = 0
level_of (c ∷ id) = if c == b'_' then level_of id + 1 else level_of id

-- The icon and the arrow of a row, set by one round of `toggleLevel`.
unfoldable pub level_spans : ℕ → Str → List Span → List Span
unfolding update_id level_of
level_spans level id spans =
    let tail = drop 3 id in
    if ltb (level_of id) (level + 1)
    then update_id (codes "arr" ++ tail) (λ s. record s { text = down_arrow })
        (update_id (codes "img" ++ tail) open_icon spans)
    else if level_of id == level + 1
    then update_id (codes "arr" ++ tail) (λ s. record s { text = right_arrow })
        (update_id (codes "img" ++ tail) close_icon spans)
    else spans

unfoldable pub level_row : ℕ → TableRow → TableRow
unfolding level_of
level_row level row =
    if ltb (level_of row.id) (level + 1)
    then record row { shown = true }
    else if level_of row.id == level + 1
    then record row { shown = true }
    else record row { shown = false }

unfoldable pub all_level_spans : ℕ → List TableRow → List Span → List Span
unfolding level_spans
all_level_spans level [] spans = spans
all_level_spans level (row ∷ rows) spans =
    all_level_spans level rows (level_spans level row.id spans)

unfoldable pub toggle_level : ℕ → Directory → Directory
unfolding level_row update_stripes all_level_spans
toggle_level level t =
    update_stripes
      (record { rows = map (level_row level) t.rows; spans = all_level_spans level t.rows t.spans })

-- `$('#row_'+id)`: the position of the first row with this id, if there is one.
unfoldable pub row_position : ℕ → Str → List TableRow → Option ℕ
row_position i id [] = none
row_position i id (row ∷ rows) =
    let rest = row_position (i + 1) id rows in
    if row.id ==s (codes "row_" ++ id) then some i else rest

-- `\d*_$` at the start of a text
unfoldable pub ends_number : Str → Bool
ends_number [] = false
ends_number (c ∷ s) = if leb b'0' c && leb c b'9' then ends_number s else c == b'_' && (s ==s [])

-- `\d+_$` at the start of a text
unfoldable pub is_sub : Str → Bool
unfolding ends_number
is_sub [] = false
is_sub (c ∷ s) = leb b'0' c && leb c b'9' && ends_number s

-- `new RegExp('^row_'+id+'\\d+_$', "i")`, where `id` holds no special character, as in the pages: an
-- id is made of digits and `_`.
unfoldable pub is_child_id : Str → Str → Bool
unfolding is_sub is_prefix
is_child_id id row_id =
    is_prefix (to_lower (λ c. c) (codes "row_" ++ id)) (to_lower (λ c. c) row_id)
    && is_sub (drop (length id + 4) row_id)

-- `[id^=row_…]`
unfoldable pub is_below : Str → Str → Bool
unfolding is_prefix
is_below id row_id = is_prefix (codes "row_" ++ id) row_id

-- A change of the rows from position `i` on that a test selects.
unfoldable pub update_rows :
    ℕ → (Str → Bool) → (TableRow → TableRow) → List TableRow → List TableRow
update_rows i test f [] = []
update_rows zero test f (row ∷ rows) =
    (if test row.id then f row else row) ∷ update_rows zero test f rows
update_rows (suc i) test f (row ∷ rows) = row ∷ update_rows i test f rows

-- The positions from `i` on whose row is selected; `n` is the position of the first row.
unfoldable pub is_selected : ℕ → (Str → Bool) → List TableRow → ℕ → Bool
is_selected i test [] k = false
is_selected zero test (row ∷ rows) zero = test row.id
is_selected (suc i) test (row ∷ rows) zero = false
is_selected zero test (row ∷ rows) (suc k) = is_selected zero test rows k
is_selected (suc i) test (row ∷ rows) (suc k) = is_selected i test rows k

-- `childRows.filter(':first').is(':visible')`, for the rows from position `i` on.
unfoldable pub first_child_shown : ℕ → Str → List TableRow → Bool
unfolding is_child_id
first_child_shown i id [] = false
first_child_shown zero id (row ∷ rows) =
    let rest = first_child_shown zero id rows in if is_child_id id row.id then row.shown else rest
first_child_shown (suc i) id (row ∷ rows) = first_child_shown i id rows

-- The icon that is open, and the arrow, of the rows that a test selects by position.
unfoldable pub fold_spans : (ℕ → Bool) → List Span → List Span
fold_spans test [] = []
fold_spans test (s ∷ spans) =
    (if test s.row
      then (let icon = if s.is_open then close_icon s else s in
          if s.is_arrow then record icon { text = right_arrow } else icon)
      else s)
    ∷ fold_spans test spans

unfoldable pub unfold_spans : (ℕ → Bool) → List Span → List Span
unfold_spans test [] = []
unfold_spans test (s ∷ spans) =
    (if test s.row
      then (let icon = if s.is_closed then open_icon s else s in
          if s.is_arrow then record icon { text = down_arrow } else icon)
      else s)
    ∷ unfold_spans test spans

-- `childRows.filter(':first')` is visible: the row at position `i` closes.
unfoldable pub close_folder : Str → ℕ → Directory → Directory
unfolding fold_spans update_rows is_below
close_folder id i t = record {
  rows = update_rows (i + 1) (is_below id) (set_shown false) t.rows;
  spans = fold_spans (λ k. k == i) t.spans;
}

unfoldable pub open_folder : Str → ℕ → Directory → Directory
unfolding fold_spans unfold_spans update_rows is_child_id is_selected
open_folder id i t = record {
  rows = update_rows (i + 1) (is_child_id id) (set_shown true) t.rows;
  spans =
      fold_spans (is_selected (i + 1) (is_child_id id) t.rows) (unfold_spans (λ k. k == i) t.spans);
}

-- Without a row of this id there is nothing to change but the stripes.
abbrev pub toggle_at : Str → Option ℕ → Directory → Directory
toggle_at id none t = t
toggle_at id (some i) t =
    if first_child_shown (i + 1) id t.rows then close_folder id i t else open_folder id i t

unfoldable pub toggle_folder : Str → Directory → Directory
unfolding update_stripes row_position close_folder open_folder first_child_shown
toggle_folder id t = update_stripes (toggle_at id (row_position 0 id t.rows) t)
