-- ===== src/Results/Moves.antt =====
-- docs/search/search.js, `SearchResults`: where the arrow keys move the focus.
use tiny_swarm.Prelude.{
  ℕ, zero, suc, ◌+◌, ◌≤◌, ◌<◌, ◌≡◌, ap, ◌∙◌, Bool, true, false, List, Option, none, some, length,
  get_elem?, get_elem?-past, arith, Bool-cases, Option-cases, inl, inr, dec_lt,
  get_elem?-none_above, get_elem?-none_past,
}
use tiny_swarm.Page.{is_block}
use tiny_swarm.Results.Keys.{Row, nav_next_from, nav_next, nav_prev_below}

-- Whether there is a row `k` and it is shown.
abbrev pub is_shown : Option Row → Bool
is_shown none = false
is_shown (some row) = is_block row.display

abbrev pub shown_at : List Row → ℕ → Bool
shown_at rows k = is_shown (get_elem? rows k)

-- The first shown row from `index` on.
abbrev pub FindsNext : List Row → ℕ → Option ℕ → Type 0
FindsNext rows index none = (k : ℕ) → index ≤ k → shown_at rows k ≡ false
FindsNext rows index (some i) =
    (index ≤ i) × (shown_at rows i ≡ true) × ((k : ℕ) → index ≤ k → k < i → shown_at rows k ≡ false)

pub shown_at-past : (rows : List Row) (k : ℕ) → length rows ≤ k → shown_at rows k ≡ false
shown_at-past rows k h = ap is_shown (get_elem?-past rows k h)

at_or_above :
    (rows : List Row) (index : ℕ)
    → shown_at rows index ≡ false
    → (k : ℕ) → index ≤ k
    → (index + 1 ≤ k → shown_at rows k ≡ false)
    → shown_at rows k ≡ false
at_or_above rows index s k h above = elim (dec_lt index k) [
  | yes p ↦ above (omega arith)
  | no p ↦ let e : k ≡ index = omega arith in ap (shown_at rows) e ∙ s
]

FindsNext-widen :
    (rows : List Row) (index : ℕ) (o : Option ℕ)
    → shown_at rows index ≡ false
    → FindsNext rows (index + 1) o
    → FindsNext rows index o
FindsNext-widen rows index none s h = λ k p. at_or_above rows index s k p (h k)
FindsNext-widen rows index (some i) s h =
    (omega arith, h.1, λ k p q. at_or_above rows index s k p (λ r. h.2 k r q))

nav_next_from-FindsNext :
    (f index : ℕ) (rows : List Row)
    → length rows < index + f
    → FindsNext rows index (nav_next_from f index rows)
unfolding nav_next_from
nav_next_from-FindsNext zero index rows h = λ k p. shown_at-past rows k (omega arith)
nav_next_from-FindsNext (suc f) index rows h = elim (Option-cases (get_elem? rows index)) [
  | inl e ↦ rw (e, nav_next_from) (λ k p. ap is_shown (get_elem?-none_above rows index k e p))
  | inr (row, e) ↦ elim (Bool-cases (is_block row.display)) [
    | inl s ↦
        rw (e, nav_next_from, s) (omega arith, ap is_shown e ∙ s, λ k p q. absurd (omega arith))
    | inr s ↦
        rw (e, nav_next_from, s)
          (FindsNext-widen rows index _ (ap is_shown e ∙ s)
            (nav_next_from-FindsNext f (index + 1) rows (omega arith)))
  ]
]

-- `NavNext(index)` ends, with the first row from `index` on that is shown, or with none if no row
-- from there on is shown.
pub nav_next-FindsNext : (index : ℕ) (rows : List Row) → FindsNext rows index (nav_next index rows)
unfolding nav_next
nav_next-FindsNext index rows = nav_next_from-FindsNext (suc (length rows)) index rows (omega arith)

-- The last shown row below `index`.
abbrev pub FindsPrev : List Row → ℕ → Option ℕ → Type 0
FindsPrev rows index none = (k : ℕ) → k < index → shown_at rows k ≡ false
FindsPrev rows index (some i) =
    (i < index) × (shown_at rows i ≡ true) × ((k : ℕ) → i < k → k < index → shown_at rows k ≡ false)

at_or_below :
    (rows : List Row) (index : ℕ)
    → shown_at rows index ≡ false
    → (k : ℕ) → k < suc index
    → (k < index → shown_at rows k ≡ false)
    → shown_at rows k ≡ false
at_or_below rows index s k h below = elim (dec_lt k index) [
  | yes p ↦ below p
  | no p ↦ let e : k ≡ index = omega arith in ap (shown_at rows) e ∙ s
]

FindsPrev-widen :
    (rows : List Row) (index : ℕ) (o : Option ℕ)
    → shown_at rows index ≡ false
    → FindsPrev rows index o
    → FindsPrev rows (suc index) o
FindsPrev-widen rows index none s h = λ k p. at_or_below rows index s k p (h k)
FindsPrev-widen rows index (some i) s h =
    (omega arith, h.1, λ k p q. at_or_below rows index s k q (h.2 k p))

-- `NavPrev(index - 1)`, from the link of a row that is in the page or just behind the last: it ends,
-- with the last row below `index` that is shown, or with none if no row below is shown.
pub nav_prev_below-FindsPrev :
    (index : ℕ) (rows : List Row)
    → index ≤ length rows
    → FindsPrev rows index (nav_prev_below index rows)
unfolding nav_prev_below
nav_prev_below-FindsPrev zero rows h = λ k p. absurd (omega arith)
nav_prev_below-FindsPrev (suc index) rows h = elim (Option-cases (get_elem? rows index)) [
  | inl e ↦ absurd (omega (arith, get_elem?-none_past rows index e))
  | inr (row, e) ↦ elim (Bool-cases (is_block row.display)) [
    | inl s ↦
        rw (e, nav_prev_below, s) (omega arith, ap is_shown e ∙ s, λ k p q. absurd (omega arith))
    | inr s ↦
        rw (e, nav_prev_below, s)
          (FindsPrev-widen rows index _ (ap is_shown e ∙ s)
            (nav_prev_below-FindsPrev index rows (omega arith)))
  ]
]
