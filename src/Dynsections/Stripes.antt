-- ===== src/Dynsections/Stripes.antt =====
-- docs/dynsections.js, `updateStripes`: every second row that is shown is marked.
use tiny_swarm.Prelude.{
  ℕ, zero, suc, ◌+◌, ◌%◌, ◌≡◌, refl, ap, false, ◌&&◌, List, [], ◌∷◌, some, ◌==◌, if◌then◌else◌,
  get_elem?, map, arith,
}
use tiny_swarm.Dynsections.Directory.{TableRow, Directory, stripe_from, update_stripes}

-- The number of rows that are shown among the first `i`.
pub shown_before : ℕ → List TableRow → ℕ
shown_before zero rows = 0
shown_before (suc i) [] = 0
shown_before (suc i) (row ∷ rows) =
    if row.shown then suc (shown_before i rows) else shown_before i rows

stripe_from-row :
    (n i : ℕ) (rows : List TableRow) (row : TableRow)
    → get_elem? rows i ≡ some row
    → get_elem? (stripe_from n rows) i
      ≡ some (record row { even = row.shown && ((n + shown_before i rows) % 2 == 0) })
unfolding stripe_from shown_before
stripe_from-row n i [] row h = cc
stripe_from-row n zero (r ∷ rows) row h = ground arith
stripe_from-row n (suc i) (r ∷ rows) row h =
    ground (arith, stripe_from-row n i rows row h, stripe_from-row (n + 1) i rows row h)

-- Behind `updateStripes` a row has the class `even` exactly if it is shown and an even number of rows
-- before it are shown; nothing else of it has changed.
pub update_stripes_lem :
    (t : Directory) (i : ℕ) (row : TableRow)
    → get_elem? t.rows i ≡ some row
    → get_elem? (update_stripes t).rows i
      ≡ some (record row { even = row.shown && (shown_before i t.rows % 2 == 0) })
unfolding update_stripes
update_stripes_lem t i row h = ground (arith, stripe_from-row 0 i t.rows row h)

-- The rows without their stripes.
abbrev pub plain : TableRow → TableRow
plain row = record row { even = false }

pub plain-stripe_from :
    (rows : List TableRow) (n : ℕ) → map plain (stripe_from n rows) ≡ map plain rows
unfolding stripe_from
plain-stripe_from [] n = refl
plain-stripe_from (row ∷ rows) n = ap (λ rs. plain row ∷ rs) (plain-stripe_from rows _)

pub stripe_from-plain :
    (rows : List TableRow) (n : ℕ) → stripe_from n (map plain rows) ≡ stripe_from n rows
unfolding stripe_from
stripe_from-plain [] n = refl
stripe_from-plain (row ∷ rows) n =
    ap (λ rs. record row { even = row.shown && (n % 2 == 0) } ∷ rs) (stripe_from-plain rows _)
