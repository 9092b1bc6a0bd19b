-- ===== src/Results/Press.antt =====
-- docs/search/search.js, `SearchResults.ProcessKeys`: which events of a key press are acted on.
use tiny_swarm.Prelude.{
  ℕ, zero, suc, ◌≡◌, refl, ◌≢◌, Bool, true, false, List, [], ◌∷◌, ◌++◌, ◌==◌, arith, replicate,
}
use tiny_swarm.Results.Keys.{Results, Key, keydown, keypress, keyup, process_keys}

-- The answers of `ProcessKeys` to a row of events, and the state behind them.
pub answers : List Key → Results → List Bool
answers [] r = []
answers (e ∷ es) r = (process_keys e r).1 ∷ answers es (process_keys e r).0

pub after_keys : List Key → Results → Results
after_keys [] r = r
after_keys (e ∷ es) r = after_keys es (process_keys e r).0

-- A key goes down, is repeated `n` times, and goes up.
abbrev pub press : ℕ → ℕ → List Key
press code n =
    record { type = keydown; key_code = code }
      ∷ replicate n (record { type = keypress; key_code = code })
    ++ record { type = keyup; key_code = code } ∷ []

-- The rest of a press of which an event was acted on already.
repeats :
    (code n : ℕ) (r : Results)
    → (r.last_key == 0) ≡ false
    → r.repeat_on ≡ true
    → answers
        (replicate n (record { type = keypress; key_code = code })
          ++ record { type = keyup; key_code = code } ∷ [])
        r
      ≡ replicate n true ++ false ∷ []
unfolding answers process_keys
repeats code zero r h k = refl
repeats code (suc n) r h k = ground (arith, repeats code n r h k)

-- One press of a key: the event down is acted on, the first repetition is ignored, all further
-- repetitions are acted on, and the event up is not; this holds from every state.
pub press-answers :
    (code n : ℕ) (r : Results)
    → code ≢ 0
    → answers (press code (suc n)) r ≡ true ∷ false ∷ replicate n true ++ false ∷ []
unfolding answers process_keys
press-answers code n r h =
    let set_on = record r { last_key = code; repeat_on = true } in
    ground (arith, repeats code n set_on)

released :
    (code n : ℕ) (r : Results)
    → let up =
        after_keys
          (replicate n (record { type = keypress; key_code = code })
            ++ record { type = keyup; key_code = code } ∷ [])
          r in
      (up.last_key ≡ 0) × (up.repeat_on ≡ false)
unfolding after_keys process_keys
released code zero r = (refl, refl)
released code (suc n) r = released code n _

-- Behind every press no key is kept, and no repetition is on.
pub press-released :
    (code n : ℕ) (r : Results)
    → ((after_keys (press code n) r).last_key ≡ 0)
      × ((after_keys (press code n) r).repeat_on ≡ false)
unfolding after_keys
press-released code n r = released code n _
