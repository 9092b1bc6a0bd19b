-- ===== src/Menu/Resizing.antt =====
-- docs/menu.js, `resetState`: what the page shows behind its resizes.
use tiny_swarm.Prelude.{
  ℕ, ◌≡◌, ◌≢◌, refl, sym, ◌∙◌, Bool, true, false, not, List, [], ◌∷◌, ◌++◌, some, ltb, ◌==◌,
  if◌then◌else◌, arith, All, Bool-cases, inl, inr, ==_iff, subst, if_true,
}
use tiny_swarm.Text.{Str}
use tiny_swarm.Menu.Layout.{Slot, Layout, new_place, new_layout, set_html, reset_state, resize}

abbrev is_narrow : ℕ → Bool
is_narrow w = ltb w 768

-- A page of width `w` as it should look: the menu is shown if the page is wide, and the search box
-- stands, and is shown, at the first place of a narrow page and at the second of a wide one.
pub record IsPlaced (box : Str) (w : ℕ) (l : Layout) : Type 0 where
  pub menu : l.menu_shown ≡ not (is_narrow w)
  pub first : l.place_1 ≡ (
      if is_narrow w
      then record { content = box; shown = true }
      else record { content = []; shown = true })
  pub second :
      (slot : Slot) × (l.place_2 ≡ some slot)
      × ((if is_narrow w then slot.shown else not slot.shown) ≡ false)
      × ((if is_narrow w then box else slot.content) ≡ box)

-- What holds before and behind every resize.
record IsReady (box : Str) (l : Layout) : Type 0 where
  first_shown : l.place_1.shown ≡ true
  second_there : (slot : Slot) × (l.place_2 ≡ some slot)
  placed : l.prev_width ≢ 0 → IsPlaced box l.prev_width l

reset_state-IsPlaced_new :
    (box : Str) (w : ℕ) (l : Layout)
    → (w == l.prev_width) ≡ false
    → l.place_1.shown ≡ true
    → ((slot : Slot) × (l.place_2 ≡ some slot))
    → IsPlaced box w (reset_state (some box) w l)
unfolding reset_state set_html
reset_state-IsPlaced_new box w l new shown there = record {
  menu = ground (arith, new);
  first = ground (arith, new, shown);
  second = (
    if is_narrow w
        then record there.0 { shown = false }
        else record { content = box; shown = true },
    ground (arith, new, there.1),
    ground arith,
    ground arith,
  );
}

reset_state-prev_width :
    (box : Str) (w : ℕ) (l : Layout) → (reset_state (some box) w l).prev_width ≡ w
unfolding reset_state
reset_state-prev_width box w l = ground arith

reset_state-IsPlaced_same :
    (box : Str) (w : ℕ) (l : Layout)
    → (w == l.prev_width) ≡ true
    → w ≢ 0
    → IsReady box l
    → IsPlaced box w (reset_state (some box) w l)
unfolding reset_state
reset_state-IsPlaced_same box w l same nonzero ready =
    let e : w ≡ l.prev_width = (==_iff w l.prev_width).0 same in
    let placed = ready.placed (λ z. nonzero (e ∙ z)) in
    subst (IsPlaced box w) (sym (if_true l _ same)) (subst (λ n. IsPlaced box n l) (sym e) placed)

-- Every width that is not 0 is laid out, whether it is a new one or not.
reset_state-IsPlaced :
    (box : Str) (w : ℕ) (l : Layout)
    → w ≢ 0
    → IsReady box l
    → IsPlaced box w (reset_state (some box) w l)
reset_state-IsPlaced box w l nonzero ready = elim (Bool-cases (w == l.prev_width)) [
  | inl same ↦ reset_state-IsPlaced_same box w l same nonzero ready
  | inr new ↦ reset_state-IsPlaced_new box w l new ready.first_shown ready.second_there
]

IsPlaced-IsReady :
    (box : Str) (w : ℕ) (l : Layout) → l.prev_width ≡ w → IsPlaced box w l → IsReady box l
IsPlaced-IsReady box w l e p = record {
  first_shown = ground (arith, p.first);
  second_there = (p.second.0, p.second.1);
  placed = λ _. subst (λ n. IsPlaced box n l) (sym e) p;
}

resize-IsPlaced :
    (box : Str) (widths : List ℕ) (w : ℕ) (l : Layout)
    → All (λ n. n ≢ 0) widths
    → w ≢ 0
    → IsReady box l
    → IsPlaced box w (resize (some box) (widths ++ (w ∷ [])) l)
unfolding resize
resize-IsPlaced box [] w l h nonzero ready = reset_state-IsPlaced box w l nonzero ready
resize-IsPlaced box (n ∷ widths) w l h nonzero ready =
    resize-IsPlaced box widths w (reset_state (some box) n l) h.1 nonzero (
      IsPlaced-IsReady box n (reset_state (some box) n l) (reset_state-prev_width box n l)
        (reset_state-IsPlaced box n l h.0 ready))

-- Once the page is ready, and behind any resizes, its layout is that of its last width, if no width
-- is 0: the menu is shown exactly on a wide page, and the search box is shown at the first place of a
-- narrow page, whose second place is hidden, and else at the second, while the first is empty.
pub resize_lem :
    (c : ℕ) (box : Str) (widths : List ℕ) (w : ℕ)
    → All (λ n. n ≢ 0) widths
    → w ≢ 0
    → IsPlaced
        (c ∷ box)
        w
        (resize (some (c ∷ box)) (widths ++ (w ∷ [])) (new_layout (some (c ∷ box))))
unfolding new_layout new_place
resize_lem c box widths w h nonzero =
    resize-IsPlaced (c ∷ box) widths w (new_layout (some (c ∷ box))) h nonzero (record {
      first_shown = refl;
      second_there = (record { content = []; shown = true }, refl);
      placed = λ z. absurd (z refl);
    })
