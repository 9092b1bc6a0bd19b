-- ===== src/SearchBox/Placement.antt =====
-- docs/search/search.js, `SearchBox`: where `Search` puts the results popup.
use tiny_swarm.Prelude.{◌≡◌, true, false, arith, Bool-cases, inl, inr, ltb→lt, ltb_false→le}
use tiny_swarm.Prelude.Int.{ℤ, pos, ◌+ℤ◌, ◌-ℤ◌, ◌≤ℤ◌, ltb_ℤ, int_laws}
use tiny_swarm.Page.{Popup, get_x_pos}
use tiny_swarm.SearchBox.State.{Config}
use tiny_swarm.SearchBox.Search.{clamp_left, clamp_width, placed_popup}

-- Where an open results popup lies.
pub record IsPlaced (cfg : Config) (p : Popup) : Type 0 where
  pub from_left : pos 10 ≤ℤ p.left
  pub in_page : (p.left +ℤ p.width +ℤ pos 8) ≤ℤ pos cfg.body_client_width
  pub at_most_400 : p.width ≤ℤ pos 400

clamp_left-ge : (left : ℤ) → pos 10 ≤ℤ clamp_left left
unfolding clamp_left
clamp_left-ge left = ground arith

narrowed_fits : (m left : ℤ) → (left +ℤ (m -ℤ left -ℤ pos 8) +ℤ pos 8) ≤ℤ m
narrowed_fits m left = omega int_laws

narrowed-le :
    (m left : ℤ) → ltb_ℤ m (pos 400 +ℤ left +ℤ pos 8) ≡ true → (m -ℤ left -ℤ pos 8) ≤ℤ pos 400
narrowed-le m left h = omega (int_laws, ltb→lt _ _ h)

full_fits :
    (m left : ℤ) → ltb_ℤ m (pos 400 +ℤ left +ℤ pos 8) ≡ false → (left +ℤ pos 400 +ℤ pos 8) ≤ℤ m
full_fits m left h = omega (int_laws, ltb_false→le _ _ h)

clamp_width_bounds :
    (m left : ℤ) → ((left +ℤ clamp_width m left +ℤ pos 8) ≤ℤ m) × (clamp_width m left ≤ℤ pos 400)
unfolding clamp_width
clamp_width_bounds m left = elim (Bool-cases (ltb_ℤ m (pos 400 +ℤ left +ℤ pos 8))) [
  | inl wide ↦ rw (wide, clamp_width) (narrowed_fits m left, narrowed-le m left wide)
  | inr fits ↦ rw (fits, clamp_width) (full_fits m left fits, omega arith)
]

pub placed_popup-IsPlaced : (cfg : Config) → IsPlaced cfg (placed_popup cfg)
unfolding placed_popup
placed_popup-IsPlaced cfg =
    let left = clamp_left (get_x_pos cfg.search_box +ℤ pos 150 -ℤ pos cfg.popup_offset_width) in
    let (inside, narrow) = clamp_width_bounds (pos cfg.body_client_width) left in
    record {
      from_left = clamp_left-ge (get_x_pos cfg.search_box +ℤ pos 150 -ℤ pos cfg.popup_offset_width);
      in_page = inside;
      at_most_400 = narrow;
    }
