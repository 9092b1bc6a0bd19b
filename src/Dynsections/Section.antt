-- ===== src/Dynsections/Section.antt =====
-- docs/dynsections.js, `toggleVisibility` and `toggleInherit`: a section of the page with its
-- summary, and the inherited members of a class.
use tiny_swarm.Prelude.{
  ℕ, zero, suc, length-append, take-append, ◌∙◌, ◌-◌, ◌≡◌, refl, ap, ap₂, Bool, true, false, not,
  List, [], ◌∷◌, ◌++◌, if◌then◌else◌, length, take, map, replicate, arith,
}
use tiny_swarm.Text.{Str, codes}

-- The elements `#base-content`, `#base-summary` and `#base-trigger`, and the classes of the link.
pub record Section : Type 0 where
  pub content_shown : Bool
  pub summary_shown : Bool
  pub link_opened : Bool
  pub link_closed : Bool
  pub trigger_src : Str

-- `src.substring(0, src.length-n) + name`
unfoldable pub replace_end : ℕ → Str → Str → Str
replace_end n name src = take (length src - n) src ++ name

unfoldable pub toggle_visibility : Section → Section
unfolding replace_end
toggle_visibility s =
    if s.content_shown
    then record s {
      content_shown = false;
      summary_shown = true;
      link_opened = false;
      link_closed = true;
      trigger_src = replace_end 8 (codes "closed.png") s.trigger_src;
    }
    else record s {
      content_shown = true;
      summary_shown = false;
      link_opened = true;
      link_closed = false;
      trigger_src = replace_end 10 (codes "open.png") s.trigger_src;
    }

-- The rows `tr.inherit.id`, by whether each is shown, and the image of the header of the class.
pub record Inherited : Type 0 where
  pub rows : List Bool
  pub image_src : Str

-- `rows.filter(':first').is(':visible')`
unfoldable pub first_shown : List Bool → Bool
first_shown [] = false
first_shown (b ∷ bs) = b

unfoldable pub toggle_inherit : Inherited → Inherited
unfolding first_shown replace_end
toggle_inherit s =
    if first_shown s.rows
    then record {
      rows = map (λ b. false) s.rows;
      image_src = replace_end 8 (codes "closed.png") s.image_src;
    }
    else record {
      rows = map (λ b. true) s.rows;
      image_src = replace_end 10 (codes "open.png") s.image_src;
    }

-- The section with this state, whose trigger has the path `base` without its last name.
unfoldable pub section_at : Str → Bool → Section
section_at base shown = record {
  content_shown = shown;
  summary_shown = not shown;
  link_opened = shown;
  link_closed = not shown;
  trigger_src = base ++ (if shown then codes "open.png" else codes "closed.png");
}

-- The `n + 1` inherited rows with this state.
unfoldable pub inherited_at : Str → ℕ → Bool → Inherited
inherited_at base n shown = record {
  rows = replicate (suc n) shown;
  image_src = base ++ (if shown then codes "open.png" else codes "closed.png");
}

length-old : (s t : Str) → length (s ++ t) - length t ≡ length s
length-old s t = omega (arith, length-append s t)

replace_end-append :
    (base old name : Str) → replace_end (length old) name (base ++ old) ≡ base ++ name
unfolding replace_end
replace_end-append base old name =
    ap (λ n. take n (base ++ old) ++ name) (length-old base old)
    ∙ ap (λ s. s ++ name) (take-append base old)

map-replicate : (f : Bool → Bool) (n : ℕ) (b : Bool) → map f (replicate n b) ≡ replicate n (f b)
map-replicate f zero b = refl
map-replicate f (suc n) b = ap (λ bs. f b ∷ bs) (map-replicate f n b)

-- `toggleVisibility` opens a closed section and closes an open one: content, summary, the link's
-- classes and the trigger's image change together.
pub toggle_visibility-section_at :
    (base : Str) (shown : Bool)
    → toggle_visibility (section_at base shown) ≡ section_at base (not shown)
unfolding toggle_visibility section_at
toggle_visibility-section_at base true =
    ap (λ src. record (section_at base false) { trigger_src = src })
      (replace_end-append base (codes "open.png") (codes "closed.png"))
toggle_visibility-section_at base false =
    ap (λ src. record (section_at base true) { trigger_src = src })
      (replace_end-append base (codes "closed.png") (codes "open.png"))

-- `toggleInherit` opens a class whose inherited members are closed and closes one whose members are
-- open: all rows and the image of the header change together.
pub toggle_inherit-inherited_at :
    (base : Str) (n : ℕ) (shown : Bool)
    → toggle_inherit (inherited_at base n shown) ≡ inherited_at base n (not shown)
unfolding toggle_inherit inherited_at first_shown
toggle_inherit-inherited_at base n true =
    ap₂ (λ rows src. record { rows = rows; image_src = src })
      (map-replicate (λ b. false) (suc n) true)
      (replace_end-append base (codes "open.png") (codes "closed.png"))
toggle_inherit-inherited_at base n false =
    ap₂ (λ rows src. record { rows = rows; image_src = src })
      (map-replicate (λ b. true) (suc n) false)
      (replace_end-append base (codes "closed.png") (codes "open.png"))
