-- ===== src/Examples/Popups.antt =====
-- Popups on a screen of 100 by 80.
use mcs_qs.Prelude.{ℕ, ◌≡◌, ◌↔◌, refl, arith, Bool, true, ◌&&◌, Option, none, some, [], inl}
use mcs_qs.Prelude.Int.{pos, ◌+ℤ◌, ◌-ℤ◌, ◌≤ℤ◌, eqb_ℤ, half}
use mcs_qs.Popup.Geometry.{RectApi, Margins}
use mcs_qs.Popup.Edges.{test_flag, is_opposing}
use mcs_qs.Popup.Positioner.{
  Request, calc_effective, anchor_point, start_x, place_x, start_y, place_y,
}
use mcs_qs.Popup.Positioner.Placement.{
  place_x_stays, place_x_slides, place_x_resizes, place_y_moves,
}
use mcs_qs.Popup.Anchor.{Anchor, Env, Box, AnchorState, reposition, set_edges}
use mcs_qs.Popup.Anchor.Events.{step, window_set, edges_set}
use mcs_qs.Popup.Anchor.Invariant.{IsValid, step-IsValid}
use mcs_qs.Popup.Anchor.Faults.{step-none_iff, resets_item}
use mcs_qs.Popup.Anchor.Reposition.{reposition_again}

-- A rectangle as its corner and its size.
abbrev same_rect : Box → Box → Bool
same_rect a b = eqb_ℤ a.x b.x && eqb_ℤ a.y b.y && eqb_ℤ a.w b.w && eqb_ℤ a.h b.h

same_rect_refl : (r : Box) → same_rect r r ≡ true
same_rect_refl r = ground arith

abbrev rects : RectApi
rects = record {
  Rect = Box;
  make = λ x y w h. record { x = x; y = y; w = w; h = h };
  left = λ r. r.x;
  top = λ r. r.y;
  right = λ r. r.x +ℤ r.w -ℤ pos 1;
  bottom = λ r. r.y +ℤ r.h -ℤ pos 1;
  width = λ r. r.w;
  height = λ r. r.h;
  center_x = λ r. r.x +ℤ half (r.w -ℤ pos 1);
  center_y = λ r. r.y +ℤ half (r.h -ℤ pos 1);
  set_width = λ r w. record r { w = w };
  set_height = λ r h. record r { h = h };
  translated = λ r dx dy. record r { x = r.x +ℤ dx; y = r.y +ℤ dy };
  margins_removed = λ r m. record {
    x = r.x +ℤ m.left;
    y = r.y +ℤ m.top;
    w = r.w -ℤ m.left -ℤ m.right;
    h = r.h -ℤ m.top -ℤ m.bottom;
  };
  same = same_rect;
  right_lem = λ r. refl;
  bottom_lem = λ r. refl;
  width-set_width = λ r w. refl;
  height-set_height = λ r h. refl;
  width-set_height = λ r h. refl;
  same_refl = same_rect_refl;
}

abbrev box : ℕ → ℕ → ℕ → ℕ → Box
box x y w h = record { x = pos x; y = pos y; w = pos w; h = pos h }

-- A popup of 30 by 20 that hangs from a 10 by 10 rectangle; the flags are the adjustment.
abbrev asked : ℕ → ℕ → Request rects
asked x adjustment = record {
  screen = box 0 0 100 80;
  window = box 0 0 30 20;
  anchor_rect = box x 10 10 10;
  edges = 2;
  gravity = 4;
  adjustment = adjustment;
}

stays_example :
    place_x rects (asked 40 63)
    ≡ record { start = (start_x rects (asked 40 63)).effective; size = pos 30 }
unfolding start_x calc_effective anchor_point test_flag ◌+ℤ◌ ◌-ℤ◌ half
stays_example = place_x_stays rects (asked 40 63) (omega arith) (omega arith)

slides_example :
    (pos 0 ≤ℤ (place_x rects (asked 90 1)).start)
    × ((place_x rects (asked 90 1)).start +ℤ pos 30 ≤ℤ pos 0 +ℤ pos 100 -ℤ pos 1 +ℤ pos 1)
    × ((place_x rects (asked 90 1)).size ≡ pos 30)
unfolding test_flag
slides_example = place_x_slides rects (asked 90 1) refl (omega arith)

resizes_example :
    (pos 0 ≤ℤ (place_x rects (asked 90 16)).start)
    × ((place_x rects (asked 90 16)).start +ℤ (place_x rects (asked 90 16)).size
        ≤ℤ pos 0 +ℤ pos 100 -ℤ pos 1 +ℤ pos 1)
    × ((place_x rects (asked 90 16)).size ≤ℤ pos 30)
unfolding test_flag
resizes_example = place_x_resizes rects (asked 90 16) refl

-- A screen that starts at column 50, and a popup that hangs from row 20 and may be resized.
abbrev low : Request rects
low = record {
  screen = box 50 0 100 80;
  window = box 0 0 30 20;
  anchor_rect = box 60 10 10 10;
  edges = 8;
  gravity = 8;
  adjustment = 32;
}

moves_example :
    place_y rects low
    ≡ record { start = pos 0; size = pos 20 +ℤ ((start_y rects low).effective -ℤ pos 0) }
unfolding start_y calc_effective anchor_point test_flag ◌+ℤ◌ ◌-ℤ◌ half
moves_example = place_y_moves rects low refl refl (omega arith) (omega arith) (omega arith)

abbrev env : Env rects
env = record { for_object = λ w. some w; item_window = λ i. some 7; map_item = λ i b m. b }

abbrev no_margins : Margins
no_margins = record { left = pos 0; top = pos 0; right = pos 0; bottom = pos 0 }

abbrev state : AnchorState rects
state = record {
  rect = box 0 0 1 1;
  edges = 3;
  gravity = 12;
  adjustment = 3;
  anchorpoint = record { x = pos 0; y = pos 0 };
  size = record { width = pos 0; height = pos 0 };
}

abbrev anchor : Option ℕ → Anchor rects
anchor item = record {
  window = none;
  proxy = none;
  item = item;
  user_rect = box 0 0 0 0;
  margins = no_margins;
  state = state;
  last_state = none;
  signals = [];
}

anchor-IsValid : (item : Option ℕ) → IsValid rects env (anchor item)
unfolding test_flag is_opposing
anchor-IsValid item = record {
  linked = inl (refl, refl);
  edges = refl;
  gravity = refl;
  wide = omega arith;
  high = omega arith;
}

step_example : IsValid rects env (set_edges rects 12 (anchor none))
unfolding step
step_example = step-IsValid rects env (edges_set 12) (anchor-IsValid none) refl

fault_example :
    (step rects env (window_set (some 3)) (anchor (some 1)) ≡ none)
    ↔ (resets_item rects (window_set (some 3)) (anchor (some 1)) ≡ true)
fault_example = step-none_iff rects env (window_set (some 3)) (anchor (some 1))

again_example :
    (reposition rects env
      (box 0 0 100 80)
      (box 0 0 30 20)
      (box 5 0 100 80)
      true
      (reposition rects env
        (box 0 0 100 80)
        (box 0 0 30 20)
        (box 0 0 100 80)
        true
        (anchor none)).0).1
    ≡ none
again_example =
    reposition_again rects env (box 0 0 100 80) (box 0 0 30 20) (box 0 0 100 80) (box 5 0 100 80)
      true (anchor none)
