-- ===== src/Popup/Positioner.antt =====
-- `PopupPositioner::reposition` of core/popupanchor.cpp, one function for each of its lambdas and
-- adjustment steps. `screen`, `window` and `anchor` are the geometries that it reads.
pub mod Extents
pub mod Placement
use mcs_qs.Prelude.{ℕ, ◌+◌, ◌&&◌, ◌||◌, bit_xor, if◌then◌else◌}
use mcs_qs.Prelude.Int.{ℤ, pos, ◌+ℤ◌, ◌-ℤ◌, ltb_ℤ, half, max_ℤ}
use mcs_qs.Popup.Geometry.{RectApi}
use mcs_qs.Popup.Edges
use mcs_qs.Popup.Edges.{test_flag}
use mcs_qs.Popup.Adjustment

-- One axis of a placement: the gravity, the anchor point, and where the popup starts.
pub record Axis : Type 0 where
  pub gravity : ℕ
  pub anchor : ℤ
  pub effective : ℤ

-- Where the popup starts, and how long it is.
pub record Extent : Type 0 where
  pub start : ℤ
  pub size : ℤ

-- `calcEffectiveX` (`near` is the left edge) and `calcEffectiveY` (`near` is the top edge) are the
-- same function of the edge's flags and the popup's size.
unfoldable pub calc_effective : ℕ → ℕ → ℤ → ℕ → ℤ → ℤ
calc_effective near far size gravity anchor =
    (if test_flag gravity near
      then anchor -ℤ size
      else if test_flag gravity far
      then anchor -ℤ pos 1
      else anchor -ℤ half size)
    +ℤ pos 1

-- The second half of both `calcRemaining` lambdas: cut what passes the far end of the screen.
unfoldable pub cut_far : ℤ → Extent → Extent
cut_far far e =
    if ltb_ℤ far (e.start +ℤ e.size)
    then record e { size = e.size -ℤ (e.start +ℤ e.size -ℤ far -ℤ pos 1) }
    else e

unfoldable pub move_near : ℤ → Extent → Extent
move_near near e = record { start = near; size = e.size -ℤ (near -ℤ e.start) }

unfoldable pub calc_remaining_width : ℤ → ℤ → Extent → Extent
calc_remaining_width left right e =
    cut_far right (if ltb_ℤ e.start left then move_near left e else e)

-- The test reads the screen's left edge, as the source does.
unfoldable pub calc_remaining_height : ℤ → ℤ → ℤ → Extent → Extent
calc_remaining_height left top bottom e =
    cut_far bottom (if ltb_ℤ e.start left then move_near top e else e)

-- One axis of the flip: the gravity turns to the other side and the anchor point to the other edge
-- of the anchor rectangle, if that leaves more room. `remaining` is the size that is left to a popup
-- starting at a point.
unfoldable pub flip_axis : ℕ → ℕ → ℤ → ℤ → ℤ → ℤ → ℤ → ℕ → (ℤ → ℤ) → Axis → Axis
flip_axis near far screen_near screen_far rect_near rect_far size edges remaining a =
    let flip =
      (test_flag a.gravity near && ltb_ℤ a.effective screen_near)
      || (test_flag a.gravity far && ltb_ℤ screen_far (a.effective +ℤ size)) in
    let new_gravity = bit_xor a.gravity (near + far) in
    let new_anchor =
      if test_flag edges near
      then rect_far
      else if test_flag edges far
      then rect_near
      else a.anchor in
    let new_effective = calc_effective near far size new_gravity new_anchor in
    if flip && ltb_ℤ (remaining a.effective) (remaining new_effective)
    then record { gravity = new_gravity; anchor = new_anchor; effective = new_effective }
    else a

-- One axis of the slide. The far end comes first: a popup that is too large starts at the near end.
unfoldable pub slide_axis : ℤ → ℤ → ℤ → ℤ → ℤ
slide_axis near far size effective =
    max_ℤ (if ltb_ℤ far (effective +ℤ size) then far -ℤ size +ℤ pos 1 else effective) near

-- The anchor point on one axis.
unfoldable pub anchor_point : ℕ → ℕ → ℕ → ℤ → ℤ → ℤ → ℤ
anchor_point near far edges rect_near rect_far rect_center =
    if test_flag edges near
    then rect_near
    else if test_flag edges far
    then rect_far
    else rect_center

module _ (api : RectApi) where
  open api use {Rect}

  -- What the body reads: the geometries of the screen and of the popup's window, the anchor
  -- rectangle translated to the parent window's position, and the anchor's settings.
  pub record Request : Type 0 where
    pub screen : Rect
    pub window : Rect
    pub anchor_rect : Rect
    pub edges : ℕ
    pub gravity : ℕ
    pub adjustment : ℕ

module _ (api : RectApi) where
  open api use {left, top, right, bottom, width, height, center_x, center_y}

  unfoldable pub remaining_width : Request api → ℤ → Extent
  remaining_width q x =
      calc_remaining_width (left q.screen) (right q.screen)
        (record { start = x; size = width q.window })

  unfoldable pub remaining_height : Request api → ℤ → Extent
  remaining_height q y =
      calc_remaining_height (left q.screen) (top q.screen) (bottom q.screen)
        (record { start = y; size = height q.window })

  unfoldable pub start_x : Request api → Axis
  start_x q =
      let x =
        anchor_point Edges.left Edges.right q.edges (left q.anchor_rect) (right q.anchor_rect)
          (center_x q.anchor_rect) in
      record {
        gravity = q.gravity;
        anchor = x;
        effective = calc_effective Edges.left Edges.right (width q.window) q.gravity x;
      }

  unfoldable pub start_y : Request api → Axis
  start_y q =
      let y =
        anchor_point Edges.top Edges.bottom q.edges (top q.anchor_rect) (bottom q.anchor_rect)
          (center_y q.anchor_rect) in
      record {
        gravity = q.gravity;
        anchor = y;
        effective = calc_effective Edges.top Edges.bottom (height q.window) q.gravity y;
      }

  unfoldable pub flip_x : Request api → Axis → Axis
  flip_x q a =
      if test_flag q.adjustment Adjustment.flip_x
      then flip_axis Edges.left Edges.right (left q.screen) (right q.screen) (left q.anchor_rect)
          (right q.anchor_rect) (width q.window) q.edges (λ x. (remaining_width q x).size) a
      else a

  unfoldable pub flip_y : Request api → Axis → Axis
  flip_y q a =
      if test_flag q.adjustment Adjustment.flip_y
      then flip_axis Edges.top Edges.bottom (top q.screen) (bottom q.screen) (top q.anchor_rect)
          (bottom q.anchor_rect) (height q.window) q.edges (λ y. (remaining_height q y).size) a
      else a

  unfoldable pub slide_x : Request api → ℤ → ℤ
  slide_x q x =
      if test_flag q.adjustment Adjustment.slide_x
      then slide_axis (left q.screen) (right q.screen) (width q.window) x
      else x

  unfoldable pub slide_y : Request api → ℤ → ℤ
  slide_y q y =
      if test_flag q.adjustment Adjustment.slide_y
      then slide_axis (top q.screen) (bottom q.screen) (height q.window) y
      else y

  unfoldable pub resize_x : Request api → ℤ → Extent
  resize_x q x =
      if test_flag q.adjustment Adjustment.resize_x
      then remaining_width q x
      else record { start = x; size = width q.window }

  unfoldable pub resize_y : Request api → ℤ → Extent
  resize_y q y =
      if test_flag q.adjustment Adjustment.resize_y
      then remaining_height q y
      else record { start = y; size = height q.window }

  -- The new geometry of the window on each axis. The two axes share the gravity's flags, and a flip
  -- of one changes bits that the other does not read.
  unfoldable pub place_x : Request api → Extent
  place_x q = resize_x q (slide_x q (flip_x q (start_x q)).effective)

  unfoldable pub place_y : Request api → Extent
  place_y q = resize_y q (
      slide_y q
        (flip_y q (record (start_y q) { gravity = (flip_x q (start_x q)).gravity })).effective)
