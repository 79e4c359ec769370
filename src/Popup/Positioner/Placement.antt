-- ===== src/Popup/Positioner/Placement.antt =====
-- Where a popup ends up on the screen.
use mcs_qs.Prelude.{ℕ, ◌≡◌, ◌⊎◌, refl, true, false, inl, inr, arith, Bool-cases}
use mcs_qs.Prelude.Int.{ℤ, pos, ◌+ℤ◌, ◌-ℤ◌, ◌≤ℤ◌, ◌<ℤ◌, max_ℤ, min_ℤ, ltb_ℤ-cases, int_order_laws}
use mcs_qs.Popup.Geometry.{RectApi}
use mcs_qs.Popup.Edges.{test_flag}
use mcs_qs.Popup.Adjustment
use mcs_qs.Popup.Positioner.{
  Axis, Request, flip_axis, slide_axis, remaining_width, flip_x, slide_x, resize_x, start_x,
  place_x, start_y, place_y, slide_y, flip_y, resize_y, remaining_height,
}
use mcs_qs.Popup.Positioner.Extents.{
  clip, calc_remaining_width_lem, clip_bounds, clip_id, calc_remaining_height_moves,
}

-- The slide clamps the start: first at the far end, and then, with priority, at the near end.
pub slide_axis_lem :
    (near far size x : ℤ) → slide_axis near far size x ≡ max_ℤ (min_ℤ x (far -ℤ size +ℤ pos 1)) near
unfolding slide_axis
slide_axis_lem near far size x = elim (ltb_ℤ-cases far (x +ℤ size)) [
  | inl (t, h) ↦ rw t (omega int_order_laws)
  | inr (t, h) ↦ rw t (omega int_order_laws)
]

-- A flip is made only if it leaves strictly more of the popup on the screen.
flip_axis_gains :
    (near far : ℕ) (sn sf rn rf size : ℤ) (edges : ℕ) (remaining : ℤ → ℤ) (a : Axis)
    → let b = flip_axis near far sn sf rn rf size edges remaining a in
      (b ≡ a) ⊎ (remaining a.effective <ℤ remaining b.effective)
unfolding flip_axis
flip_axis_gains near far sn sf rn rf size edges remaining a = ground arith

flip_axis_id :
    (near far : ℕ) (sn sf rn rf size : ℤ) (edges : ℕ) (remaining : ℤ → ℤ) (a : Axis)
    → ((x : ℤ) → remaining x ≤ℤ remaining a.effective)
    → flip_axis near far sn sf rn rf size edges remaining a ≡ a
flip_axis_id near far sn sf rn rf size edges remaining a most =
    go (flip_axis near far sn sf rn rf size edges remaining a)
      (flip_axis_gains near far sn sf rn rf size edges remaining a)
  where
    go : (b : Axis) → (b ≡ a) ⊎ (remaining a.effective <ℤ remaining b.effective) → b ≡ a
    go b (inl e) = e
    go b (inr h) = absurd (omega (arith, most b.effective))

-- A popup that fits between the two ends lies between them after the slide.
slide_axis_bounds :
    (near far size x : ℤ)
    → size ≤ℤ far -ℤ near +ℤ pos 1
    → (near ≤ℤ slide_axis near far size x) × (slide_axis near far size x +ℤ size ≤ℤ far +ℤ pos 1)
slide_axis_bounds near far size x fits =
    rw slide_axis_lem (omega int_order_laws, omega int_order_laws)

module _ (api : RectApi) where
  open api use {left, top, right, bottom, width, height}

  width_lem :
      (q : Request api) (x : ℤ)
      → remaining_width api q x
        ≡ clip (left q.screen) (right q.screen) (record { start = x; size = width q.window })
  unfolding remaining_width
  width_lem q x = calc_remaining_width_lem _ _ _

  -- A popup that is wholly on the screen is not flipped.
  flip_x_id :
      (q : Request api) (a : Axis)
      → left q.screen ≤ℤ a.effective
      → a.effective +ℤ width q.window ≤ℤ right q.screen +ℤ pos 1
      → flip_x api q a ≡ a
  unfolding flip_x
  flip_x_id q a lo hi = elim (Bool-cases (test_flag q.adjustment Adjustment.flip_x)) [
    | inl t ↦ rw t (flip_axis_id _ _ _ _ _ _ _ _ _ a λ x. most x)
    | inr t ↦ rw t
  ]
    where
      most : (x : ℤ) → (remaining_width api q x).size ≤ℤ (remaining_width api q a.effective).size
      most x =
          rw (width_lem q x, width_lem q a.effective, clip_id _ _ _ lo hi) (clip_bounds _ _ _).2

  slide_x_id :
      (q : Request api) (x : ℤ)
      → left q.screen ≤ℤ x
      → x +ℤ width q.window ≤ℤ right q.screen +ℤ pos 1
      → slide_x api q x ≡ x
  unfolding slide_x
  slide_x_id q x lo hi = elim (Bool-cases (test_flag q.adjustment Adjustment.slide_x)) [
    | inl t ↦ rw (t, slide_axis_lem) (omega int_order_laws)
    | inr t ↦ rw t
  ]

  resize_x_id :
      (q : Request api) (x : ℤ)
      → left q.screen ≤ℤ x
      → x +ℤ width q.window ≤ℤ right q.screen +ℤ pos 1
      → resize_x api q x ≡ record { start = x; size = width q.window }
  unfolding resize_x
  resize_x_id q x lo hi = elim (Bool-cases (test_flag q.adjustment Adjustment.resize_x)) [
    | inl t ↦ rw (t, width_lem) (clip_id _ _ _ lo hi)
    | inr t ↦ rw t
  ]

  -- Horizontally, a popup that is wholly on the screen where its anchor puts it stays there, at its full
  -- width, whatever the adjustment flags are.
  pub place_x_stays :
      (q : Request api)
      → let x = (start_x api q).effective in
        left q.screen ≤ℤ x
        → x +ℤ width q.window ≤ℤ right q.screen +ℤ pos 1
        → place_x api q ≡ record { start = x; size = width q.window }
  unfolding place_x resize_x
  place_x_stays q lo hi =
      rw (flip_x_id q (start_x api q) lo hi, slide_x_id q (start_x api q).effective lo hi)
        (resize_x_id q (start_x api q).effective lo hi)

  -- With `SlideX` set, a popup no wider than the screen ends up horizontally on the screen, its left edge
  -- not before that of the screen and its right edge not past that of the screen, at its full width,
  -- whatever else is set.
  pub place_x_slides :
      (q : Request api)
      → test_flag q.adjustment Adjustment.slide_x ≡ true
      → width q.window ≤ℤ width q.screen
      → (left q.screen ≤ℤ (place_x api q).start)
        × ((place_x api q).start +ℤ width q.window ≤ℤ right q.screen +ℤ pos 1)
        × ((place_x api q).size ≡ width q.window)
  unfolding place_x slide_x
  place_x_slides q s fits = rw (s, resize_x_id q x bounds.0 bounds.1) (bounds.0, bounds.1, refl)
    where
      x : ℤ
      x =
          slide_axis (left q.screen) (right q.screen) (width q.window)
            (flip_x api q (start_x api q)).effective

      bounds : (left q.screen ≤ℤ x) × (x +ℤ width q.window ≤ℤ right q.screen +ℤ pos 1)
      bounds = slide_axis_bounds _ _ _ _ (rw (api.right_lem q.screen) (omega int_order_laws))

  -- With `ResizeX` set, the popup's left edge ends up not before that of the screen, its right edge not
  -- past that of the screen, and its width no greater than it was, whatever else is set. Nothing is said
  -- of the sign of the width.
  pub place_x_resizes :
      (q : Request api)
      → test_flag q.adjustment Adjustment.resize_x ≡ true
      → let e = place_x api q in
        (left q.screen ≤ℤ e.start)
        × (e.start +ℤ e.size ≤ℤ right q.screen +ℤ pos 1)
        × (e.size ≤ℤ width q.window)
  unfolding place_x resize_x
  place_x_resizes q r = rw (r, width_lem) (clip_bounds _ _ _)

  slide_y_id :
      (q : Request api) (y : ℤ)
      → top q.screen ≤ℤ y
      → y +ℤ height q.window ≤ℤ bottom q.screen +ℤ pos 1
      → slide_y api q y ≡ y
  unfolding slide_y
  slide_y_id q y lo hi = elim (Bool-cases (test_flag q.adjustment Adjustment.slide_y)) [
    | inl t ↦ rw (t, slide_axis_lem) (omega int_order_laws)
    | inr t ↦ rw t
  ]

  -- With `ResizeY` set and `FlipY` not set, a popup that is vertically wholly on the screen where its
  -- anchor puts it, at a y less than the x of the screen's left edge, does not stay there: it is moved to
  -- the top of the screen and grows by as much, whatever else is set.
  pub place_y_moves :
      (q : Request api)
      → let y = (start_y api q).effective in
        test_flag q.adjustment Adjustment.resize_y ≡ true
        → test_flag q.adjustment Adjustment.flip_y ≡ false
        → top q.screen ≤ℤ y
        → y +ℤ height q.window ≤ℤ bottom q.screen +ℤ pos 1
        → y <ℤ left q.screen
        → place_y api q
          ≡ record { start = top q.screen; size = height q.window +ℤ (y -ℤ top q.screen) }
  unfolding place_y flip_y resize_y remaining_height
  place_y_moves q r f lo hi above =
      rw (f, slide_y_id q (start_y api q).effective lo hi, r)
        (calc_remaining_height_moves (left q.screen) (top q.screen) (bottom q.screen) _ lo above hi)
