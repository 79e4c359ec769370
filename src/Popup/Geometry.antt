-- ===== src/Popup/Geometry.antt =====
-- What the popup code uses of Qt's QRect. QRect is not part of this repository, so it is a
-- parameter, with the laws that its documentation states. Coordinates are C++ `int`s, taken as
-- integers: the code does no wrapping arithmetic on them.
use mcs_qs.Prelude.{◌≡◌, Bool, true}
use mcs_qs.Prelude.Int.{ℤ, pos, ◌+ℤ◌, ◌-ℤ◌}

-- QMargins
pub record Margins : Type 0 where
  pub left : ℤ
  pub top : ℤ
  pub right : ℤ
  pub bottom : ℤ

pub record RectApi : Type 1 where
  pub Rect : Type 0
  -- QRect(x, y, width, height)
  pub make : ℤ → ℤ → ℤ → ℤ → Rect
  pub left : Rect → ℤ
  pub top : Rect → ℤ
  pub right : Rect → ℤ
  pub bottom : Rect → ℤ
  pub width : Rect → ℤ
  pub height : Rect → ℤ
  pub center_x : Rect → ℤ
  pub center_y : Rect → ℤ
  pub set_width : Rect → ℤ → Rect
  pub set_height : Rect → ℤ → Rect
  pub translated : Rect → ℤ → ℤ → Rect
  pub margins_removed : Rect → Margins → Rect
  pub same : Rect → Rect → Bool
  -- "returns left() + width() - 1", and so for the other axis
  pub right_lem : (r : Rect) → right r ≡ left r +ℤ width r -ℤ pos 1
  pub bottom_lem : (r : Rect) → bottom r ≡ top r +ℤ height r -ℤ pos 1
  pub width-set_width : (r : Rect) (w : ℤ) → width (set_width r w) ≡ w
  pub height-set_height : (r : Rect) (h : ℤ) → height (set_height r h) ≡ h
  pub width-set_height : (r : Rect) (h : ℤ) → width (set_height r h) ≡ width r
  pub same_refl : (r : Rect) → same r r ≡ true
