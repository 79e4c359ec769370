-- ===== src/Popup/Positioner/Extents.antt =====
-- What the two `calcRemaining` lambdas compute.
use mcs_qs.Prelude.{◌≡◌, ap, inl, inr}
use mcs_qs.Prelude.Int.{ℤ, pos, ◌+ℤ◌, ◌-ℤ◌, ◌≤ℤ◌, ◌<ℤ◌, max_ℤ, min_ℤ, ltb_ℤ-cases, int_order_laws}
use mcs_qs.Popup.Positioner.{
  Extent, cut_far, move_near, calc_remaining_width, calc_remaining_height,
}

-- The part of an extent between the first and the last coordinate of the screen.
unfoldable pub clip : ℤ → ℤ → Extent → Extent
clip near far e =
    let start = max_ℤ e.start near in
    record { start = start; size = min_ℤ (e.start +ℤ e.size) (far +ℤ pos 1) -ℤ start }

cut_far_lem :
    (far : ℤ) (e : Extent)
    → cut_far far e
      ≡ record { start = e.start; size = min_ℤ (e.start +ℤ e.size) (far +ℤ pos 1) -ℤ e.start }
unfolding cut_far
cut_far_lem far e = elim (ltb_ℤ-cases far (e.start +ℤ e.size)) [
  | inl (t, h) ↦ rw t (ap (λ s. record { start = e.start; size = s }) omega int_order_laws)
  | inr (t, h) ↦ rw t (ap (λ s. record { start = e.start; size = s }) omega int_order_laws)
]

eq_of_fields : (e f : Extent) → e.start ≡ f.start → e.size ≡ f.size → e ≡ f
eq_of_fields e f p q = λ i. record { start = p i; size = q i }

-- What is left of a popup's width is the part of it that is on the screen.
pub calc_remaining_width_lem :
    (left right : ℤ) (e : Extent) → calc_remaining_width left right e ≡ clip left right e
unfolding calc_remaining_width clip move_near
calc_remaining_width_lem left right e = elim (ltb_ℤ-cases e.start left) [
  | inl (t, h) ↦
      rw (t, cut_far_lem) (eq_of_fields _ _ (omega int_order_laws) (omega int_order_laws))
  | inr (t, h) ↦
      rw (t, cut_far_lem) (eq_of_fields _ _ (omega int_order_laws) (omega int_order_laws))
]

-- On the other axis the same holds of a screen whose first row and column have the same number.
pub calc_remaining_height_lem :
    (near bottom : ℤ) (e : Extent) → calc_remaining_height near near bottom e ≡ clip near bottom e
unfolding calc_remaining_height calc_remaining_width
calc_remaining_height_lem near bottom e = calc_remaining_width_lem near bottom e

-- An extent that is wholly on the screen, but starts above the row whose number is the screen's left
-- edge, is moved to the top of the screen and grows by as much.
pub calc_remaining_height_moves :
    (left top bottom : ℤ) (e : Extent)
    → top ≤ℤ e.start
    → e.start <ℤ left
    → e.start +ℤ e.size ≤ℤ bottom +ℤ pos 1
    → calc_remaining_height left top bottom e
      ≡ record { start = top; size = e.size +ℤ (e.start -ℤ top) }
unfolding calc_remaining_height move_near
calc_remaining_height_moves left top bottom e lo hi fits = elim (ltb_ℤ-cases e.start left) [
  | inl (t, h) ↦
      rw (t, cut_far_lem) (eq_of_fields _ _ (omega int_order_laws) (omega int_order_laws))
  | inr (t, h) ↦ absurd (omega int_order_laws)
]

-- A clipped extent lies between the two ends and is no longer than it was.
pub clip_bounds :
    (near far : ℤ) (e : Extent)
    → (near ≤ℤ (clip near far e).start)
      × ((clip near far e).start +ℤ (clip near far e).size ≤ℤ far +ℤ pos 1)
      × ((clip near far e).size ≤ℤ e.size)
unfolding clip
clip_bounds near far e = (omega int_order_laws, omega int_order_laws, omega int_order_laws)

-- An extent between the two ends is not clipped.
pub clip_id :
    (near far : ℤ) (e : Extent)
    → near ≤ℤ e.start
    → e.start +ℤ e.size ≤ℤ far +ℤ pos 1
    → clip near far e ≡ e
unfolding clip
clip_id near far e lo hi = eq_of_fields _ _ (omega int_order_laws) (omega int_order_laws)
