-- ===== src/Popup/Anchor/Invariant.antt =====
-- What holds of an anchor after any sequence of calls.
use mcs_qs.Prelude.{
  ℕ, false, ◌≡◌, ◌⊎◌, Option, none, some, arith, inl, inr, refl, Bool-cases, subst,
}
use mcs_qs.Prelude.Int.{pos, ◌≤ℤ◌}
use mcs_qs.Popup.Geometry.{RectApi, Margins}
use mcs_qs.Popup.Edges.{is_opposing}
use mcs_qs.Popup.Anchor.{
  Anchor, Env, Box, same_box, same_margins, same_pointer, sane_box, set_window_internal, set_window,
  set_item, on_item_window_changed, set_window_rect, set_null, mark_clean, mark_dirty,
  on_window_destroyed, on_item_destroyed, set_rect, set_margins, reset_rect, set_edges, set_gravity,
  set_adjustment, update_placement, update_anchor, update_item_rect, at_least_one_wide,
  at_least_one_high,
}
use mcs_qs.Popup.Anchor.Events.{
  Event, step, window_set, item_set, window_destroyed, item_destroyed, item_window_changed,
  rect_set, margins_set, window_rect_set, anchor_updated,
}

module _ (api : RectApi) (env : Env api) where
  -- The proxy is that of the window; no edges are opposing; the rectangle is 1 by 1 at least.
  pub record IsValid (a : Anchor api) : Type 0 where
    pub linked :
        ((a.window ≡ none) × (a.proxy ≡ none))
        ⊎ ((w : ℕ) × (a.window ≡ some w) × (a.proxy ≡ env.for_object w))
    pub edges : is_opposing a.state.edges ≡ false
    pub gravity : is_opposing a.state.gravity ≡ false
    pub wide : pos 1 ≤ℤ api.width a.state.rect
    pub high : pos 1 ≤ℤ api.height a.state.rect

  set_null-IsValid : {a : Anchor api} → IsValid a → IsValid (set_null api a)
  unfolding set_null
  set_null-IsValid v = ground arith

  set_window_internal-IsValid :
      (w : Option ℕ) {a : Anchor api} → IsValid a → IsValid (set_window_internal api env w a)
  unfolding set_window_internal
  set_window_internal-IsValid none v = ground arith
  set_window_internal-IsValid (some w) v = ground arith

  clamped :
      (r : api.Rect)
      → (pos 1 ≤ℤ api.width (at_least_one_high api (at_least_one_wide api r)))
        × (pos 1 ≤ℤ api.height (at_least_one_high api (at_least_one_wide api r)))
  clamped r = ground (
    arith,
    api.width-set_width r (pos 1),
    api.width-set_height (at_least_one_wide api r) (pos 1),
    api.height-set_height (at_least_one_wide api r) (pos 1),
  )

  set_window_rect-IsValid :
      (r : api.Rect) {a : Anchor api} → IsValid a → IsValid (set_window_rect api r a)
  unfolding set_window_rect
  set_window_rect-IsValid r {a} v =
      elim (Bool-cases (api.same (at_least_one_high api (at_least_one_wide api r)) a.state.rect)) [
        | inl t ↦ rw t v
        | inr t ↦ rw t (record {
          linked = v.linked;
          edges = v.edges;
          gravity = v.gravity;
          wide = (clamped r).0;
          high = (clamped r).1;
        })
      ]

  -- The anchor that a call returns, if it returns, is valid.
  abbrev Returns : Option (Anchor api) → Type 0
  Returns none = Unit {0}
  Returns (some b) = IsValid b

  with_item-IsValid : {a : Anchor api} (i : Option ℕ) → IsValid a → IsValid (record a { item = i })
  with_item-IsValid i v = record {
    linked = v.linked;
    edges = v.edges;
    gravity = v.gravity;
    wide = v.wide;
    high = v.high;
  }

  on_item_window_changed-Returns :
      (a : Anchor api) (i : Option ℕ)
      → a.item ≡ i
      → IsValid a
      → Returns (on_item_window_changed api env a)
  unfolding on_item_window_changed
  on_item_window_changed-Returns a none e v = rw (e, on_item_window_changed) tt
  on_item_window_changed-Returns a (some i) e v =
      rw (e, on_item_window_changed) (set_window_internal-IsValid (env.item_window i) v)

  set_item-Returns : (i : Option ℕ) (a : Anchor api) → IsValid a → Returns (set_item api env i a)
  unfolding set_item
  set_item-Returns i a v = elim (Bool-cases (same_pointer i a.item)) [
    | inl t ↦ rw t v
    | inr t ↦
        rw t (on_item_window_changed-Returns (record a { item = i }) i refl (with_item-IsValid i v))
  ]

  set_window-Returns :
      (w : Option ℕ) (a : Anchor api) → IsValid a → Returns (set_window api env w a)
  unfolding set_window
  set_window-Returns w a v = go (set_item api env none a) refl (set_item-Returns none a v)
    where
      go :
          (r : Option (Anchor api))
          → set_item api env none a ≡ r
          → Returns r
          → Returns (set_window api env w a)
      go none e h = rw (e, set_window) tt
      go (some b) e h = rw (e, set_window) (set_window_internal-IsValid w h)

  set_rect-IsValid : (b : Box) {a : Anchor api} → IsValid a → IsValid (set_rect api b a)
  unfolding set_rect
  set_rect-IsValid b {a} v = elim (Bool-cases (same_box (sane_box api b) a.user_rect)) [
    | inl t ↦ rw t v
    | inr t ↦ rw t (set_window_rect-IsValid _ (ground arith))
  ]

  set_margins-IsValid : (m : Margins) {a : Anchor api} → IsValid a → IsValid (set_margins api m a)
  unfolding set_margins
  set_margins-IsValid m {a} v = elim (Bool-cases (same_margins m a.margins)) [
    | inl t ↦ rw t v
    | inr t ↦ rw t (set_window_rect-IsValid _ (ground arith))
  ]

  update_item_rect-IsValid :
      (i p : Option ℕ) {a : Anchor api} → IsValid a → IsValid (update_item_rect api env i p a)
  unfolding update_item_rect
  update_item_rect-IsValid none p v = v
  update_item_rect-IsValid (some i) none v = v
  update_item_rect-IsValid (some i) (some p) v = set_window_rect-IsValid _ v

  update_anchor-IsValid : {a : Anchor api} → IsValid a → IsValid (update_anchor api env a)
  unfolding update_anchor
  update_anchor-IsValid {a} v = ground (arith, update_item_rect-IsValid a.item a.proxy v)

  step-Returns : (e : Event api) (a : Anchor api) → IsValid a → Returns (step api env e a)
  unfolding step on_window_destroyed on_item_destroyed reset_rect set_edges set_gravity
      set_adjustment update_placement mark_clean mark_dirty
  step-Returns (window_set w) a v = set_window-Returns w a v
  step-Returns (item_set i) a v = set_item-Returns i a v
  step-Returns window_destroyed a v = ground arith
  step-Returns item_destroyed a v = set_window_internal-IsValid none (ground arith)
  step-Returns item_window_changed a v = on_item_window_changed-Returns a a.item refl v
  step-Returns (rect_set b) a v = set_rect-IsValid b v
  step-Returns (margins_set m) a v = set_margins-IsValid m v
  step-Returns (window_rect_set r) a v = set_window_rect-IsValid r v
  step-Returns anchor_updated a v = update_anchor-IsValid v
  step-Returns _ a v = ground arith

  -- Every call that returns leaves the anchor valid.
  pub step-IsValid :
      (e : Event api) {a b : Anchor api} → IsValid a → step api env e a ≡ some b → IsValid b
  step-IsValid e {a} {b} v h = subst Returns h (step-Returns e a v)
