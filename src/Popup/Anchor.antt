-- ===== src/Popup/Anchor.antt =====
-- `PopupAnchor` of core/popupanchor.cpp. Objects are numbers and a null pointer is `none`; a call
-- through a null pointer is the result `none` of the method. The signals that a method emits are
-- listed in order. Qt's bookkeeping of connections is not modelled: the handlers are methods.
pub mod Events
pub mod Invariant
pub mod Faults
pub mod Reposition
use mcs_qs.Prelude.{
  ℕ, Bool, true, false, ◌&&◌, ◌||◌, not, Option, none, some, List, [], ◌∷◌, ◌++◌, ◌==◌,
  if◌then◌else◌,
}
use mcs_qs.Prelude.Int.{ℤ, pos, ◌≤ℤ◌, leb_ℤ, eqb_ℤ, ltb_ℤ}
use mcs_qs.Popup.Geometry.{RectApi, Margins}
use mcs_qs.Popup.Edges.{is_opposing}
use mcs_qs.Popup.Positioner.{Request, Extent, place_x, place_y}

-- `Box` of core/types.hpp.
pub record Box : Type 0 where
  pub x : ℤ
  pub y : ℤ
  pub w : ℤ
  pub h : ℤ

pub record Point : Type 0 where
  pub x : ℤ
  pub y : ℤ

pub record Size : Type 0 where
  pub width : ℤ
  pub height : ℤ

pub data Signal : Type 0 where
  window_changed backing_window_visibility_changed item_changed rect_changed : Signal
  margins_changed window_rect_changed edges_changed gravity_changed : Signal
  adjustment_changed anchoring : Signal

-- `Box::operator==`
unfoldable pub same_box : Box → Box → Bool
same_box a b = eqb_ℤ a.x b.x && eqb_ℤ a.y b.y && eqb_ℤ a.w b.w && eqb_ℤ a.h b.h

unfoldable pub same_margins : Margins → Margins → Bool
same_margins a b =
    eqb_ℤ a.left b.left && eqb_ℤ a.top b.top && eqb_ℤ a.right b.right && eqb_ℤ a.bottom b.bottom

unfoldable pub same_pointer : Option ℕ → Option ℕ → Bool
same_pointer none none = true
same_pointer none (some q) = false
same_pointer (some p) none = false
same_pointer (some p) (some q) = p == q

module _ (api : RectApi) where
  open api use {Rect}

  pub record AnchorState : Type 0 where
    pub rect : Rect
    pub edges : ℕ
    pub gravity : ℕ
    pub adjustment : ℕ
    pub anchorpoint : Point
    pub size : Size

  -- `PopupAnchorState::operator==`
  unfoldable pub same_state : AnchorState → AnchorState → Bool
  same_state a b =
      api.same a.rect b.rect
      && a.edges == b.edges
      && a.gravity == b.gravity
      && a.adjustment == b.adjustment
      && eqb_ℤ a.anchorpoint.x b.anchorpoint.x
      && eqb_ℤ a.anchorpoint.y b.anchorpoint.y
      && eqb_ℤ a.size.width b.size.width
      && eqb_ℤ a.size.height b.size.height

  pub record Anchor : Type 0 where
    pub window : Option ℕ
    pub proxy : Option ℕ
    pub item : Option ℕ
    pub user_rect : Box
    pub margins : Margins
    pub state : AnchorState
    pub last_state : Option AnchorState
    pub signals : List Signal

  -- What the anchor asks of other objects: the proxy window of an object, the proxy of the window
  -- that an item is in, and an item's rectangle mapped into its window. The last takes the user's
  -- rectangle and the margins, and stands for the floating-point mapping of `updateAnchor`, its
  -- clamp to 1 by 1 included.
  pub record Env : Type 0 where
    pub for_object : ℕ → Option ℕ
    pub item_window : ℕ → Option ℕ
    pub map_item : ℕ → Box → Margins → Rect

module _ (api : RectApi) where
  open api use {Rect}

  abbrev emit : List Signal → Anchor api → Anchor api
  emit ss a = record a { signals = a.signals ++ ss }

  unfoldable pub is_dirty : Anchor api → Bool
  is_dirty a = elim a.last_state [ none ↦ true | some s ↦ not (same_state api a.state s) ]

  unfoldable pub mark_clean : Anchor api → Anchor api
  mark_clean a = record a { last_state = some a.state }

  unfoldable pub mark_dirty : Anchor api → Anchor api
  mark_dirty a = record a { last_state = none }

  -- The label `setnull` of `setWindowInternal`.
  unfoldable pub set_null : Anchor api → Anchor api
  set_null a = elim a.window [
    | none ↦ a
    | some w ↦
        emit (window_changed ∷ backing_window_visibility_changed ∷ [])
          (record a { window = none; proxy = none })
  ]

  -- A window that is not a quickshell window goes to `setnull`.
  unfoldable pub set_window_object : ℕ → Option ℕ → Anchor api → Anchor api
  set_window_object w (some p) a =
      emit (window_changed ∷ backing_window_visibility_changed ∷ [])
        (record a { window = some w; proxy = some p })
  set_window_object w none a = set_null a

  unfoldable pub set_window_internal : Env api → Option ℕ → Anchor api → Anchor api
  unfolding set_window_object set_null
  set_window_internal env window a =
      if same_pointer window a.window
      then a
      else elim window [ none ↦ set_null a | some w ↦ set_window_object w (env.for_object w) a ]

  -- Calls `window()` on `mItem` whatever it is.
  unfoldable pub on_item_window_changed : Env api → Anchor api → Option (Anchor api)
  unfolding set_window_internal
  on_item_window_changed env a = elim a.item [
    | none ↦ none
    | some i ↦ some (set_window_internal env (env.item_window i) a)
  ]

  unfoldable pub set_item : Env api → Option ℕ → Anchor api → Option (Anchor api)
  unfolding on_item_window_changed
  set_item env item a =
      if same_pointer item a.item
      then some a
      else on_item_window_changed env (record a { item = item })

  unfoldable pub set_window : Env api → Option ℕ → Anchor api → Option (Anchor api)
  unfolding set_item
  set_window env window a = elim (set_item env none a) [
    | none ↦ none
    | some b ↦ some (set_window_internal env window b)
  ]

  unfoldable pub on_window_destroyed : Anchor api → Anchor api
  on_window_destroyed a =
      emit (window_changed ∷ backing_window_visibility_changed ∷ [])
        (record a { window = none; proxy = none })

  unfoldable pub on_item_destroyed : Env api → Anchor api → Anchor api
  unfolding set_window_internal
  on_item_destroyed env a =
      set_window_internal env none (emit (item_changed ∷ []) (record a { item = none }))

  abbrev pub at_least_one_wide : Rect → Rect
  at_least_one_wide r = if leb_ℤ (api.width r) (pos 0) then api.set_width r (pos 1) else r

  abbrev pub at_least_one_high : Rect → Rect
  at_least_one_high r = if leb_ℤ (api.height r) (pos 0) then api.set_height r (pos 1) else r

  unfoldable pub set_window_rect : Rect → Anchor api → Anchor api
  set_window_rect given a =
      let r = at_least_one_high (at_least_one_wide given) in
      if api.same r a.state.rect
      then a
      else emit (window_rect_changed ∷ []) (record a { state = record a.state { rect = r } })

  abbrev qrect : Box → Rect
  qrect b = api.make b.x b.y b.w b.h

  abbrev pub sane_box : Box → Box
  sane_box b = record b {
    w = if leb_ℤ b.w (pos 0) then pos 1 else b.w;
    h = if leb_ℤ b.h (pos 0) then pos 1 else b.h;
  }

  unfoldable pub set_rect : Box → Anchor api → Anchor api
  set_rect given a =
      let b = sane_box given in
      if same_box b a.user_rect
      then a
      else set_window_rect (api.margins_removed (qrect b) a.margins)
          (emit (rect_changed ∷ []) (record a { user_rect = b }))

  unfoldable pub set_margins : Margins → Anchor api → Anchor api
  set_margins m a =
      if same_margins m a.margins
      then a
      else set_window_rect (api.margins_removed (qrect a.user_rect) m)
          (emit (margins_changed ∷ []) (record a { margins = m }))

  unfoldable pub reset_rect : Anchor api → Anchor api
  reset_rect a = record a { user_rect = record { x = pos 0; y = pos 0; w = pos 0; h = pos 0 } }

  unfoldable pub set_edges : ℕ → Anchor api → Anchor api
  set_edges edges a =
      if edges == a.state.edges
      then a
      else if is_opposing edges
      then a
      else emit (edges_changed ∷ []) (record a { state = record a.state { edges = edges } })

  unfoldable pub set_gravity : ℕ → Anchor api → Anchor api
  set_gravity gravity a =
      if gravity == a.state.gravity
      then a
      else if is_opposing gravity
      then a
      else emit (gravity_changed ∷ []) (record a { state = record a.state { gravity = gravity } })

  unfoldable pub set_adjustment : ℕ → Anchor api → Anchor api
  set_adjustment adjustment a =
      if adjustment == a.state.adjustment
      then a
      else emit (adjustment_changed ∷ [])
          (record a { state = record a.state { adjustment = adjustment } })

  unfoldable pub update_placement : Point → Size → Anchor api → Anchor api
  update_placement p s a = record a { state = record a.state { anchorpoint = p; size = s } }

  -- The body of the `if`, for an item in a window.
  unfoldable pub update_item_rect : Env api → Option ℕ → Option ℕ → Anchor api → Anchor api
  update_item_rect env none proxy a = a
  update_item_rect env (some i) none a = a
  update_item_rect env (some i) (some p) a =
      set_window_rect (env.map_item i a.user_rect a.margins) a

  unfoldable pub update_anchor : Env api → Anchor api → Anchor api
  update_anchor env a = emit (anchoring ∷ []) (update_item_rect env a.item a.proxy a)

  -- The start of `PopupPositioner::reposition`, up to the test of `onlyIfDirty`. The handlers of
  -- `anchoring` are not modelled.
  unfoldable pub prepare : Env api → Rect → Rect → Anchor api → Anchor api
  prepare env parent window a =
      update_placement (record { x = api.left parent; y = api.top parent })
        (record { width = api.width window; height = api.height window }) (update_anchor env a)

  -- What the rest of the body reads.
  unfoldable pub request : Rect → Rect → Rect → Anchor api → Request api
  request parent window screen b = record {
    screen = screen;
    window = window;
    anchor_rect = api.translated b.state.rect (api.left parent) (api.top parent);
    edges = b.state.edges;
    gravity = b.state.gravity;
    adjustment = b.state.adjustment;
  }

  -- `PopupPositioner::reposition`: the anchor after the call, and the geometry that the window is
  -- given, if any.
  unfoldable pub reposition :
      Env api → Rect → Rect → Rect → Bool → Anchor api → Anchor api × Option (Extent × Extent)
  reposition env parent window screen only_if_dirty a =
      let b = prepare env parent window a in
      let q = request parent window screen b in
      if only_if_dirty && not (is_dirty b)
      then (b, none)
      else (mark_clean b, some (place_x api q, place_y api q))
