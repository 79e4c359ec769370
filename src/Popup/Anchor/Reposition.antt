-- ===== src/Popup/Anchor/Reposition.antt =====
-- Repositioning twice: the second call does nothing unless something has changed.
use mcs_qs.Prelude.{ap, sym, ◌∙◌, Bool, ℕ, ◌≡◌, true, false, Option, none, some, arith, refl}
use mcs_qs.Prelude.Int.{ℤ, eqb_ℤ}
use mcs_qs.Popup.Geometry.{RectApi}
use mcs_qs.Popup.Anchor.{
  Anchor, AnchorState, Env, set_window_rect, at_least_one_wide, at_least_one_high, update_item_rect,
  update_anchor, update_placement, mark_clean, is_dirty, same_state, reposition, prepare,
}

eqb_ℤ_refl : (a : ℤ) → eqb_ℤ a a ≡ true
eqb_ℤ_refl a = ground arith

module _ (api : RectApi) (env : Env api) where
  same_state_refl : (s : AnchorState api) → same_state api s s ≡ true
  unfolding same_state
  same_state_refl s = ground (arith, api.same_refl s.rect)

  -- The rectangle of the anchor is already that of its item.
  abbrev IsSettled : Option ℕ → Option ℕ → Anchor api → Type 0
  IsSettled (some i) (some p) a =
      api.same
        (at_least_one_high api (at_least_one_wide api (env.map_item i a.user_rect a.margins)))
        a.state.rect
      ≡ true
  IsSettled _ _ a = Unit {0}

  update_item_rect-IsSettled :
      (i p : Option ℕ) (a : Anchor api) → IsSettled i p (update_item_rect api env i p a)
  unfolding update_item_rect set_window_rect
  update_item_rect-IsSettled none p a = tt
  update_item_rect-IsSettled (some i) none a = tt
  update_item_rect-IsSettled (some i) (some p) a = ground (
    arith,
    api.same_refl
        (at_least_one_high api (at_least_one_wide api (env.map_item i a.user_rect a.margins))),
  )

  update_item_rect_id :
      (i p : Option ℕ) (a : Anchor api) → IsSettled i p a → update_item_rect api env i p a ≡ a
  unfolding update_item_rect set_window_rect
  update_item_rect_id none p a h = refl
  update_item_rect_id (some i) none a h = refl
  update_item_rect_id (some i) (some p) a h = rw h

  update_item_rect-pointers :
      (i p : Option ℕ) (a : Anchor api)
      → ((update_item_rect api env i p a).item ≡ a.item)
        × ((update_item_rect api env i p a).proxy ≡ a.proxy)
  unfolding update_item_rect set_window_rect
  update_item_rect-pointers none p a = (refl, refl)
  update_item_rect-pointers (some i) none a = (refl, refl)
  update_item_rect-pointers (some i) (some p) a = ground arith

  IsSettled-of_same :
      (i p : Option ℕ) (a b : Anchor api)
      → a.user_rect ≡ b.user_rect
      → a.margins ≡ b.margins
      → a.state.rect ≡ b.state.rect
      → IsSettled i p a
      → IsSettled i p b
  IsSettled-of_same none p a b u m r h = tt
  IsSettled-of_same (some i) none a b u m r h = tt
  IsSettled-of_same (some i) (some p) a b u m r h = simp (← u, ← m, ← r) h

  -- A settled anchor whose placement is that of the windows, and which was marked clean, is clean.
  prepare_clean :
      (parent window : api.Rect) (i p : Option ℕ) (b : Anchor api)
      → b.item ≡ i
      → b.proxy ≡ p
      → IsSettled i p b
      → b.last_state
        ≡ some (record b.state {
          anchorpoint = record { x = api.left parent; y = api.top parent };
          size = record { width = api.width window; height = api.height window };
        })
      → is_dirty api (prepare api env parent window b) ≡ false
  unfolding prepare update_anchor update_placement is_dirty
  prepare_clean parent window i p b ei ep h l =
      simp (ei, ep, update_item_rect_id i p b h) (rw (l, is_dirty, same_state_refl))

  prepare_again :
      (parent window : api.Rect) (a : Anchor api)
      → is_dirty api
          (prepare api env parent window (mark_clean api (prepare api env parent window a)))
        ≡ false
  unfolding prepare update_anchor update_placement mark_clean
  prepare_again parent window a =
      prepare_clean parent window a.item a.proxy (mark_clean api (prepare api env parent window a))
        (update_item_rect-pointers a.item a.proxy a).0
        (update_item_rect-pointers a.item a.proxy a).1
        (IsSettled-of_same a.item a.proxy (update_item_rect api env a.item a.proxy a) _ refl refl
          refl (update_item_rect-IsSettled a.item a.proxy a))
        refl

  -- A settled anchor whose placement is that of the windows is as dirty as before.
  prepare_kept :
      (parent window : api.Rect) (i p : Option ℕ) (b : Anchor api)
      → b.item ≡ i
      → b.proxy ≡ p
      → IsSettled i p b
      → b.state ≡ record b.state {
        anchorpoint = record { x = api.left parent; y = api.top parent };
        size = record { width = api.width window; height = api.height window };
      }
      → is_dirty api (prepare api env parent window b) ≡ is_dirty api b
  unfolding prepare update_anchor update_placement is_dirty
  prepare_kept parent window i p b ei ep h e =
      simp (ei, ep, update_item_rect_id i p b h)
        (ap (λ s. is_dirty api (record b { state = s })) (sym e))

  prepare_twice :
      (parent window : api.Rect) (a : Anchor api)
      → is_dirty api (prepare api env parent window (prepare api env parent window a))
        ≡ is_dirty api (prepare api env parent window a)
  unfolding prepare update_anchor update_placement
  prepare_twice parent window a =
      prepare_kept parent window a.item a.proxy (prepare api env parent window a)
        (update_item_rect-pointers a.item a.proxy a).0
        (update_item_rect-pointers a.item a.proxy a).1
        (IsSettled-of_same a.item a.proxy (update_item_rect api env a.item a.proxy a) _ refl refl
          refl (update_item_rect-IsSettled a.item a.proxy a))
        refl

  not_dirty :
      (parent window screen : api.Rect) (b : Anchor api)
      → is_dirty api (prepare api env parent window b) ≡ false
      → (reposition api env parent window screen true b).1 ≡ none
  unfolding reposition
  not_dirty parent window screen b e = rw e

  -- After a call, whichever way it went, an anchor is not dirty for the same windows.
  is_dirty-reposition :
      (parent window screen : api.Rect) (a : Anchor api) (first dirty : Bool)
      → is_dirty api (prepare api env parent window a) ≡ dirty
      → is_dirty api
          (prepare api env parent window (reposition api env parent window screen first a).0)
        ≡ false
  unfolding reposition
  is_dirty-reposition parent window screen a false d e = prepare_again parent window a
  is_dirty-reposition parent window screen a true true e = rw e (prepare_again parent window a)
  is_dirty-reposition parent window screen a true false e = rw e (prepare_twice parent window a ∙ e)

  -- A call with `onlyIfDirty` right after a call, with `onlyIfDirty` or without, with the same parent and
  -- window geometries sets no geometry, whatever the screens are, provided the handlers of `anchoring`
  -- change nothing.
  pub reposition_again :
      (parent window screen later_screen : api.Rect) (first : Bool) (a : Anchor api)
      → let b = (reposition api env parent window screen first a).0 in
        (reposition api env parent window later_screen true b).1 ≡ none
  reposition_again parent window screen later_screen first a =
      not_dirty parent window later_screen (reposition api env parent window screen first a).0
        (is_dirty-reposition parent window screen a first _ refl)
