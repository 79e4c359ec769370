-- ===== src/Popup/Anchor/Faults.antt =====
-- Exactly which calls go through a null pointer.
use mcs_qs.Prelude.{◌≡◌, ◌↔◌, Bool, true, false, not, Option, none, some, arith, ℕ}
use mcs_qs.Popup.Geometry.{RectApi}
use mcs_qs.Popup.Anchor.{Anchor, Env, set_window, set_item, on_item_window_changed, same_pointer}
use mcs_qs.Popup.Anchor.Events.{Event, step, window_set, item_set, item_window_changed}

abbrev pub is_set : Option ℕ → Bool
is_set none = false
is_set (some i) = true

module _ (api : RectApi) where
  -- The calls that reset the item of an anchor that has one, `setWindow` among them, and a change of
  -- window that is reported without an item.
  abbrev pub resets_item : Event api → Anchor api → Bool
  resets_item (window_set w) a = is_set a.item
  resets_item (item_set none) a = is_set a.item
  resets_item item_window_changed a = not (is_set a.item)
  resets_item _ a = false

  -- A call faults exactly if it is `setWindow`, or `setItem` of null, on an anchor that has an item,
  -- or a window change that is reported without an item.
  pub step-none_iff :
      (env : Env api) (e : Event api) (a : Anchor api)
      → (step api env e a ≡ none) ↔ (resets_item e a ≡ true)
  unfolding step set_window set_item on_item_window_changed same_pointer
  step-none_iff env (item_set none) a = ground arith
  step-none_iff env (item_set (some i)) a = ground arith
  step-none_iff env _ a = ground arith
