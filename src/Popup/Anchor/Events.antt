-- ===== src/Popup/Anchor/Events.antt =====
-- The calls that an anchor receives, from QML and from Qt's signals, as one step function.
use mcs_qs.Prelude.{ℕ, Option, some}
use mcs_qs.Popup.Geometry.{RectApi, Margins}
use mcs_qs.Popup.Anchor.{
  Box, Point, Size, Anchor, Env, mark_clean, mark_dirty, set_window, set_item, on_window_destroyed,
  on_item_destroyed, on_item_window_changed, set_rect, set_margins, set_window_rect, reset_rect,
  set_edges, set_gravity, set_adjustment, update_placement, update_anchor,
}

pub data Event (api : RectApi) : Type 0 where
  window_set item_set : Option ℕ → Event api
  window_destroyed item_destroyed item_window_changed : Event api
  rect_set : Box → Event api
  rect_reset : Event api
  margins_set : Margins → Event api
  window_rect_set : RectApi.Rect api → Event api
  edges_set gravity_set adjustment_set : ℕ → Event api
  placed : Point → Size → Event api
  anchor_updated cleaned dirtied : Event api

module _ (api : RectApi) where
  unfoldable pub step : Env api → Event api → Anchor api → Option (Anchor api)
  step env (window_set w) a = set_window api env w a
  step env (item_set i) a = set_item api env i a
  step env window_destroyed a = some (on_window_destroyed api a)
  step env item_destroyed a = some (on_item_destroyed api env a)
  step env item_window_changed a = on_item_window_changed api env a
  step env (rect_set b) a = some (set_rect api b a)
  step env rect_reset a = some (reset_rect api a)
  step env (margins_set m) a = some (set_margins api m a)
  step env (window_rect_set r) a = some (set_window_rect api r a)
  step env (edges_set e) a = some (set_edges api e a)
  step env (gravity_set g) a = some (set_gravity api g a)
  step env (adjustment_set d) a = some (set_adjustment api d a)
  step env (placed p s) a = some (update_placement api p s a)
  step env anchor_updated a = some (update_anchor api env a)
  step env cleaned a = some (mark_clean api a)
  step env dirtied a = some (mark_dirty api a)
