-- ===== src/Popup/Adjustment.antt =====
-- `PopupAdjustment` of core/popupanchor.hpp.
use mcs_qs.Prelude.{ℕ}

abbrev pub slide_x : ℕ
slide_x = 1

abbrev pub slide_y : ℕ
slide_y = 2

abbrev pub flip_x : ℕ
flip_x = 4

abbrev pub flip_y : ℕ
flip_y = 8

abbrev pub resize_x : ℕ
resize_x = 16

abbrev pub resize_y : ℕ
resize_y = 32
