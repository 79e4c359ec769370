-- ===== src/Popup/Edges.antt =====
-- `Edges` of core/types.hpp and core/types.cpp, with the values of Qt's edges.
use mcs_qs.Prelude.{ℕ, Bool, ◌||◌, ◌==◌, bit_and}

abbrev pub top : ℕ
top = 1

abbrev pub left : ℕ
left = 2

abbrev pub right : ℕ
right = 4

abbrev pub bottom : ℕ
bottom = 8

-- QFlags::testFlag and testFlags: every bit of `mask` is set.
unfoldable pub test_flag : ℕ → ℕ → Bool
test_flag flags mask = bit_and flags mask == mask

unfoldable pub is_opposing : ℕ → Bool
unfolding test_flag
is_opposing edges = test_flag edges 9 || test_flag edges 6
