-- ===== src/Popup.antt =====
-- Popup windows: their anchors and their placement on the screen (core/popupanchor.cpp,
-- core/popupanchor.hpp, and the edges of core/types.hpp).
pub mod Geometry
pub mod Edges
pub mod Adjustment
pub mod Anchor
pub mod Positioner
