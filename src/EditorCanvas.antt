-- ===== src/EditorCanvas.antt =====
-- components/editor_canvas: what the canvas does with the store.
pub mod AutoScroll
pub mod Drag
