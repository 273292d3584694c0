-- ===== src/VimInput/Visible.antt =====
-- The cursor is seen after a scroll.
use vincenzo.VimInput.Editing.{VimInput}
