-- ===== src/Bytree.antt =====
-- lib/bytree: the helpers for strings.
pub mod StringUtil
pub mod Base64
