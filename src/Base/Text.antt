-- ===== src/Base/Text.antt =====
-- Texts that the program only compares (keys, ids, names) are native strings.
pub use text.Mathlib.Text.{◌==◌ as str_eq}
pub use text.Mathlib.TextEquality.{eq_iff}
pub use text.Mathlib.TextPositions.{eq_refl}
