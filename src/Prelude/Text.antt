-- ===== src/Prelude/Text.antt =====
-- Equality of texts, as a Boolean test with its law, and the joining of two texts.
use Prim.Native.String.{String}
use mathlib.Core.Path.{◌≡◌, sym, ◌∙◌}
use mathlib.Core.Logic.{◌≢◌}
use mathlib.Core.Bool.{true, false}
pub use text.Mathlib.Text.{◌==◌ as str_eq}
pub use text.Mathlib.TextEquality.{eq_iff}
pub use text.Mathlib.TextPositions.{eq_refl}
pub use Prim.Native.String.{◌++◌ as joined}

pub ne_by_test : (s t : String) → str_eq s t ≡ false → s ≢ t
ne_by_test s t e q = clash (sym e ∙ (eq_iff s t).1 q)
  where
    clash : false ≡ true → ⊥
    clash h = cc
