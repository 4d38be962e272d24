-- ===== src/Prelude/Texts.antt =====
-- Joined texts, as an f-string makes them, and `startswith`.
use Prim.Native.String
use Prim.Native.String.{String}
use mathlib.Core.Path.{◌≡◌, refl}
use mathlib.Core.Bool.{Bool, true}
use text.Mathlib.Text
use text.Mathlib.TextEquality.{starts_with_iff}

infixr 60 ◌^◌
abbrev pub ◌^◌ : String → String → String
s ^ t = String.◌++◌ s t

abbrev pub starts_with : String → String → Bool
starts_with s prefix = Text.starts_with s prefix

-- A joined text starts with its first part.
pub starts_with-join : (s t : String) → starts_with (s ^ t) s ≡ true
starts_with-join s t = (starts_with_iff (s ^ t) s).1 (t, refl)
