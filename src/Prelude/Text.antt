-- ===== src/Prelude/Text.antt =====
-- Go's `strings.TrimSpace` on native texts. `len` counts bytes, as Go's `len` does.
use Prim.Native.Char.{code}
use Prim.Native.String.{String}
use mathlib.Core.Bool.{Bool, ◌&&◌, ◌||◌}
use fluenthub.Prelude.Tests.{leb, eqb, if◌then◌else◌}
use Prim.Native.Nat.{ℕ}
use text.Mathlib.Text.{◌==◌}
pub use Prim.Native.String.{len}
pub use text.Mathlib.Text.{starts_with}

-- unicode.IsSpace
unfoldable pub is_space : ℕ → Bool
is_space c =
    (leb 9 c && leb c 13)
    || eqb c 0x20
    || eqb c 0x85
    || eqb c 0xa0
    || eqb c 0x1680
    || (leb 0x2000 c && leb c 0x200a)
    || eqb c 0x2028
    || eqb c 0x2029
    || eqb c 0x202f
    || eqb c 0x205f
    || eqb c 0x3000

trim_left : String → String
trim_left String.[] = String.[]
trim_left (String.◌∷◌ c s) = if is_space (code c) then trim_left s else String.◌∷◌ c s

trim_right : String → String
trim_right String.[] = String.[]
trim_right (String.◌∷◌ c s) =
    let rest = trim_right s in
    if is_space (code c) && rest == "" then String.[] else String.◌∷◌ c rest

unfoldable pub trim_space : String → String
unfolding is_space trim_left trim_right
trim_space s = trim_right (trim_left s)
