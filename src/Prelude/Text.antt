-- ===== src/Prelude/Text.antt =====
-- Tests on texts that may be null.
use Prim.Native.Nat.{ℕ, zero, suc}
use Prim.Native.String.{String}
use mathlib.Core.Path.{◌≡◌}
use mathlib.Core.Logic.{◌↔◌, ◌≢◌}
use mathlib.Core.Bool.{Bool, true, false, ◌&&◌, ◌||◌}
use mathlib.Core.List.{List, [], ◌∷◌}
use Prim.Native.Char.{Char, code}
use trademart_b.Prelude.Tests.{leb, ◌==◌, if◌then◌else◌}
use mathlib.Core.Option.{Option, none, some}
use text.Mathlib.Text
use native.Mathlib.Omega.{arith}
use text.Mathlib.TextEquality.{eq_iff}

-- `a === b` on strings
infix 50 ◌===◌
unfoldable pub ◌===◌ : String → String → Bool
a === b = Text.◌==◌ a b

pub ===_iff : (a b : String) → ((a === b) ≡ true) ↔ (a ≡ b)
unfolding ◌===◌
===_iff a b = eq_iff a b

pub ===-ne : (a b : String) → (a === b) ≡ false → a ≢ b
===-ne a b f e = ground (arith, ===_iff a b)

-- `text.slice(0, n)`, in characters
pub slice_to : ℕ → String → String
slice_to zero s = String.[]
slice_to (suc n) String.[] = String.[]
slice_to (suc n) (String.◌∷◌ c s) = String.◌∷◌ c (slice_to n s)

-- The white space that `trim` removes.
unfoldable pub is_space : ℕ → Bool
is_space c =
    (leb 9 c && leb c 13)
    || (c == 32)
    || (c == 160)
    || (c == 5760)
    || (leb 8192 c && leb c 8202)
    || (c == 8232)
    || (c == 8233)
    || (c == 8239)
    || (c == 8287)
    || (c == 12288)
    || (c == 65279)

-- `field === b`, where the field may be null
abbrev pub holds : Option String → String → Bool
holds none b = false
holds (some a) b = a === b

unfoldable pub trim_start : String → String
unfolding is_space
trim_start String.[] = String.[]
trim_start (String.◌∷◌ c s) =
    let rest = trim_start s in if is_space (code c) then rest else String.◌∷◌ c s

-- A character before a text whose end has been trimmed.
unfoldable pub before_end : Char → String → String
unfolding is_space
before_end c String.[] = if is_space (code c) then String.[] else String.◌∷◌ c String.[]
before_end c (String.◌∷◌ d s) = String.◌∷◌ c (String.◌∷◌ d s)

unfoldable pub trim_end : String → String
unfolding before_end
trim_end String.[] = String.[]
trim_end (String.◌∷◌ c s) = before_end c (trim_end s)

-- `text.trim()`
unfoldable pub trim : String → String
unfolding trim_start trim_end
trim s = trim_end (trim_start s)

-- The code points of a text, and a test on each.
abbrev pub codes : String → List ℕ
codes String.[] = []
codes (String.◌∷◌ c s) = code c ∷ codes s

unfoldable pub all_codes : (ℕ → Bool) → List ℕ → Bool
all_codes test [] = true
all_codes test (c ∷ cs) = test c && all_codes test cs

abbrev pub between : ℕ → ℕ → ℕ → Bool
between lo hi c = leb lo c && leb c hi

-- `text.trim().length === 0`
unfoldable pub is_blank : String → Bool
unfolding trim
is_blank s = elim (trim s) [ String.[] ↦ true | _ ↦ false ]
