-- ===== src/Prelude/Characters.antt =====
-- Texts as the lists of their characters' codes, for code that goes through a text by index.
use Prim.Native.Nat.{ℕ}
use mathlib.Core.Bool.{Bool, true, false}
use mathlib.Core.List.{List, [], ◌∷◌}
use trademart_b.Prelude.Tests.{if◌then◌else◌}
use trademart_b.Prelude.Text.{is_space}

-- A text, and `trim` on it.
abbrev pub Chars : Type 0
Chars = List ℕ

unfoldable pub trim_start_chars : Chars → Chars
unfolding is_space
trim_start_chars [] = []
trim_start_chars (c ∷ cs) = let rest = trim_start_chars cs in if is_space c then rest else c ∷ cs

unfoldable pub before_end_chars : ℕ → Chars → Chars
unfolding is_space
before_end_chars c [] = if is_space c then [] else c ∷ []
before_end_chars c (d ∷ ds) = c ∷ d ∷ ds

unfoldable pub trim_end_chars : Chars → Chars
unfolding before_end_chars
trim_end_chars [] = []
trim_end_chars (c ∷ cs) = before_end_chars c (trim_end_chars cs)

unfoldable pub trim_chars : Chars → Chars
unfolding trim_start_chars trim_end_chars
trim_chars cs = trim_end_chars (trim_start_chars cs)

unfoldable pub blank_chars : Chars → Bool
unfolding trim_chars
blank_chars cs = elim (trim_chars cs) [ [] ↦ true | _ ↦ false ]
