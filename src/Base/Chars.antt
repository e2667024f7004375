-- ===== src/Base/Chars.antt =====
-- JavaScript's string methods that the sources use, on texts as lists of code units.
-- `toUpperCase` and `toLowerCase` are modelled on ASCII; other characters stay as they are.
use Prim.Native.Nat.{ℕ, zero, suc, ◌+◌, ◌-◌, ◌<◌}
use mathlib.Core.Path.{◌≡◌, refl, subst}
use mathlib.Core.Bool.{Bool, true, ◌&&◌, ◌||◌}
use mathlib.Core.List.{List, [], ◌∷◌, ◌++◌}
use native.Mathlib.Omega.{arith}
use mathlib.Core.Logic.{inl, inr}
use babushop_wifi.Base.Tests.{leb, ◌==◌, if◌then◌else◌, Text, Bool-cases, ==_iff}
use babushop_wifi.Base.Lists.{any, all, length, get_or}

-- The class `\s`, which is also what `trim` removes.
unfoldable pub is_space : ℕ → Bool
is_space c =
    (leb 9 c && leb c 13)
    || c == 32
    || c == 0xa0
    || c == 0x1680
    || (leb 0x2000 c && leb c 0x200a)
    || c == 0x2028
    || c == 0x2029
    || c == 0x202f
    || c == 0x205f
    || c == 0x3000
    || c == 0xfeff

abbrev pub is_digit : ℕ → Bool
is_digit c = leb b'0' c && leb c b'9'

unfoldable pub upper_char : ℕ → ℕ
upper_char c = if leb b'a' c && leb c b'z' then c - 32 else c

unfoldable pub lower_char : ℕ → ℕ
lower_char c = if leb b'A' c && leb c b'Z' then c + 32 else c

unfoldable pub to_upper : Text → Text
unfolding upper_char
to_upper [] = []
to_upper (c ∷ s) = upper_char c ∷ to_upper s

unfoldable pub to_lower : Text → Text
unfolding lower_char
to_lower [] = []
to_lower (c ∷ s) = lower_char c ∷ to_lower s

unfoldable pub trim_start : Text → Text
unfolding is_space
trim_start [] = []
trim_start (c ∷ s) = if is_space c then trim_start s else c ∷ s

-- Trailing white space: `c` is dropped where nothing is left behind it.
abbrev pub cons_trimmed : ℕ → Text → Text
cons_trimmed c [] = if is_space c then [] else c ∷ []
cons_trimmed c (d ∷ s) = c ∷ d ∷ s

unfoldable pub trim_end : Text → Text
unfolding is_space
trim_end [] = []
trim_end (c ∷ s) = cons_trimmed c (trim_end s)

unfoldable pub trim : Text → Text
unfolding trim_start trim_end
trim s = trim_end (trim_start s)

-- `replace(/[…]/g, '')` for a class of characters.
abbrev pub remove_chars : (ℕ → Bool) → Text → Text
remove_chars p [] = []
remove_chars p (c ∷ s) = if p c then remove_chars p s else c ∷ remove_chars p s

abbrev pub includes : ℕ → Text → Bool
includes c s = any (λ d. d == c) s

-- `split(sep)` for one character.
abbrev head_piece : ℕ → List Text → List Text
head_piece c [] = (c ∷ []) ∷ []
head_piece c (p ∷ ps) = (c ∷ p) ∷ ps

unfoldable pub split : ℕ → Text → List Text
split sep [] = [] ∷ []
split sep (c ∷ s) = if c == sep then [] ∷ split sep s else head_piece c (split sep s)

unfoldable pub join : Text → List Text → Text
join sep [] = []
join sep (p ∷ []) = p
join sep (p ∷ q ∷ ps) = p ++ (sep ++ join sep (q ∷ ps))

-- What a check of a whole class finds, holds of each of its characters.
pub all-includes :
    (p : ℕ → Bool) (c : ℕ) (s : Text) → includes c s ≡ true → all p s ≡ true → p c ≡ true
all-includes p c [] i h = cc
all-includes p c (d ∷ s) i h = elim (Bool-cases (d == c)) [
  | inl same ↦ subst (λ x. p x ≡ true) ((==_iff d c).0 same) (ground arith)
  | inr other ↦ all-includes p c s (ground arith) (ground arith)
]

pub includes-get_or : (s : Text) (i d : ℕ) → i < length s → includes (get_or s i d) s ≡ true
includes-get_or [] i d h = elim h [ ]
includes-get_or (c ∷ s) zero d h = ground arith
includes-get_or (c ∷ s) (suc i) d h = ground (arith, includes-get_or s i d (omega arith))

pub to_upper-to_lower : (s : Text) → to_upper (to_lower s) ≡ to_upper s
unfolding to_upper to_lower
to_upper-to_lower [] = refl
to_upper-to_lower (c ∷ s) = ground (arith, to_upper-to_lower s)
