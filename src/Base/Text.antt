-- ===== src/Base/Text.antt =====
-- What the program uses of Rust's `str`: `trim`, `len`, `chars().all`, and `char::is_ascii_digit`.
pub mod Trim
pub mod Decimal
use Prim.Native.Char.{Char, code}
use Prim.Native.String.{String, [], ◌∷◌}
use Prim.Native.Nat.{ℕ}
use mathlib.Core.Bool.{Bool, true, false, ◌&&◌, ◌||◌}
use fraud_guard.Base.Tests.{leb, ◌==◌, if◌then◌else◌}

-- Unicode's White_Space property, on a code point.
abbrev in_range : ℕ → ℕ → ℕ → Bool
in_range lo hi c = leb lo c && leb c hi

white_space : ℕ → Bool
white_space c =
    in_range 9 13 c
    || c == 32
    || c == 0x85
    || c == 0xa0
    || c == 0x1680
    || in_range 0x2000 0x200a c
    || in_range 0x2028 0x2029 c
    || c == 0x202f
    || c == 0x205f
    || c == 0x3000

unfoldable pub is_whitespace : Char → Bool
unfolding white_space
is_whitespace c = white_space (code c)

unfoldable pub is_ascii_digit : Char → Bool
is_ascii_digit c = in_range 48 57 (code c)

unfoldable pub all_chars : (Char → Bool) → String → Bool
all_chars f [] = true
all_chars f (c ∷ s) = f c && all_chars f s

pub trim_start : String → String
trim_start [] = []
trim_start (c ∷ s) = let rest = trim_start s in if is_whitespace c then rest else c ∷ s

-- A whitespace character is dropped if nothing but whitespace follows it.
abbrev keep_end : Char → String → String
keep_end c [] = if is_whitespace c then [] else c ∷ []
keep_end c (d ∷ s) = c ∷ d ∷ s

pub trim_end : String → String
trim_end [] = []
trim_end (c ∷ s) = keep_end c (trim_end s)

unfoldable pub trim : String → String
unfolding trim_start trim_end is_whitespace
trim s = trim_end (trim_start s)
