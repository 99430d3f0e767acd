-- ===== src/Base/Text/Trim.antt =====
-- How `trim` acts on texts of digits and on surrounding whitespace.
use Prim.Native.Char.{Char, len_utf8, len_utf8_def}
use Prim.Native.String.len as Len
use Prim.Native.String.{String, [], ◌∷◌, ◌++◌, len, count}
use mathlib.Core.Path.{◌≡◌, refl, ap, ◌∙◌}
use mathlib.Core.Logic.{◌≢◌}
use mathlib.Core.Bool.{true, false}
use native.Mathlib.Omega.{arith}
use text.Mathlib.TextLemmas.{cons-append, nil-append, length-cons}
use fraud_guard.Base.Text.{
  is_whitespace, is_ascii_digit, all_chars, trim_start, trim_end, keep_end, trim,
}

digit-is_whitespace : (c : Char) → is_ascii_digit c ≡ true → is_whitespace c ≡ false
unfolding is_ascii_digit is_whitespace
digit-is_whitespace c h = ground arith

len_utf8-digit : (c : Char) → is_ascii_digit c ≡ true → len_utf8 c ≡ 1
unfolding is_ascii_digit
len_utf8-digit c h = ground (arith, len_utf8_def c)

trim_start-digits : (s : String) → all_chars is_ascii_digit s ≡ true → trim_start s ≡ s
unfolding trim_start all_chars
trim_start-digits [] h = refl
trim_start-digits (c ∷ s) h = ground (arith, digit-is_whitespace c)

trim_end-digits : (s : String) → all_chars is_ascii_digit s ≡ true → trim_end s ≡ s
unfolding trim_end all_chars
trim_end-digits [] h = refl
trim_end-digits (c ∷ []) h = ground (arith, digit-is_whitespace c)
trim_end-digits (c ∷ d ∷ s) h = ground (arith, digit-is_whitespace c, trim_end-digits (d ∷ s))

-- A text that begins with a digit has nothing to trim in front.
trim_start-digit :
    (c : Char) (s w : String)
    → all_chars is_ascii_digit (c ∷ s) ≡ true
    → trim_start ((c ∷ s) ++ w) ≡ (c ∷ s) ++ w
unfolding trim_start all_chars
trim_start-digit c s w h = rw cons-append (ground (arith, digit-is_whitespace c))

-- A text of digits is its own trimmed form.
pub trim-digits : (s : String) → all_chars is_ascii_digit s ≡ true → trim s ≡ s
unfolding trim
trim-digits s h = rw (trim_start-digits s h) (trim_end-digits s h)

-- Digits take one byte each.
pub len-digits : (s : String) → all_chars is_ascii_digit s ≡ true → len s ≡ count s
unfolding all_chars
len-digits [] h = refl
len-digits (c ∷ s) h = rw (Len.cons, length-cons) (ground (arith, len_utf8-digit c, len-digits s))

trim_start-append :
    (w s : String) → all_chars is_whitespace w ≡ true → trim_start (w ++ s) ≡ trim_start s
unfolding trim_start all_chars
trim_start-append [] s h = rw nil-append
trim_start-append (c ∷ w) s h = rw cons-append (ground (arith, trim_start-append w s))

trim_end-whitespace : (w : String) → all_chars is_whitespace w ≡ true → trim_end w ≡ []
unfolding trim_end all_chars
trim_end-whitespace [] h = refl
trim_end-whitespace (c ∷ w) h = rw (trim_end-whitespace w (ground arith)) (ground arith)

trim_end-append : (s w : String) → all_chars is_whitespace w ≡ true → trim_end (s ++ w) ≡ trim_end s
unfolding trim_end
trim_end-append [] w h = rw nil-append (trim_end-whitespace w h)
trim_end-append (c ∷ s) w h = rw cons-append (ap (keep_end c) (trim_end-append s w h))

-- Whitespace around a text of digits is taken off.
pub trim_padded :
    (u s w : String)
    → all_chars is_whitespace u ≡ true
    → all_chars is_whitespace w ≡ true
    → s ≢ []
    → all_chars is_ascii_digit s ≡ true
    → trim (u ++ (s ++ w)) ≡ s
unfolding trim
trim_padded u [] w hu hw ne h = absurd (ne refl)
trim_padded u (c ∷ s) w hu hw ne h =
    rw (trim_start-append u (c ∷ s ++ w) hu, trim_start-digit c s w h)
      (trim_end-append (c ∷ s) w hw ∙ trim_end-digits (c ∷ s) h)
