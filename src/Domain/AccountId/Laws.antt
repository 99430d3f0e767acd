-- ===== src/Domain/AccountId/Laws.antt =====
-- Which texts `AccountId::new` takes.
use Prim.Native.String.{count}
use fraud_guard.Base.{String, ◌<>◌, true, ◌≡◌, refl, sym, ap, ◌≢◌, ◌↔◌, ok, arith}
use fraud_guard.Base.Text.{trim, all_chars, is_ascii_digit, is_whitespace}
use fraud_guard.Base.Text.Trim.{trim-digits, len-digits, trim_padded}
use fraud_guard.Domain.AccountId.{AccountId, new, as_str}

-- Sixteen ASCII digits.
abbrev pub IsAccountText : String → Type 0
IsAccountText t = (all_chars is_ascii_digit t ≡ true) × (count t ≡ 16)

-- `new` succeeds exactly on a text whose trimmed form is sixteen digits, and gives that form.
pub new-eq-ok_iff :
    (s : String) (a : AccountId) → (new s ≡ ok a) ↔ ((a.text ≡ trim s) × IsAccountText (trim s))
unfolding new
new-eq-ok_iff s a =
    (λ h. ground (arith, len-digits (trim s)), λ h. ground (arith, len-digits (trim s)))

nonempty : {s : String} → IsAccountText s → s ≢ String.[]
nonempty v e = absurd (omega (arith, ap count (sym e), v.1))

-- The text of a well-formed account is read back as the same account.
pub new-as_str : (a : AccountId) → IsAccountText (as_str a) → new (as_str a) ≡ ok a
new-as_str a v = (new-eq-ok_iff (as_str a) a).1 (rw (trim-digits (as_str a) v.0) (refl, v))

-- What `new` returns is well formed.
pub new-IsAccountText : (s : String) (a : AccountId) → new s ≡ ok a → IsAccountText (as_str a)
new-IsAccountText s a h = let (e, v) = (new-eq-ok_iff s a).0 h in rw e v

-- A text of sixteen digits with whitespace before and after it is parsed as the account of the
-- digits.
pub new_padded :
    (u w : String) (a : AccountId)
    → all_chars is_whitespace u ≡ true
    → all_chars is_whitespace w ≡ true
    → IsAccountText (as_str a)
    → new (u <> (as_str a <> w)) ≡ ok a
new_padded u w a hu hw v =
    (new-eq-ok_iff _ a).1 (rw (trim_padded u (as_str a) w hu hw (nonempty v) v.0) (refl, v))
