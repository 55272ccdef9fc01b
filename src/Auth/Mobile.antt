-- ===== src/Auth/Mobile.antt =====
-- auth/mobile.go
pub mod Laws
pub mod Scan
pub mod Numbers
use wesko_go_backend.Common.{
  ℕ, ◌≡◌, refl, Bool, true, false, ◌&&◌, ◌||◌, not, [], ◌∷◌, ◌++◌, ltb, ◌==◌, is_empty,
  if◌then◌else◌,
}
use wesko_go_backend.Common.Text.{Text, codes, is_digit, trim_space, byte_len, has_prefix, to_lower}
use wesko_go_backend.Common.Exec.{Result, ok, err}
use wesko_go_backend.Auth.Errors.{Error, invalid_mobile, invalid_mobile_format}

-- The switch in the loop, on one rune; the result is the builder's content.
unfoldable pub step : Text → ℕ → Result Error Text
step digits r =
    if r == b'+'
    then (if is_empty digits then ok digits else err invalid_mobile_format)
    else if is_digit r
    then ok (digits ++ r ∷ [])
    else if r == b' ' || r == b'-' || r == b'(' || r == b')'
    then ok digits
    else err invalid_mobile_format

-- The loop over the runes.
unfoldable pub scan : Text → Text → Result Error Text
scan digits [] = ok digits
scan digits (r ∷ rest) = elim (step digits r) [ ok d ↦ scan d rest | err e ↦ err e ]

-- number[1:], of a number that begins with an ASCII digit.
abbrev drop_one : Text → Text
drop_one [] = []
drop_one (c ∷ s) = s

-- The switch on the length.
unfoldable pub strip_prefix : Text → Result Error Text
strip_prefix number =
    if byte_len number == 10
    then ok number
    else if byte_len number == 11 && has_prefix number (codes "0")
    then ok (drop_one number)
    else if byte_len number == 12 && has_prefix number (codes "91")
    then ok (drop_one (drop_one number))
    else err invalid_mobile_format

-- number[0] < '6' || number[0] > '9'; a first byte of a longer code point is above '9' too.
abbrev starts_badly : Text → Bool
starts_badly [] = true
starts_badly (c ∷ s) = ltb c b'6' || ltb b'9' c

-- The test after the switch, and the result.
unfoldable pub finish : Text → Result Error Text
finish number =
    if not (byte_len number == 10) || starts_badly number
    then err invalid_mobile_format
    else ok (codes "+91" ++ number)

unfoldable pub normalize_indian_mobile : Text → Result Error Text
normalize_indian_mobile input =
    let trimmed = trim_space input in
    if is_empty trimmed then err invalid_mobile else elim (scan [] trimmed) [
      | err e ↦ err e
      | ok digits ↦ elim (strip_prefix digits) [ err e ↦ err e | ok number ↦ finish number ]
    ]

unfoldable pub normalize_email : (ℕ → ℕ) → Text → Text
normalize_email other input = to_lower other (trim_space input)

unfoldable pub normalize_username : Text → Text
normalize_username input = trim_space input

formatted : normalize_indian_mobile (codes " +91 96425-60235") ≡ ok (codes "+919642560235")
unfolding normalize_indian_mobile step scan strip_prefix finish trim_space byte_len has_prefix
    is_digit
formatted = refl

leading_zero : normalize_indian_mobile (codes "09642560235") ≡ ok (codes "+919642560235")
unfolding normalize_indian_mobile step scan strip_prefix finish trim_space byte_len has_prefix
    is_digit
leading_zero = refl
