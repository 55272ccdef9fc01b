-- ===== src/Common/Text/Trim.antt =====
-- Trimming of white space leaves nothing to trim.
use Prim.Native.Nat.{ℕ}
use mathlib.Core.Path.{◌≡◌, refl, ap, ◌∙◌}
use mathlib.Core.Logic.{inl, inr}
use mathlib.Core.Bool.{true, false, ◌&&◌}
use mathlib.Core.List.{[], ◌∷◌}
use native.Mathlib.Omega.{arith}
use wesko_go_backend.Common.Tests.{Bool-cases, ◌==◌}
use wesko_go_backend.Common.Lists.{is_empty, any, All}
use wesko_go_backend.Common.Text.{Text, is_space, is_digit, trim_left, trim_right, trim_space}

-- A text that does not begin with white space.
abbrev Starts : Text → Type 0
Starts [] = Unit
Starts (c ∷ s) = is_space c ≡ false

trim_left-Starts : (s : Text) → Starts (trim_left s)
unfolding trim_left
trim_left-Starts [] = tt
trim_left-Starts (c ∷ s) = ground (arith, trim_left-Starts s)

trim_left_of_Starts : (s : Text) → Starts s → trim_left s ≡ s
unfolding trim_left
trim_left_of_Starts [] h = refl
trim_left_of_Starts (c ∷ s) h = rw h

trim_right-Starts : (s : Text) → Starts s → Starts (trim_right s)
unfolding trim_right
trim_right-Starts [] h = tt
trim_right-Starts (c ∷ s) h = rw h h

trim_right_idem : (s : Text) → trim_right (trim_right s) ≡ trim_right s
unfolding trim_right
trim_right_idem [] = refl
trim_right_idem (c ∷ s) = elim (Bool-cases (is_space c && is_empty (trim_right s))) [
  | inl gone ↦ rw gone
  | inr kept ↦ rw (kept, trim_right_idem s, kept)
]

pub trim_space_idem : (s : Text) → trim_space (trim_space s) ≡ trim_space s
unfolding trim_space
trim_space_idem s =
    ap trim_right (trim_left_of_Starts _ (trim_right-Starts _ (trim_left-Starts s)))
    ∙ trim_right_idem (trim_left s)

abbrev pub NoSpace : Text → Type 0
NoSpace = All (λ c. is_space c ≡ false)

trim_right_of_NoSpace : (s : Text) → NoSpace s → trim_right s ≡ s
unfolding trim_right
trim_right_of_NoSpace [] h = refl
trim_right_of_NoSpace (c ∷ s) (p, h) = rw (p, trim_right_of_NoSpace s h)

-- A text with no white space is left alone.
pub trim_space_of_NoSpace : (s : Text) → NoSpace s → trim_space s ≡ s
unfolding trim_space
trim_space_of_NoSpace [] h = refl
trim_space_of_NoSpace (c ∷ s) h = rw h.0 (trim_right_of_NoSpace (c ∷ s) h)

abbrev spaces : Text
spaces =
    9 ∷ 10 ∷ 11 ∷ 12 ∷ 13 ∷ 32 ∷ 0x85 ∷ 0xa0 ∷ 0x1680 ∷ 0x2000 ∷ 0x2001 ∷ 0x2002 ∷ 0x2003 ∷ 0x2004
    ∷ 0x2005 ∷ 0x2006 ∷ 0x2007 ∷ 0x2008 ∷ 0x2009 ∷ 0x200a ∷ 0x2028 ∷ 0x2029 ∷ 0x202f ∷ 0x205f
    ∷ 0x3000 ∷ []

any_eq_of_is_space : (c : ℕ) → is_space c ≡ true → any (λ z. z == c) spaces ≡ true
unfolding is_space
any_eq_of_is_space c h = ground arith

not_digit_of_any :
    (c : ℕ) (zs : Text) → any (λ z. z == c) zs ≡ true → any is_digit zs ≡ false → is_digit c ≡ false
not_digit_of_any c [] h k = cc
not_digit_of_any c (z ∷ zs) h k = elim (Bool-cases (z == c)) [
  | inl same ↦ let e : z ≡ c = ground arith in rw (← e) (ground arith)
  | inr other ↦ not_digit_of_any c zs (rw other at h) (ground arith)
]

no_digit_in_spaces : any is_digit spaces ≡ false
unfolding is_digit
no_digit_in_spaces = refl

-- A digit is not white space.
pub is_space_of_is_digit : (c : ℕ) → is_digit c ≡ true → is_space c ≡ false
is_space_of_is_digit c h = elim (Bool-cases (is_space c)) [
  | inl space ↦ cc (not_digit_of_any c spaces (any_eq_of_is_space c space) no_digit_in_spaces)
  | inr other ↦ other
]
