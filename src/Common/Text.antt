-- ===== src/Common/Text.antt =====
-- Go strings that hold valid UTF-8, as lists of code points, with the functions of Go's `strings`
-- and `unicode` packages that the program calls. `byte_len` is Go's `len`.
pub mod Trim
use Prim.Native.Char.{code}
use Prim.Native.String.{String}
use Prim.Native.Nat.{ℕ, suc, ◌+◌, ◌-◌, ◌/◌, ◌%◌, ◌≤◌}
use mathlib.Core.Path.{◌≡◌, refl, ap}
use mathlib.Core.Logic.{◌≢◌, ◌↔◌}
use mathlib.Core.Bool.{Bool, true, false, ◌&&◌, ◌||◌}
use mathlib.Core.List.{List, [], ◌∷◌, ◌++◌, map}
use native.Mathlib.Omega.{arith}
use wesko_go_backend.Common.Tests.{ltb, leb, ◌==◌ as nat_eq, if◌then◌else◌, Bool-cases}
use wesko_go_backend.Common.Lists.{is_empty, any}

abbrev pub Text : Type 0
Text = List ℕ

abbrev pub codes : String → Text
codes String.[] = []
codes (String.◌∷◌ c s) = code c ∷ codes s

unfoldable pub eq : Text → Text → Bool
eq [] [] = true
eq (a ∷ s) (b ∷ t) = nat_eq a b && eq s t
eq _ _ = false

pub eq_refl : (s : Text) → eq s s ≡ true
unfolding eq
eq_refl [] = refl
eq_refl (a ∷ s) = ground (arith, eq_refl s)

eq_sound : (s t : Text) → eq s t ≡ true → s ≡ t
unfolding eq
eq_sound [] [] h = refl
eq_sound (a ∷ s) (b ∷ t) h = ground (arith, eq_sound s t)
eq_sound [] (b ∷ t) h = cc
eq_sound (a ∷ s) [] h = cc

eq_complete : (s t : Text) → s ≡ t → eq s t ≡ true
eq_complete s t e = rw e (eq_refl t)

pub eq_iff : (s t : Text) → (eq s t ≡ true) ↔ (s ≡ t)
eq_iff s t = (eq_sound s t, eq_complete s t)

pub empty_iff : (t : Text) → (is_empty t ≡ false) ↔ (t ≢ [])
empty_iff [] = (λ h. cc, λ h. absurd (h refl))
empty_iff (c ∷ t) = (λ h e. cc, λ h. refl)

pub apart_of_eq : (s t : Text) → eq s t ≡ false → s ≢ t
apart_of_eq s t h = ground (arith, eq_iff s t)

-- unicode.IsSpace
unfoldable pub is_space : ℕ → Bool
is_space c =
    (leb 9 c && leb c 13)
    || nat_eq c 32
    || nat_eq c 0x85
    || nat_eq c 0xa0
    || nat_eq c 0x1680
    || (leb 0x2000 c && leb c 0x200a)
    || nat_eq c 0x2028
    || nat_eq c 0x2029
    || nat_eq c 0x202f
    || nat_eq c 0x205f
    || nat_eq c 0x3000

-- The code points of the zeros of Unicode's decimal digits; nine more digits follow each.
abbrev decimal_zeros : List ℕ
decimal_zeros =
    0x660 ∷ 0x6f0 ∷ 0x7c0 ∷ 0x966 ∷ 0x9e6 ∷ 0xa66 ∷ 0xae6 ∷ 0xb66 ∷ 0xbe6 ∷ 0xc66 ∷ 0xce6 ∷ 0xd66
    ∷ 0xde6 ∷ 0xe50 ∷ 0xed0 ∷ 0xf20 ∷ 0x1040 ∷ 0x1090 ∷ 0x17e0 ∷ 0x1810 ∷ 0x1946 ∷ 0x19d0 ∷ 0x1a80
    ∷ 0x1a90 ∷ 0x1b50 ∷ 0x1bb0 ∷ 0x1c40 ∷ 0x1c50 ∷ 0xa620 ∷ 0xa8d0 ∷ 0xa900 ∷ 0xa9d0 ∷ 0xa9f0
    ∷ 0xaa50 ∷ 0xabf0 ∷ 0xff10 ∷ 0x104a0 ∷ 0x10d30 ∷ 0x11066 ∷ 0x110f0 ∷ 0x11136 ∷ 0x111d0 ∷ 0x112f0
    ∷ 0x11450 ∷ 0x114d0 ∷ 0x11650 ∷ 0x116c0 ∷ 0x11730 ∷ 0x118e0 ∷ 0x11950 ∷ 0x11c50 ∷ 0x11d50
    ∷ 0x11da0 ∷ 0x11f50 ∷ 0x16a60 ∷ 0x16ac0 ∷ 0x16b50 ∷ 0x1d7ce ∷ 0x1d7d8 ∷ 0x1d7e2 ∷ 0x1d7ec
    ∷ 0x1d7f6 ∷ 0x1e140 ∷ 0x1e2f0 ∷ 0x1e4f0 ∷ 0x1e950 ∷ 0x1fbf0 ∷ []

-- A digit of a script other than ASCII's.
unfoldable pub is_other_digit : ℕ → Bool
is_other_digit c = any (λ z. leb z c && leb c (z + 9)) decimal_zeros

-- unicode.IsDigit
unfoldable pub is_digit : ℕ → Bool
unfolding is_other_digit
is_digit c = (leb b'0' c && leb c b'9') || is_other_digit c

trim_left : Text → Text
trim_left [] = []
trim_left (c ∷ s) = if is_space c then trim_left s else c ∷ s

trim_right : Text → Text
trim_right [] = []
trim_right (c ∷ s) = let r = trim_right s in if is_space c && is_empty r then [] else c ∷ r

-- strings.TrimSpace
unfoldable pub trim_space : Text → Text
unfolding trim_left trim_right is_space
trim_space s = trim_right (trim_left s)

-- The number of bytes of a code point in UTF-8, and `len` of a string.
unfoldable pub rune_len : ℕ → ℕ
rune_len c = if ltb c 0x80 then 1 else if ltb c 0x800 then 2 else if ltb c 0x10000 then 3 else 4

unfoldable pub byte_len : Text → ℕ
unfolding rune_len
byte_len [] = 0
byte_len (c ∷ s) = rune_len c + byte_len s

-- strings.HasPrefix
unfoldable pub has_prefix : Text → Text → Bool
has_prefix s [] = true
has_prefix [] (p ∷ ps) = false
has_prefix (c ∷ s) (p ∷ ps) = nat_eq c p && has_prefix s ps

-- unicode.ToLower and unicode.ToUpper: on ASCII as written, elsewhere by the tables `other`.
lower_rune : (ℕ → ℕ) → ℕ → ℕ
lower_rune other c = if leb b'A' c && leb c b'Z' then c + 32 else if ltb c 0x80 then c else other c

upper_rune : (ℕ → ℕ) → ℕ → ℕ
upper_rune other c = if leb b'a' c && leb c b'z' then c - 32 else if ltb c 0x80 then c else other c

-- strings.ToLower and strings.ToUpper
unfoldable pub to_lower : (ℕ → ℕ) → Text → Text
unfolding lower_rune
to_lower other s = map (lower_rune other) s

unfoldable pub to_upper : (ℕ → ℕ) → Text → Text
unfolding upper_rune
to_upper other s = map (upper_rune other) s

trim_example : trim_space (codes "  a b\t") ≡ codes "a b"
unfolding trim_space
trim_example = refl

-- strings.Contains
unfoldable pub includes : Text → Text → Bool
includes [] needle = has_prefix [] needle
includes (c ∷ source) needle = has_prefix (c ∷ source) needle || includes source needle

-- hex.EncodeToString
unfoldable pub hex_digit : ℕ → ℕ
hex_digit n = if ltb n 10 then n + 48 else n + 87

unfoldable pub encode_hex : List ℕ → Text
unfolding hex_digit
encode_hex [] = []
encode_hex (b ∷ bs) = hex_digit (b / 16) ∷ hex_digit (b % 16) ∷ encode_hex bs
