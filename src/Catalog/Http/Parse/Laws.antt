-- ===== src/Catalog/Http/Parse/Laws.antt =====
-- Which path parameters are ids.
use wesko_go_backend.Common.{
  ℕ, ◌+◌, ◌-◌, ◌*◌, ◌≤◌, ◌<◌, ◌≡◌, ◌≢◌, ◌↔◌, refl, inl, inr, some, [], ◌∷◌, All, Bool-cases,
  Option-cases, arith, leb, ◌&&◌,
}
use wesko_go_backend.Common.Text.{Text}
use wesko_go_backend.Common.Decimal.{read_digits, parse_uint}
use wesko_go_backend.Catalog.Http.Parse.{parse_uint_param}

-- One of the characters '0' to '9'.
abbrev pub IsNumeral : ℕ → Type 0
IsNumeral c = (48 ≤ c) × (c ≤ 57)

-- The weight of the place before a text.
abbrev pub weight : Text → ℕ
weight [] = 1
weight (c ∷ s) = 10 * weight s

-- The number that digits write, each digit by the weight of its place.
abbrev pub number : Text → ℕ
number [] = 0
number (c ∷ s) = (c - 48) * weight s + number s

place : (n d w : ℕ) → (n * 10 + d) * w ≡ n * (10 * w) + d * w
place n d w = omega arith

read_digits_sound :
    (n m : ℕ) (s : Text)
    → read_digits n s ≡ some m
    → All IsNumeral s × (m ≡ n * weight s + number s)
unfolding read_digits
read_digits_sound n m [] h = (tt, ground arith)
read_digits_sound n m (c ∷ s) h = elim (Bool-cases (leb 48 c && leb c 57)) [
  | inr other ↦ absurd (ground arith)
  | inl numeral ↦
      let (rest, e) = read_digits_sound (n * 10 + (c - 48)) m s (ground arith) in
      let split = place n (c - 48) (weight s) in (((ground arith, ground arith), rest), omega arith)
]

read_digits_complete :
    (n : ℕ) (s : Text) → All IsNumeral s → read_digits n s ≡ some (n * weight s + number s)
unfolding read_digits
read_digits_complete n [] h = ground arith
read_digits_complete n (c ∷ s) ((low, high), h) =
    let rest = read_digits_complete (n * 10 + (c - 48)) s h in
    let split = place n (c - 48) (weight s) in ground arith

-- A path parameter that is an id, and the id.
pub record IsId (raw : Text) (n : ℕ) : Type 0 where
  pub given : raw ≢ []
  pub numerals : All IsNumeral raw
  pub written : n ≡ number raw
  pub positive : 0 < n
  pub fits : n < 18446744073709551616

parse_uint_param_sound : (raw : Text) (n : ℕ) → parse_uint_param raw ≡ some n → IsId raw n
unfolding parse_uint_param parse_uint
parse_uint_param_sound [] n h = absurd (ground arith)
parse_uint_param_sound (c ∷ s) n h = elim (Option-cases (read_digits 0 (c ∷ s))) [
  | inl e ↦ absurd (ground arith)
  | inr (m, e) ↦
      let (numerals, written) = read_digits_sound 0 m (c ∷ s) e in
      record {
        given = λ q. cc;
        numerals = numerals;
        written = ground arith;
        positive = ground arith;
        fits = ground arith;
      }
]

parse_uint_param_complete : (raw : Text) (n : ℕ) → IsId raw n → parse_uint_param raw ≡ some n
unfolding parse_uint_param parse_uint
parse_uint_param_complete [] n h = absurd (h.given refl)
parse_uint_param_complete (c ∷ s) n h =
    ground (arith, read_digits_complete 0 (c ∷ s) h.numerals, h.written, h.positive, h.fits)

-- The path parameter is read as an id exactly if it is digits from 0 to 9, at least one, that write
-- the id by the weights of their places, and the id is positive and fits 64 bits.
pub parse_uint_param_iff : (raw : Text) (n : ℕ) → (parse_uint_param raw ≡ some n) ↔ IsId raw n
parse_uint_param_iff raw n = (parse_uint_param_sound raw n, parse_uint_param_complete raw n)
