-- ===== src/Auth/Mobile/Laws.antt =====
-- What a normalised Indian mobile number looks like, and that it is normalised already.
use wesko_go_backend.Common.{
  ℕ, ◌≤◌, ◌≡◌, refl, ap, ◌∙◌, inl, inr, true, false, [], ◌∷◌, ◌++◌, arith, ◌==◌, All, All-append,
  Bool-cases, is_empty,
}
use mathlib.Core.List.{append_assoc, append-nil}
use wesko_go_backend.Common.Text.{
  Text, codes, is_digit, is_space, trim_space, byte_len, rune_len, has_prefix,
}
use wesko_go_backend.Common.Text.Trim.{NoSpace, trim_space_of_NoSpace, is_space_of_is_digit}
use wesko_go_backend.Common.Exec.{ok, Result-cases}
use wesko_go_backend.Auth.Mobile.{
  step, scan, drop_one, strip_prefix, starts_badly, finish, normalize_indian_mobile,
}

abbrev pub Digits : Text → Type 0
Digits = All (λ c. is_digit c ≡ true)

step-Digits : (digits : Text) (r : ℕ) (d : Text) → step digits r ≡ ok d → Digits digits → Digits d
unfolding step
step-Digits digits r d h ds = elim (Bool-cases (is_digit r)) [
  | inl digit ↦ ground (arith, All-append (λ c. is_digit c ≡ true) digits (r ∷ []) ds (digit, tt))
  | inr other ↦ ground arith
]

scan-Digits : (digits s : Text) (d : Text) → scan digits s ≡ ok d → Digits digits → Digits d
unfolding scan
scan-Digits digits [] d h ds = ground arith
scan-Digits digits (r ∷ rest) d h ds = elim (Result-cases (step digits r)) [
  | inl (next, e) ↦ scan-Digits next rest d (rw (e, scan) at h) (step-Digits digits r next e ds)
  | inr (x, e) ↦ ground arith
]

plus_is_no_digit : is_digit b'+' ≡ false
unfolding is_digit
plus_is_no_digit = refl

pub step_of_digit :
    (digits : Text) (r : ℕ) → is_digit r ≡ true → step digits r ≡ ok (digits ++ r ∷ [])
unfolding step
step_of_digit digits r h = elim (Bool-cases (r == b'+')) [
  | inl plus ↦ let e : r ≡ b'+' = ground arith in cc (plus_is_no_digit, ap is_digit e)
  | inr other ↦ rw (other, h)
]

scan_of_Digits : (digits s : Text) → Digits s → scan digits s ≡ ok (digits ++ s)
unfolding scan
scan_of_Digits digits [] h = simp append-nil
scan_of_Digits digits (r ∷ rest) (h, hs) =
    rw (step_of_digit digits r h, scan)
      (scan_of_Digits (digits ++ r ∷ []) rest hs ∙ ap ok (append_assoc digits (r ∷ []) rest))

NoSpace-of_Digits : (s : Text) → Digits s → NoSpace s
NoSpace-of_Digits [] h = tt
NoSpace-of_Digits (c ∷ s) (p, h) = (is_space_of_is_digit c p, NoSpace-of_Digits s h)

-- A canonical number: "+91" and digits of ten bytes, the first between 6 and 9.
pub record IsCanonical (n : Text) : Type 0 where
  pub number : Text
  pub shape : n ≡ codes "+91" ++ number
  pub digits : Digits number
  pub ten : byte_len number ≡ 10
  pub first : starts_badly number ≡ false

drop_one-Digits : (s : Text) → Digits s → Digits (drop_one s)
drop_one-Digits [] h = tt
drop_one-Digits (c ∷ s) (p, h) = h

strip_prefix-Digits : (s : Text) {n : Text} → strip_prefix s ≡ ok n → Digits s → Digits n
unfolding strip_prefix
strip_prefix-Digits s h ds =
    ground (arith, drop_one-Digits s ds, drop_one-Digits (drop_one s) (drop_one-Digits s ds))

finish-IsCanonical : (s n : Text) → Digits s → finish s ≡ ok n → IsCanonical n
unfolding finish
finish-IsCanonical s n ds h = record {
  number = s;
  shape = ground arith;
  digits = ds;
  ten = ground arith;
  first = ground arith;
}

-- Every number that normalisation returns is canonical, whatever the input.
pub normalize_indian_mobile-IsCanonical :
    (input n : Text) → normalize_indian_mobile input ≡ ok n → IsCanonical n
unfolding normalize_indian_mobile
normalize_indian_mobile-IsCanonical input n h = elim (Bool-cases (is_empty (trim_space input))) [
  | inl gone ↦ cc (rw gone at h)
  | inr some_text ↦ elim (Result-cases (scan [] (trim_space input))) [
    | inl (d, e) ↦ elim (Result-cases (strip_prefix d)) [
      | inl (m, e') ↦
          finish-IsCanonical m n
            (strip_prefix-Digits d e' (scan-Digits [] (trim_space input) d e tt))
            (rw (some_text, e, e') at h)
      | inr (x, e') ↦ cc (rw (some_text, e, e') at h)
    ]
    | inr (x, e) ↦ cc (rw (some_text, e) at h)
  ]
]

scan_canonical : (s : Text) → Digits s → scan [] (codes "+91" ++ s) ≡ ok (codes "91" ++ s)
unfolding scan step is_digit
scan_canonical s ds = scan_of_Digits [] (codes "91" ++ s) (refl, (refl, ds))

trim_canonical : (s : Text) → Digits s → trim_space (codes "+91" ++ s) ≡ codes "+91" ++ s
unfolding is_space
trim_canonical s ds = trim_space_of_NoSpace _ (refl, (refl, (refl, NoSpace-of_Digits s ds)))

strip_canonical : (s : Text) → byte_len s ≡ 10 → strip_prefix (codes "91" ++ s) ≡ ok s
unfolding strip_prefix byte_len has_prefix
strip_canonical s h = rw h

finish_canonical :
    (s : Text) → byte_len s ≡ 10 → starts_badly s ≡ false → finish s ≡ ok (codes "+91" ++ s)
unfolding finish
finish_canonical s ten first = rw (ten, first)

-- A canonical number is normalised already.
pub normalize_indian_mobile_of_canonical :
    {n : Text} → IsCanonical n → normalize_indian_mobile n ≡ ok n
unfolding normalize_indian_mobile
normalize_indian_mobile_of_canonical c =
    let s = c.number in
    rw (c.shape, trim_canonical s c.digits, scan_canonical s c.digits, strip_canonical s c.ten)
      (finish_canonical s c.ten c.first)

-- Normalising a second time changes nothing.
pub normalize_indian_mobile_idem :
    (input n : Text) → normalize_indian_mobile input ≡ ok n → normalize_indian_mobile n ≡ ok n
normalize_indian_mobile_idem input n h =
    normalize_indian_mobile_of_canonical (normalize_indian_mobile-IsCanonical input n h)

-- A digit from 6 to 9 followed by three digits of three bytes each is taken for a number, though it
-- has four digits.
pub normalize_indian_mobile_short :
    (a b c d : ℕ)
    → b'6' ≤ a
    → a ≤ b'9'
    → Digits (b ∷ c ∷ d ∷ [])
    → byte_len (b ∷ c ∷ d ∷ []) ≡ 9
    → normalize_indian_mobile (codes "+91" ++ a ∷ b ∷ c ∷ d ∷ [])
      ≡ ok (codes "+91" ++ a ∷ b ∷ c ∷ d ∷ [])
normalize_indian_mobile_short a b c d lo hi ds len = normalize_indian_mobile_of_canonical (record {
  number = a ∷ b ∷ c ∷ d ∷ [];
  shape = refl;
  digits = (unfold is_digit in ground arith, ds);
  ten = unfold byte_len rune_len in ground arith;
  first = ground arith;
})
