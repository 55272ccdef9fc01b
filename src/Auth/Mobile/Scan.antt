-- ===== src/Auth/Mobile/Scan.antt =====
-- What the loop of NormalizeIndianMobile reads of a text.
use wesko_go_backend.Common.{
  ℕ, ◌≡◌, ◌⊎◌, refl, sym, ap, ◌∙◌, inl, inr, true, false, [], ◌∷◌, ◌++◌, arith, All, if◌then◌else◌,
}
use mathlib.Core.List.{append_assoc, append-nil}
use wesko_go_backend.Common.Text.{Text, is_digit}
use wesko_go_backend.Common.Exec.{ok, Result-cases}
use wesko_go_backend.Auth.Mobile.{step, scan}
use wesko_go_backend.Auth.Mobile.Laws.{step_of_digit}

-- A space, a hyphen or a round bracket.
abbrev pub IsSeparator : ℕ → Type 0
IsSeparator r = (r ≡ b' ') ⊎ (r ≡ b'-') ⊎ (r ≡ b'(') ⊎ (r ≡ b')')

-- The digits of a text, in their order.
unfoldable pub digits_of : Text → Text
digits_of [] = []
digits_of (r ∷ rest) = let kept = digits_of rest in if is_digit r then r ∷ kept else kept

-- A text that is a mobile number as people write it: separators and plus signs, and then digits and
-- separators.
pub record IsWritten (s : Text) : Type 0 where
  pub before : Text
  pub after : Text
  pub parts : s ≡ before ++ after
  pub leading : All (λ r. (r ≡ b'+') ⊎ IsSeparator r) before
  pub spaced : All (λ r. (is_digit r ≡ true) ⊎ IsSeparator r) after

separator_is_no_digit : (r : ℕ) → IsSeparator r → is_digit r ≡ false
unfolding is_digit
separator_is_no_digit r (inl e) = rw e refl
separator_is_no_digit r (inr (inl e)) = rw e refl
separator_is_no_digit r (inr (inr (inl e))) = rw e refl
separator_is_no_digit r (inr (inr (inr e))) = rw e refl

step_of_separator : (digits : Text) (r : ℕ) → IsSeparator r → step digits r ≡ ok digits
unfolding step
step_of_separator digits r h = ground (arith, separator_is_no_digit r h)

step_of_plus : step [] b'+' ≡ ok []
unfolding step
step_of_plus = refl

-- The four ways in which the loop goes on with a rune.
step_cases :
    (digits : Text) (r : ℕ) (d : Text)
    → step digits r ≡ ok d
    → ((r ≡ b'+') × (digits ≡ []) × (d ≡ []))
      ⊎ ((is_digit r ≡ true) × (d ≡ digits ++ r ∷ []))
      ⊎ (IsSeparator r × (is_digit r ≡ false) × (d ≡ digits))
unfolding step
step_cases [] r d h = ground arith
step_cases (x ∷ digits) r d h = ground arith

scan-step :
    (digits : Text) (r : ℕ) (rest next : Text)
    → step digits r ≡ ok next
    → scan digits (r ∷ rest) ≡ scan next rest
unfolding scan
scan-step digits r rest next h = ground (arith, h)

digits_of_digit :
    (r : ℕ) (rest : Text) → is_digit r ≡ true → digits_of (r ∷ rest) ≡ r ∷ digits_of rest
unfolding digits_of
digits_of_digit r rest h = ground (arith, h)

digits_of_other : (r : ℕ) (rest : Text) → is_digit r ≡ false → digits_of (r ∷ rest) ≡ digits_of rest
unfolding digits_of
digits_of_other r rest h = ground (arith, h)

-- After the first digit the loop takes digits and separators only, and keeps the digits.
scan_tail_sound :
    (x : ℕ) (xs s d : Text)
    → scan (x ∷ xs) s ≡ ok d
    → All (λ r. (is_digit r ≡ true) ⊎ IsSeparator r) s × (d ≡ (x ∷ xs) ++ digits_of s)
unfolding scan digits_of
scan_tail_sound x xs [] d h =
    let same : d ≡ x ∷ xs = ground arith in (tt, same ∙ sym (append-nil (x ∷ xs)))
scan_tail_sound x xs (r ∷ rest) d h = elim (Result-cases (step (x ∷ xs) r)) [
  | inr (e, q) ↦ absurd (ground arith)
  | inl (next, q) ↦ elim (step_cases (x ∷ xs) r next q) [
    | inl (_, e, _) ↦ absurd (cc)
    | inr (inl (digit, e)) ↦
        let (spaced, kept) = scan_tail_sound x (xs ++ r ∷ []) rest d (ground arith) in
        (
          (inl digit, spaced),
          kept
              ∙ append_assoc (x ∷ xs) (r ∷ []) (digits_of rest)
              ∙ ap (λ t. (x ∷ xs) ++ t) (sym (digits_of_digit r rest digit)),
        )
    | inr (inr (separator, other, e)) ↦
        let (spaced, kept) = scan_tail_sound x xs rest d (ground arith) in
        (
          (inr separator, spaced),
          kept ∙ ap (λ t. (x ∷ xs) ++ t) (sym (digits_of_other r rest other)),
        )
  ]
]

scan_tail_complete :
    (digits s : Text)
    → All (λ r. (is_digit r ≡ true) ⊎ IsSeparator r) s
    → scan digits s ≡ ok (digits ++ digits_of s)
unfolding scan digits_of
scan_tail_complete digits [] h = ap ok (sym (append-nil digits))
scan_tail_complete digits (r ∷ rest) (inl digit, h) =
    scan-step digits r rest (digits ++ r ∷ []) (step_of_digit digits r digit)
    ∙ scan_tail_complete (digits ++ r ∷ []) rest h
    ∙ ap ok (append_assoc digits (r ∷ []) (digits_of rest))
    ∙ ap (λ t. ok (digits ++ t)) (sym (digits_of_digit r rest digit))
scan_tail_complete digits (r ∷ rest) (inr separator, h) =
    scan-step digits r rest digits (step_of_separator digits r separator)
    ∙ scan_tail_complete digits rest h
    ∙ ap (λ t. ok (digits ++ t)) (sym (digits_of_other r rest (separator_is_no_digit r separator)))

-- The loop reads a text exactly if the text is written like a number, and then gives its digits.
pub scan_sound : (s d : Text) → scan [] s ≡ ok d → (w : IsWritten s) × (d ≡ digits_of w.after)
unfolding scan digits_of
scan_sound [] d h =
    (record { before = []; after = []; parts = refl; leading = tt; spaced = tt }, ground arith)
scan_sound (r ∷ rest) d h = elim (Result-cases (step [] r)) [
  | inr (e, q) ↦ absurd (ground arith)
  | inl (next, q) ↦ elim (step_cases [] r next q) [
    | inl (plus, _, e) ↦
        let (w, kept) = scan_sound rest d (ground arith) in
        (
          record {
            before = r ∷ w.before;
            after = w.after;
            parts = ap (λ t. r ∷ t) w.parts;
            leading = (inl plus, w.leading);
            spaced = w.spaced;
          },
          kept,
        )
    | inr (inl (digit, e)) ↦
        let (spaced, kept) = scan_tail_sound r [] rest d (ground arith) in
        (
          record {
            before = [];
            after = r ∷ rest;
            parts = refl;
            leading = tt;
            spaced = (inl digit, spaced);
          },
          kept ∙ sym (digits_of_digit r rest digit),
        )
    | inr (inr (separator, other, e)) ↦
        let (w, kept) = scan_sound rest d (ground arith) in
        (
          record {
            before = r ∷ w.before;
            after = w.after;
            parts = ap (λ t. r ∷ t) w.parts;
            leading = (inr separator, w.leading);
            spaced = w.spaced;
          },
          kept,
        )
  ]
]

scan_leading :
    (before after : Text)
    → All (λ r. (r ≡ b'+') ⊎ IsSeparator r) before
    → scan [] (before ++ after) ≡ scan [] after
unfolding scan
scan_leading [] after h = refl
scan_leading (r ∷ before) after (inl plus, h) =
    scan-step [] r (before ++ after) [] (ap (step []) plus ∙ step_of_plus)
    ∙ scan_leading before after h
scan_leading (r ∷ before) after (inr separator, h) =
    scan-step [] r (before ++ after) [] (step_of_separator [] r separator)
    ∙ scan_leading before after h

pub scan_complete : (s : Text) (w : IsWritten s) → scan [] s ≡ ok (digits_of w.after)
scan_complete s w =
    rw w.parts (scan_leading w.before w.after w.leading ∙ scan_tail_complete [] w.after w.spaced)
