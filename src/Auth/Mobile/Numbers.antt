-- ===== src/Auth/Mobile/Numbers.antt =====
-- Which texts are taken for Indian mobile numbers, and for which.
use wesko_go_backend.Common.{
  ℕ, ◌≤◌, ◌≡◌, ◌↔◌, ◌⊎◌, refl, sym, ap, ◌∙◌, inl, inr, false, [], ◌∷◌, ◌++◌, arith, Bool-cases,
  is_empty,
}
use wesko_go_backend.Common.Text.{Text, codes, trim_space, byte_len, rune_len, has_prefix}
use wesko_go_backend.Common.Exec.{ok, Result-cases}
use wesko_go_backend.Auth.Mobile.{scan, strip_prefix, finish, normalize_indian_mobile}
use wesko_go_backend.Auth.Mobile.Scan.{IsWritten, digits_of, scan_sound, scan_complete}

-- A number of ten bytes that begins with an ASCII digit from 6 to 9.
pub record IsLocal (number : Text) : Type 0 where
  pub first : ℕ
  pub rest : Text
  pub shape : number ≡ first ∷ rest
  pub low : b'6' ≤ first
  pub high : first ≤ b'9'
  pub ten : byte_len number ≡ 10

-- The input, without the space around it, is written like a number, and its digits are the number
-- alone, or after a 0, or after 91.
pub record IsNumberIn (input number : Text) : Type 0 where
  pub written : IsWritten (trim_space input)
  pub digits :
      (digits_of written.after ≡ number)
      ⊎ (digits_of written.after ≡ codes "0" ++ number)
      ⊎ (digits_of written.after ≡ codes "91" ++ number)
  pub local : IsLocal number

strip_prefix_sound :
    (d number : Text)
    → strip_prefix d ≡ ok number
    → (d ≡ number) ⊎ (d ≡ codes "0" ++ number) ⊎ (d ≡ codes "91" ++ number)
unfolding strip_prefix has_prefix byte_len
strip_prefix_sound [] number h = absurd (ground arith)
strip_prefix_sound (a ∷ []) number h = ground arith
strip_prefix_sound (a ∷ b ∷ d) number h = ground arith

strip_prefix_complete :
    (d number : Text)
    → byte_len number ≡ 10
    → (d ≡ number) ⊎ (d ≡ codes "0" ++ number) ⊎ (d ≡ codes "91" ++ number)
    → strip_prefix d ≡ ok number
unfolding strip_prefix has_prefix byte_len rune_len
strip_prefix_complete d number h (inl e) = ground (arith, e, h)
strip_prefix_complete d number h (inr (inl e)) = rw e (ground (arith, h))
strip_prefix_complete d number h (inr (inr e)) = rw e (ground (arith, h))

finish_sound :
    (number n : Text) → finish number ≡ ok n → IsLocal number × (n ≡ codes "+91" ++ number)
unfolding finish
finish_sound [] n h = absurd (ground arith)
finish_sound (c ∷ s) n h = (
  record {
    first = c;
    rest = s;
    shape = refl;
    low = ground arith;
    high = ground arith;
    ten = ground arith;
  },
  ground arith,
)

finish_complete : (number : Text) → IsLocal number → finish number ≡ ok (codes "+91" ++ number)
unfolding finish
finish_complete [] l = absurd (let shape = l.shape in cc)
finish_complete (c ∷ s) l = ground (arith, l.shape, l.low, l.high, l.ten)

normalize_sound :
    (input n : Text)
    → normalize_indian_mobile input ≡ ok n
    → (number : Text) × IsNumberIn input number × (n ≡ codes "+91" ++ number)
unfolding normalize_indian_mobile
normalize_sound input n h = elim (Bool-cases (is_empty (trim_space input))) [
  | inl gone ↦ absurd (ground arith)
  | inr given ↦ elim (Result-cases (scan [] (trim_space input))) [
    | inr (e, q) ↦ absurd (ground arith)
    | inl (d, q) ↦ elim (Result-cases (strip_prefix d)) [
      | inr (e, r) ↦ absurd (ground arith)
      | inl (number, r) ↦
          let (written, kept) = scan_sound (trim_space input) d q in
          let (local, shape) = finish_sound number n (ground arith) in
          (
            number,
            record {
              written = written;
              digits =
                  strip_prefix_sound (digits_of written.after) number
                    (ap strip_prefix (sym kept) ∙ r);
              local = local;
            },
            shape,
          )
    ]
  ]
]

-- A text that is written like a number and has digits is not empty.
digits_given :
    (s : Text) (w : IsWritten s) (number : Text)
    → strip_prefix (digits_of w.after) ≡ ok number
    → is_empty s ≡ false
unfolding strip_prefix has_prefix byte_len
digits_given (c ∷ s) w number h = refl
digits_given [] w number h = absurd (
    let none_left = scan_complete [] w in
    let empty : digits_of w.after ≡ [] = unfold scan in ground arith in
    let stripped = ap strip_prefix (sym empty) ∙ h in ground arith)

normalize_complete :
    (input number : Text)
    → IsNumberIn input number
    → normalize_indian_mobile input ≡ ok (codes "+91" ++ number)
unfolding normalize_indian_mobile
normalize_complete input number h =
    let stripped = strip_prefix_complete (digits_of h.written.after) number h.local.ten h.digits in
    ground (
      arith,
      digits_given (trim_space input) h.written number stripped,
      scan_complete (trim_space input) h.written,
      stripped,
      finish_complete number h.local,
    )

-- An input is normalised to a text exactly if the text is +91 and a number of ten bytes that begins
-- with an ASCII digit from 6 to 9, and the input, but for the space around it, is made of plus signs
-- and separators and then of digits and separators, where the digits are the number, alone or after a
-- 0 or 91. Digits are Unicode's, so a number may have fewer than ten; separators are spaces, hyphens
-- and round brackets.
pub normalize_indian_mobile_iff :
    (input n : Text)
    → (normalize_indian_mobile input ≡ ok n)
      ↔ ((number : Text) × IsNumberIn input number × (n ≡ codes "+91" ++ number))
normalize_indian_mobile_iff input n = (
  normalize_sound input n,
  λ (number, h, shape). normalize_complete input number h ∙ ap ok (sym shape),
)
